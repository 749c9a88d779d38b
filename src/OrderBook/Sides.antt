-- ===== src/OrderBook/Sides.antt =====
-- cppexchange/orderbook.h: the two sides of a book together.
use cpp_exchange.Prelude.{
  ℕ, arith, Fresh, [], ◌∷◌, ◌++◌, ◌≡◌, refl, ap, ◌∙◌, List, All, Bool, true, false, not, none,
}
use cpp_exchange.ObjectPool.Laws.{IsValid}
use cpp_exchange.Order.{OrderSide, is_buy}
use cpp_exchange.OrderBook.State.{World, best_of}
use cpp_exchange.OrderBook.Matching.{crosses}
use cpp_exchange.OrderBook.Loop.{opposite_best}
use cpp_exchange.OrderBook.Ladder.{Ladder, prices, price_of}

-- The side of the orders that an order on the given side meets.
abbrev pub opposite : OrderSide → OrderSide
opposite OrderSide.buy = OrderSide.sell
opposite _ = OrderSide.buy

pub is_buy-opposite : (side : OrderSide) → is_buy (opposite side) ≡ not (is_buy side)
is_buy-opposite OrderSide.buy = refl
is_buy-opposite OrderSide.sell = refl
is_buy-opposite OrderSide.invalid = refl

pub not-not : (b : Bool) → not (not b) ≡ b
not-not true = refl
not-not false = refl

pub opposite_best-own :
    (side : OrderSide) (w : World) → opposite_best (opposite side) w ≡ best_of (is_buy side) w.book
opposite_best-own side w =
    ap (λ (k : Bool). best_of (not k) w.book) (is_buy-opposite side)
    ∙ ap (λ (k : Bool). best_of k w.book) (not-not (is_buy side))

-- No price of `own` is acceptable to an order at a price of `other`, where `buy` says whether `own`
-- are the bids.
abbrev pub Uncrossed : (buy : Bool) → (own other : List ℕ) → Type 0
Uncrossed buy own other = All (λ p. All (λ q. crosses buy p q ≡ false) other) own

-- The book, as an order on `side` sees it: `own` are the levels of its own side and `met` those of
-- the side that it meets, each from the best on; no bid is as high as an ask; the map has nothing at a
-- price that neither side has; and the two pools can hand out a block.
pub record Book (side : OrderSide) (w : World) (own met : List (ℕ × List ℕ)) : Type 0 where
  pub own_ladder : Ladder (opposite side) w own
  pub met_ladder : Ladder side w met
  pub uncrossed : Uncrossed (is_buy side) (prices w own) (prices w met)
  pub unlisted :
      (p : ℕ) → Fresh p (prices w own) → Fresh p (prices w met) → w.book.price_levels p ≡ none
  pub orders_valid : IsValid w.book.order_pool
  pub levels_valid : IsValid w.book.price_level_pool

pub Uncrossed-Fresh :
    (buy : Bool) (p : ℕ) (qs : List ℕ) → All (λ q. crosses buy p q ≡ false) qs → Fresh p qs
unfolding crosses
Uncrossed-Fresh buy p [] u = tt
Uncrossed-Fresh true p (q ∷ qs) u = ((let k = u.0 in ground arith), Uncrossed-Fresh true p qs u.1)
Uncrossed-Fresh false p (q ∷ qs) u = ((let k = u.0 in ground arith), Uncrossed-Fresh false p qs u.1)

-- What holds of all prices holds of the one in the middle.
pub price_in_the_middle {κ} :
    (P : ℕ → Type κ) (w : World) (before : List (ℕ × List ℕ)) (lv : ℕ × List ℕ)
    (behind : List (ℕ × List ℕ))
    → All P (prices w (before ++ lv ∷ behind))
    → P (price_of w lv)
price_in_the_middle P w [] lv behind h = h.0
price_in_the_middle P w (b ∷ before) lv behind h = price_in_the_middle P w before lv behind h.1
