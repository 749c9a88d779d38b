-- ===== src/OrderBook/Withdraw.antt =====
-- cppexchange/orderbook.h: an order leaves its price level on a `cancel`.
use cpp_exchange.Prelude.{
  ℕ, suc, ◌<◌, ◌≡◌, refl, sym, ap, ◌∙◌, subst, some, List, [], ◌∷◌, All, arith, false, Bool-cases,
  inl, inr, ◌==◌, update_self, update_ne,
}
use cpp_exchange.Outcome
use cpp_exchange.Outcome.{Outcome, ok}
use cpp_exchange.Order.{OrderSide, is_buy, Order, Orders, Ptr}
use cpp_exchange.PriceLevel.{PriceLevel}
use cpp_exchange.PriceLevel.Ring.{Ring, SamePayload}
use cpp_exchange.PriceLevel.Unlink.{Removed}
use cpp_exchange.PriceLevel.Cancel.{find_id, remove_id, cancel-Removed}
use cpp_exchange.OrderBook.State.{World, levels, orders, set_orders, set_level}
use cpp_exchange.OrderBook.Matching.{cancel_at}
use cpp_exchange.OrderBook.Quiet.{Quiet}
use cpp_exchange.OrderBook.Pools.{Pools-same}
use cpp_exchange.OrderBook.Ladder.{Rung, All-map}
use cpp_exchange.OrderBook.Frame.{Kept}
use cpp_exchange.OrderBook.Place.{Shelf}

-- The order at `y` has left the level at `a`, which held the orders `l` and now holds `rest`; no
-- order has changed but in its pointers.
pub record Withdrawn (side : OrderSide) (a y : ℕ) (l rest : List ℕ) (w w' : World) : Type 0 where
  pub shelf : Shelf side w' a rest
  pub kept : Kept a l w w'
  pub payload : SamePayload (orders w) (orders w')
  pub price : (levels w' a).price_level ≡ (levels w a).price_level
  pub next_level : (levels w' a).next_price_level ≡ (levels w a).next_price_level
  pub bids_same : w'.book.best_bids ≡ w.book.best_bids
  pub asks_same : w'.book.best_asks ≡ w.book.best_asks
  pub map_same : w'.book.price_levels ≡ w.book.price_levels
  pub block_same :
      (w'.book.price_level_pool.store a).available ≡ (w.book.price_level_pool.store a).available
  pub quiet : Quiet w w'

All-remove_id {κ} :
    (P : ℕ → Type κ) (h : Orders) (id : ℕ) (l : List ℕ) → All P l → All P (remove_id h id l)
All-remove_id P h id [] ps = tt
All-remove_id P h id (c ∷ l) ps = elim (Bool-cases ((h c).order_id == id)) [
  | inl hit ↦ rw hit ps.1
  | inr miss ↦ rw miss (ps.0, All-remove_id P h id l ps.1)
]

module _ (side : OrderSide) (w : World) (a id y : ℕ) (l : List ℕ) (r : Rung side w a l) where
  Shelf-Removed :
      (lv : PriceLevel) (g : Orders)
      → Removed (levels w a) y l (remove_id (orders w) id l) (orders w) lv g
      → Shelf side (set_level (set_orders w g) a lv) a (remove_id (orders w) id l)
  Shelf-Removed lv g e =
      let h = orders w in
      let here = update_self (levels w) a lv in
      let price = ap PriceLevel.price_level here ∙ e.price in
      record {
        ring = subst (λ (k : PriceLevel). Ring g k.top_order (remove_id h id l)) (sym here) e.ring;
        priced =
            All-remove_id
              (λ o. (g o).limit_price ≡ (levels (set_level (set_orders w g) a lv) a).price_level) h
              id l (All-map l (λ o p. ap Order.limit_price (e.payload o) ∙ p ∙ sym price) r.priced);
        listed = ap w.book.price_levels price ∙ r.listed;
        positive =
            All-remove_id (λ o. 0 < (g o).quantity) h id l
              (All-map l (λ o p. subst (λ (k : Order). 0 < k.quantity) (sym (e.payload o)) p)
                r.positive);
        in_use = All-remove_id (λ o. (w.book.order_pool.store o).available ≡ false) h id l r.in_use;
        in_pool = All-remove_id (λ o. o < w.book.order_pool.size) h id l r.in_pool;
        housed = record {
          level_side =
              ap (λ (k : PriceLevel). is_buy k.side) here
              ∙ ap is_buy e.side_same
              ∙ r.housed.level_side;
          below = r.housed.below;
          taken = r.housed.taken;
        };
      }

-- `cancel` on a level of the book, of an ID that one of its orders has.
pub cancel_at-Withdrawn :
    (side : OrderSide) (w : World) (a id y : ℕ) (l : List ℕ)
    → Rung side w a l
    → find_id (orders w) id l ≡ some y
    → (w' : World) × (cancel_at a id w ≡ ok (some y, w'))
      × Withdrawn side a y l (remove_id (orders w) id l) w w'
unfolding cancel_at
cancel_at-Withdrawn side w a id y [] r found = cc found
cancel_at-Withdrawn side w a id y (o ∷ l) r found =
    let (lv, g, done, e) =
      cancel-Removed (suc w.book.order_pool.size) (levels w a) id (orders w) o y l r.ring found
        (let k = r.room in omega arith) in
    let w' = set_level (set_orders w g) a lv in
    let here = update_self (levels w) a lv in
    (
      w',
      ap
          (λ (x : Outcome (Ptr × PriceLevel × Orders)).
            Outcome.◌>>=◌ x (λ k. ok (k.0, set_level (set_orders w k.2) a k.1)))
          done,
      record {
        shelf = Shelf-Removed side w a id y (o ∷ l) r lv g e;
        kept = record {
          outside = e.outside;
          other_levels = λ b ne. update_ne (levels w) a b lv ne;
          other_prices = λ p ne. refl;
          pools = Pools-same w w' refl refl;
          order_slots_same = refl;
          level_slots_same = refl;
          other_blocks = λ b ne. refl;
        };
        payload = e.payload;
        price = ap PriceLevel.price_level here ∙ e.price;
        next_level = ap PriceLevel.next_price_level here ∙ e.next_level;
        bids_same = refl;
        asks_same = refl;
        map_same = refl;
        block_same = refl;
        quiet = record {
          ticker_same = refl;
          responses_same = refl;
          updates_same = refl;
          trades_same = refl;
          clock_same = refl;
          reads_same = refl;
        };
      },
    )
