-- ===== src/OrderBook/Ladder.antt =====
-- cppexchange/orderbook.h: one side of the book as the list of its price levels, from the best on,
-- each with the orders that rest in it, in time order.
use cpp_exchange.Prelude.{
  ℕ, ◌+◌, ◌≤◌, ◌<◌, ◌≡◌, ap, ◌∙◌, some, List, [], ◌∷◌, map, arith, Fresh, All, length, not, Bool,
  true, false,
}
use cpp_exchange.Order.{OrderSide, is_buy}
use cpp_exchange.PriceLevel.Ring.{Ring}
use cpp_exchange.OrderBook.State.{World, levels, orders}
use cpp_exchange.OrderBook.LevelChain.{LevelChain}
use cpp_exchange.OrderBook.Levels.{goes_behind}
use cpp_exchange.OrderBook.Pools.{InUse}
use cpp_exchange.OrderBook.Loop.{opposite_best}
use cpp_exchange.OrderBook.Front.{Front, quantities, total}
use cpp_exchange.OrderBook.Drain.{Housed}

-- The level at `a`, on the side that incoming orders on `side` meet, is well formed and holds the
-- orders `l`: each is at the level's price and has a quantity to fill, there is at least one, and
-- the map sends the price to the level.
pub record Rung (side : OrderSide) (w : World) (a : ℕ) (l : List ℕ) : Type 0 where
  pub ring : Ring (orders w) (levels w a).top_order l
  pub priced : All (λ o. (orders w o).limit_price ≡ (levels w a).price_level) l
  pub listed : w.book.price_levels (levels w a).price_level ≡ some a
  pub positive : All (λ o. 0 < (orders w o).quantity) l
  pub stocked : 0 < total (quantities (orders w) l)
  pub room : length l ≤ w.book.order_pool.size + 1
  pub in_use : InUse w.book.order_pool l
  pub in_pool : All (λ o. o < w.book.order_pool.size) l
  pub housed : Housed side w a

abbrev pub price_of : World → ℕ × List ℕ → ℕ
price_of w lv = (levels w lv.0).price_level

abbrev pub prices : World → List (ℕ × List ℕ) → List ℕ
prices w ls = map (price_of w) ls

-- Each of the prices is better than those behind it, on the side of the bids where `buy` holds.
abbrev pub Ranked : (buy : Bool) → List ℕ → Type 0
Ranked buy [] = Unit {0}
Ranked buy (p ∷ ps) = All (λ q. goes_behind buy q p ≡ true) ps × Ranked buy ps

pub Ranked-Fresh :
    (buy : Bool) (p : ℕ) (ps : List ℕ) → All (λ q. goes_behind buy q p ≡ true) ps → Fresh p ps
unfolding goes_behind
Ranked-Fresh buy p [] h = tt
Ranked-Fresh true p (q ∷ ps) h = ((let k = h.0 in ground arith), Ranked-Fresh true p ps h.1)
Ranked-Fresh false p (q ∷ ps) h = ((let k = h.0 in ground arith), Ranked-Fresh false p ps h.1)

-- The side that incoming orders on `side` meet is the levels `ls`, from the best on.
pub record Ladder (side : OrderSide) (w : World) (ls : List (ℕ × List ℕ)) : Type 0 where
  pub chain : LevelChain (levels w) (opposite_best side w) (map (λ lv. lv.0) ls)
  pub rungs : All (λ lv. Rung side w lv.0 lv.1) ls
  pub ranked : Ranked (not (is_buy side)) (prices w ls)

pub All-map {ℓ κ} :
    {P : ℕ → Type ℓ} {Q : ℕ → Type κ} (l : List ℕ) → ((b : ℕ) → P b → Q b) → All P l → All Q l
All-map [] k ps = tt
All-map (b ∷ l) k ps = (k b ps.0, All-map l k ps.1)

pub All-both {ℓ κ ι} :
    {P : ℕ → Type ℓ} {Q : ℕ → Type κ} {R : ℕ → Type ι} (l : List ℕ)
    → ((b : ℕ) → P b → Q b → R b)
    → All P l
    → All Q l
    → All R l
All-both [] k ps qs = tt
All-both (b ∷ l) k ps qs = (k b ps.0 qs.0, All-both l k ps.1 qs.1)

-- The first level is the front.
pub Rung-Front :
    (side : OrderSide) (w : World) (a : ℕ) (l : List ℕ)
    → opposite_best side w ≡ some a
    → Rung side w a l
    → Front side w a l
Rung-Front side w a l best r = record {
  best = best;
  ring = r.ring;
  mapped = All-map l (λ b e. ap w.book.price_levels e ∙ r.listed) r.priced;
  positive = r.positive;
  room = r.room;
}
