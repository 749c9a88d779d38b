-- ===== src/OrderBook/Join.antt =====
-- cppexchange/orderbook.h: a new order joins a price level.
use mathlib.Core.List.{map-append}
use cpp_exchange.Prelude.{ℕ, ◌≡◌, ◌≢◌, sym, ap, ap₂, ◌∙◌, subst, List, [], ◌∷◌, ◌++◌}
use cpp_exchange.ObjectPool.{ObjectPool}
use cpp_exchange.ObjectPool.Laws.{IsValid}
use cpp_exchange.Order.{OrderSide, Order}
use cpp_exchange.PriceLevel.{PriceLevel}
use cpp_exchange.PriceLevel.Ring.{detach}
use cpp_exchange.OrderBook.Quiet.{Quiet, Quiet-trans}
use cpp_exchange.OrderBook.State.{World, levels, orders}
use cpp_exchange.OrderBook.Pools.{orders-IsValid}
use cpp_exchange.OrderBook.Front.{quantities}
use cpp_exchange.OrderBook.Ladder.{Rung}
use cpp_exchange.OrderBook.Frame.{StillRung, StillRung-trans, Rung-Kept}
use cpp_exchange.OrderBook.Allocate.{Allocated}
use cpp_exchange.OrderBook.Place.{Shelf, Waiting, Placed, quantities-payload}

-- The order `o` has been put at `x` and rests last in the level at `a`, behind the orders `l`;
-- every level at another price is what it was.
pub record Joined (side : OrderSide) (o : Order) (a x : ℕ) (l : List ℕ) (w w' : World)
    : Type 0 where
  pub rung : Rung side w' a (l ++ x ∷ [])
  pub holds : detach (orders w' x) ≡ detach o
  pub still :
      (s : OrderSide) (b : ℕ) (m : List ℕ)
      → (levels w b).price_level ≢ (levels w a).price_level
      → Rung s w b m
      → StillRung s b m w w'
  pub price : (levels w' a).price_level ≡ (levels w a).price_level
  pub next_level : (levels w' a).next_price_level ≡ (levels w a).next_price_level
  pub bids_same : w'.book.best_bids ≡ w.book.best_bids
  pub asks_same : w'.book.best_asks ≡ w.book.best_asks
  pub map_same : w'.book.price_levels ≡ w.book.price_levels
  pub quiet : Quiet w w'
  pub orders_valid : IsValid w'.book.order_pool
  pub levels_valid : IsValid w.book.price_level_pool → IsValid w'.book.price_level_pool

pub Allocated-Joined :
    (side : OrderSide) (o : Order) (a x : ℕ) (l : List ℕ) (w w1 w' : World)
    → Allocated o x w w1
    → Shelf side w1 a l
    → Waiting side w1 a x l
    → Placed side a x l w1 w'
    → Joined side o a x l w w'
Allocated-Joined side o a x l w w1 w' g s t p =
    let lev : levels w1 a ≡ levels w a =
      ap (λ (q : ObjectPool PriceLevel). (q.store a).object) g.level_pool_same in
    let price = ap PriceLevel.price_level lev in
    record {
      rung = p.rung;
      holds = p.payload x ∙ ap detach g.holds;
      still = λ r b m n u.
          let first = g.still r b m u in
          let ne = λ (e : (levels w1 b).price_level ≡ (levels w1 a).price_level).
            n (sym (ap PriceLevel.price_level first.level_same) ∙ e ∙ price) in
          StillRung-trans r b m w w1 w' first
            (Rung-Kept r a (x ∷ l) w1 w' p.kept (t.at_price, s.priced) b m ne first.rung);
      price = p.price ∙ price;
      next_level = p.next_level ∙ ap PriceLevel.next_price_level lev;
      bids_same = p.bids_same ∙ g.bids_same;
      asks_same = p.asks_same ∙ g.asks_same;
      map_same = p.map_same ∙ g.map_same;
      quiet = Quiet-trans w w1 w' g.quiet p.quiet;
      orders_valid = orders-IsValid w1 w' p.kept.pools g.valid;
      levels_valid = λ v. p.kept.pools.level_valid (subst IsValid (sym g.level_pool_same) v);
    }

-- What the level then offers.
pub quantities-Joined :
    (side : OrderSide) (o : Order) (a x : ℕ) (l : List ℕ) (w w1 w' : World)
    → Allocated o x w w1
    → Placed side a x l w1 w'
    → quantities (orders w1) l ≡ quantities (orders w) l
    → quantities (orders w') (l ++ x ∷ []) ≡ quantities (orders w) l ++ o.quantity ∷ []
quantities-Joined side o a x l w w1 w' g p same =
    quantities-payload (orders w1) (orders w') (l ++ x ∷ []) p.payload
    ∙ map-append (λ (b : ℕ). (orders w1 b).quantity) l (x ∷ [])
    ∙ ap₂ (λ xs q. xs ++ q ∷ []) same (ap Order.quantity g.holds)
