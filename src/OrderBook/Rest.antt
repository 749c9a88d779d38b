-- ===== src/OrderBook/Rest.antt =====
-- cppexchange/orderbook.h: what is left of an order rests at a price that has a level.
use cpp_exchange.Prelude.{
  ℕ, ◌+◌, ◌≤◌, ◌<◌, ◌≡◌, sym, ap, ap₂, ◌∙◌, subst, some, List, [], ◌∷◌, ◌++◌, true, not, Fresh,
}
use cpp_exchange.Outcome.{ok}
use cpp_exchange.ObjectPool.Laws.{IsValid, free_count}
use cpp_exchange.Order.{OrderSide, is_buy, Order, make_order}
use cpp_exchange.Messages.{UpdateType, make_update, MarketUpdate}
use cpp_exchange.Types.{trade_id_invalid}
use cpp_exchange.LfQueue.{LfQueue, push}
use cpp_exchange.PriceLevel.{PriceLevel}
use cpp_exchange.ObjectPool.{ObjectPool}
use cpp_exchange.OrderBook.Front.{quantities}
use cpp_exchange.PriceLevel.Ring.{detach}
use cpp_exchange.OrderBook.State.{World, levels, orders, now, publish}
use cpp_exchange.OrderBook.Levels.{get_price_level}
use cpp_exchange.OrderBook.Entry.{allocate_order, add_at, rest_order}
use cpp_exchange.OrderBook.Allocate.{Allocated, allocate_order-Allocated}
use cpp_exchange.OrderBook.Place.{Shelf, Waiting, add_at-Placed}
use cpp_exchange.OrderBook.Join.{Joined, Allocated-Joined, quantities-Joined}
use cpp_exchange.OrderBook.Sides.{opposite, is_buy-opposite, not-not}

-- The reading of the clock, and nothing else.
abbrev pub ticked : World → World
ticked w = record w { clock_reads = w.clock_reads + 1 }

-- The state after the market is told of the new order.
abbrev pub announced :
    (ticker_id order_id : ℕ) → OrderSide → (remaining limit_price : ℕ) → World → World
announced ticker_id order_id side remaining limit_price w = record (ticked w) {
  market_update_queue = push w.market_update_queue (
      make_update UpdateType.add ticker_id order_id trade_id_invalid side remaining limit_price
        (w.clock w.clock_reads));
}

module _ (order_id client_id : ℕ) (side : OrderSide) (remaining limit_price : ℕ) where
  -- The order that takes its place in the book, in the state `w`.
  abbrev pub rested : World → Order
  rested w =
      make_order w.book.ticker_id order_id client_id (w.clock w.clock_reads) side remaining
        limit_price

  pub rest_order-steps :
      (w w0 w1 w2 : World) (a x : ℕ)
      → get_price_level limit_price side true w ≡ ok (some a, w0)
      → allocate_order (rested w0) (ticked w0) ≡ ok (x, w1)
      → add_at a x w1 ≡ ok (tt, w2)
      → rest_order order_id client_id side remaining limit_price w
        ≡ ok (tt, announced w0.book.ticker_id order_id side remaining limit_price w2)
  unfolding rest_order now publish
  rest_order-steps w w0 w1 w2 a x got allocated added = rw (got, allocated, added)

  -- The order at `x` is the rest of the incoming one, and the market has been told of it.
  pub record Rested (w0 : World) (x : ℕ) (w' : World) : Type 0 where
    pub holds : detach (orders w' x) ≡ detach (rested w0)
    pub updates :
        w'.market_update_queue
        ≡ push w0.market_update_queue (
            make_update UpdateType.add w0.book.ticker_id order_id trade_id_invalid side remaining
              limit_price
              (w0.clock (w0.clock_reads + 1)))
    pub responses : w'.client_response_queue ≡ w0.client_response_queue
    pub trades : w'.next_trade_id ≡ w0.next_trade_id

  pub Joined-Rested :
      (w0 w2 : World) (a x : ℕ) (l : List ℕ)
      → Joined (opposite side) (rested w0) a x l (ticked w0) w2
      → Rested w0 x (announced w0.book.ticker_id order_id side remaining limit_price w2)
  Joined-Rested w0 w2 a x l j =
      let q = j.quiet in
      record {
        holds = j.holds;
        updates =
            ap₂
              (λ (u : LfQueue MarketUpdate) (t : ℕ). push u (
                make_update UpdateType.add w0.book.ticker_id order_id trade_id_invalid side
                  remaining limit_price t))
              q.updates_same (ap₂ (λ (c : ℕ → ℕ) (n : ℕ). c n) q.clock_same q.reads_same);
        responses = q.responses_same;
        trades = q.trades_same;
      }

  -- The rest of the order joins the level at `a`, which is well formed but may be empty, at a price
  -- that is acceptable to the pool of orders.
  pub join :
      (w0 : World) (a : ℕ) (l : List ℕ)
      → IsValid w0.book.order_pool
      → 2 ≤ free_count w0.book.order_pool
      → 0 < remaining
      → (levels w0 a).price_level ≡ limit_price
      → ((w1 : World)
          → Allocated (rested w0) w0.book.order_pool.next_free (ticked w0) w1
          → Shelf (opposite side) w1 a l
            × (quantities (orders w1) l ≡ quantities (orders w0) l)
            × Fresh w0.book.order_pool.next_free l)
      → let x = w0.book.order_pool.next_free in
        (w1 : World) × (w2 : World) × (allocate_order (rested w0) (ticked w0) ≡ ok (x, w1))
        × (add_at a x w1 ≡ ok (tt, w2))
        × Joined (opposite side) (rested w0) a x l (ticked w0) w2
        × (quantities (orders w2) (l ++ x ∷ []) ≡ quantities (orders w0) l ++ remaining ∷ [])
  join w0 a l valid room more price shelf =
      let x = w0.book.order_pool.next_free in
      let o = rested w0 in
      let (w1, got, g) = allocate_order-Allocated o (ticked w0) valid room in
      let (s, same, fresh) = shelf w1 g in
      let lev =
        ap (λ (q : ObjectPool PriceLevel). (q.store a).object.price_level) g.level_pool_same in
      let waits : Waiting (opposite side) w1 a x l = record {
        apart = fresh;
        at_price = ap Order.limit_price g.holds ∙ sym price ∙ sym lev;
        open_quantity = subst (λ (k : Order). 0 < k.quantity) (sym g.holds) more;
        on_side =
            ap (λ (k : Order). is_buy k.side) g.holds
            ∙ sym (not-not (is_buy side))
            ∙ ap not (sym (is_buy-opposite side));
        taken = g.taken;
        below = g.below;
      } in
      let (w2, added, p) = add_at-Placed (opposite side) w1 a x l s waits in
      (
        w1,
        w2,
        got,
        added,
        Allocated-Joined (opposite side) o a x l (ticked w0) w1 w2 g s waits p,
        quantities-Joined (opposite side) o a x l (ticked w0) w1 w2 g p same,
      )
