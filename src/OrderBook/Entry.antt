-- ===== src/OrderBook/Entry.antt =====
-- cppexchange/orderbook.h: the public methods of an order book.
use cpp_exchange.Prelude.{ℕ, true, false, none, some, ◌==◌, if◌then◌else◌}
use cpp_exchange.Outcome
use cpp_exchange.Outcome.{Outcome, ok}
use cpp_exchange.Types.{trade_id_invalid, quantity_invalid, price_invalid}
use cpp_exchange.ObjectPool.{get_object}
use cpp_exchange.Order.{OrderSide, Ptr, is_null, address, Order, make_order}
use cpp_exchange.PriceLevel
use cpp_exchange.PriceLevel.{top}
use cpp_exchange.Messages.{ResponseType, make_response, UpdateType, make_update}
use cpp_exchange.OrderBook.State.{
  Cmd, pure, ◌>>=◌, ◌>>◌, lift, gets, levels, orders, set_orders, set_level, with_book, now,
  respond, publish,
}
use cpp_exchange.OrderBook.Levels.{get_price_level, remove_price_level}
use cpp_exchange.OrderBook.Matching.{cancel_at, check_for_match}

-- `order_pool.getObject` with the constructor's arguments.
unfoldable pub allocate_order : Order → Cmd ℕ
allocate_order o w =
    let b = w.book in
    Outcome.◌>>=◌ (get_object b.order_pool o)
      (λ r. ok (r.0, with_book w (record b { order_pool = r.1 })))

-- `add` on the level at the address `a`.
unfoldable pub add_at : (a order : ℕ) → Cmd (Unit {0})
add_at a order w =
    Outcome.◌>>=◌ (PriceLevel.add (levels w a) order (orders w))
      (λ r. ok (tt, set_level (set_orders w r.1) a r.0))

-- What is left of an order takes its place at the end of its price level.
unfoldable pub rest_order :
    (order_id client_id : ℕ) → OrderSide → (remaining limit_price : ℕ) → Cmd (Unit {0})
rest_order order_id client_id side remaining limit_price = do
  level ← get_price_level limit_price side true
  ticker ← gets (λ w. w.book.ticker_id)
  ns ← now
  order ← allocate_order (make_order ticker order_id client_id ns side remaining limit_price)
  a ← lift (address level)
  add_at a order
  ns' ← now
  publish
      (make_update UpdateType.add ticker order_id trade_id_invalid side remaining limit_price ns')

unfoldable pub add :
    (order_id client_id : ℕ) → OrderSide → (quantity limit_price : ℕ) → Cmd (Unit {0})
add order_id client_id side quantity limit_price = do
  ticker ← gets (λ w. w.book.ticker_id)
  ns ← now
  respond
      (make_response ResponseType.accepted ticker client_id order_id side quantity limit_price ns)
  remaining ← check_for_match order_id client_id side quantity limit_price
  let rested = rest_order order_id client_id side remaining limit_price
  if remaining == 0 then pure tt else rested

-- What `cancel` does to the level at the address `a`.
unfoldable pub cancel_in_level : (a order_id : ℕ) → Cmd Ptr
cancel_in_level a order_id = do
  order ← cancel_at a order_id
  emptied ← gets (λ w. is_null (top (levels w a)))
  (if emptied then remove_price_level a else pure tt)
  pure order

-- What `cancel` tells the client and the market.
unfoldable pub report_cancel :
    (client_id order_id : ℕ) → OrderSide → (limit_price : ℕ) → Ptr → Cmd (Unit {0})
report_cancel client_id order_id side limit_price none = do
  ticker ← gets (λ w. w.book.ticker_id)
  ns ← now
  respond (
      make_response ResponseType.cancel_rejected ticker client_id order_id OrderSide.invalid
        quantity_invalid price_invalid ns)
report_cancel client_id order_id side limit_price (some order) = do
  ticker ← gets (λ w. w.book.ticker_id)
  quantity ← gets (λ w. (orders w order).quantity)
  update_ns ← now
  respond (
      make_response ResponseType.canceled ticker client_id order_id side quantity limit_price
        update_ns)
  publish (
      make_update UpdateType.remove ticker order_id trade_id_invalid side quantity limit_price
        update_ns)

unfoldable pub cancel : (client_id order_id : ℕ) → OrderSide → (limit_price : ℕ) → Cmd (Unit {0})
cancel client_id order_id side limit_price = do
  level ← get_price_level limit_price side false
  order ← elim level [ none ↦ pure none | some a ↦ cancel_in_level a order_id ]
  report_cancel client_id order_id side limit_price order
