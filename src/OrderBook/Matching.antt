-- ===== src/OrderBook/Matching.antt =====
-- cppexchange/orderbook.h: an incoming order against the resting orders of the other side.
use cpp_exchange.Prelude.{
  ℕ, zero, suc, ◌-◌, min, Bool, true, false, not, none, some, update, leb, ◌==◌, if◌then◌else◌,
  ◌&&◌,
}
use cpp_exchange.Outcome
use cpp_exchange.Outcome.{Outcome, ok, out_of_fuel}
use cpp_exchange.Types.{order_id_invalid, trade_id_invalid}
use cpp_exchange.Order.{OrderSide, is_buy, Ptr, is_null, address}
use cpp_exchange.PriceLevel.{PriceLevel, get_price, top}
use cpp_exchange.PriceLevel
use cpp_exchange.Messages.{ResponseType, make_response, UpdateType, make_update}
use cpp_exchange.OrderBook.State.{
  Cmd, pure, ◌>>=◌, ◌>>◌, lift, gets, modify, levels, orders, set_orders, set_level, best_of, now,
  respond, publish, take_trade_id,
}
use cpp_exchange.OrderBook.Levels.{get_price_level, remove_price_level}

-- `cancel` on the level at the address `a`. A ring holds at most as many orders as there are, which
-- bounds the rounds of its loop.
unfoldable pub cancel_at : (a : ℕ) → (order_id : ℕ) → Cmd Ptr
cancel_at a order_id w =
    Outcome.◌>>=◌ (PriceLevel.cancel (suc w.book.order_pool.size) (levels w a) order_id (orders w))
      (λ r. ok (r.0, set_level (set_orders w r.2) a r.1))

-- What `match` does to an order that is filled up.
unfoldable pub retire : (opposite : ℕ) → (side : OrderSide) → (fill_quantity : ℕ) → Cmd (Unit {0})
retire opposite side fill_quantity = do
  o ← gets (λ w. orders w opposite)
  ticker ← gets (λ w. w.book.ticker_id)
  ns ← now
  publish (
      make_update UpdateType.remove ticker o.order_id trade_id_invalid o.side fill_quantity
        o.limit_price ns)
  level ← get_price_level o.limit_price side false
  a ← lift (address level)
  removed ← cancel_at a o.order_id
  pure tt

-- What `match` does to an order that is filled in part.
unfoldable pub keep : (opposite : ℕ) → Cmd (Unit {0})
keep opposite = do
  o ← gets (λ w. orders w opposite)
  ticker ← gets (λ w. w.book.ticker_id)
  ns ← now
  publish (
      make_update UpdateType.modify ticker o.order_id trade_id_invalid o.side o.quantity
        o.limit_price ns)

-- The responses of `match` to the two clients.
unfoldable pub confirm_fill :
    (order_id client_id : ℕ) → OrderSide → (opposite fill_quantity : ℕ) → Cmd (Unit {0})
confirm_fill order_id client_id side opposite fill_quantity = do
  o ← gets (λ w. orders w opposite)
  ticker ← gets (λ w. w.book.ticker_id)
  ns ← now
  respond (
      make_response ResponseType.filled ticker o.client_id o.order_id o.side fill_quantity
        o.limit_price ns)
  ns' ← now
  respond (
      make_response ResponseType.filled ticker client_id order_id side fill_quantity o.limit_price
        ns')

-- `opposite->quantity -= fill_quantity`, for a fill of at most the quantity.
unfoldable pub take_quantity : (opposite fill_quantity : ℕ) → Cmd (Unit {0})
take_quantity opposite fill_quantity = modify (λ w.
    let o = orders w opposite in
    set_orders w (update (orders w) opposite (record o { quantity = o.quantity - fill_quantity })))

-- The trade of `match`.
unfoldable pub publish_trade : (side : OrderSide) → (fill_quantity price : ℕ) → Cmd (Unit {0})
publish_trade side fill_quantity price = do
  ticker ← gets (λ w. w.book.ticker_id)
  trade_id ← take_trade_id
  ns ← now
  publish
      (make_update UpdateType.trade ticker order_id_invalid trade_id side fill_quantity price ns)

-- `match` against the order at the address `opposite`; the result is what is left to fill.
unfoldable pub match_at : (order_id client_id : ℕ) → OrderSide → (quantity opposite : ℕ) → Cmd ℕ
match_at order_id client_id side quantity opposite = do
  o ← gets (λ w. orders w opposite)
  let fill_quantity = min quantity o.quantity
  publish_trade side fill_quantity o.limit_price
  take_quantity opposite fill_quantity
  left ← gets (λ w. (orders w opposite).quantity)
  (if left == 0 then retire opposite side fill_quantity else keep opposite)
  confirm_fill order_id client_id side opposite fill_quantity
  pure (quantity - fill_quantity)

-- The result of `checkForMatch`'s test of the best opposite level: whether its price is acceptable.
unfoldable pub crosses : Bool → (limit_price price : ℕ) → Bool
crosses true limit_price price = leb price limit_price
crosses false limit_price price = leb limit_price price

-- The body of the loops, at the best level of the other side.
unfoldable pub match_best : (order_id client_id : ℕ) → OrderSide → (quantity best : ℕ) → Cmd ℕ
match_best order_id client_id side quantity best = do
  opposite ← gets (λ w. top (levels w best))
  o ← lift (address opposite)
  left ← match_at order_id client_id side quantity o
  best' ← gets (λ w. best_of (not (is_buy side)) w.book)
  b ← lift (address best')
  emptied ← gets (λ w. is_null (top (levels w b)))
  (if emptied then remove_price_level b else pure tt)
  pure left

-- The loops of `checkForMatch`.
unfoldable pub match_loop :
    ℕ → (order_id client_id : ℕ) → OrderSide → (quantity limit_price : ℕ) → Cmd ℕ
match_loop zero order_id client_id side quantity limit_price = λ _. out_of_fuel
match_loop (suc fuel) order_id client_id side quantity limit_price = do
  best ← gets (λ w. best_of (not (is_buy side)) w.book)
  elim best [
    | none ↦ pure quantity
    | some b ↦ λ w.
        let goes_on =
          not (quantity == 0) && crosses (is_buy side) limit_price (get_price (levels w b)) in
        let round : Cmd ℕ = (do
          left ← match_best order_id client_id side quantity b
          match_loop fuel order_id client_id side left limit_price) in
        (if goes_on then round w else ok (quantity, w))
  ]

-- A round fills at least one unit, which bounds their number.
unfoldable pub check_for_match :
    (order_id client_id : ℕ) → OrderSide → (quantity limit_price : ℕ) → Cmd ℕ
check_for_match order_id client_id side quantity limit_price =
    match_loop (suc quantity) order_id client_id side quantity limit_price
