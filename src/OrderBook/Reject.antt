-- ===== src/OrderBook/Reject.antt =====
-- cppexchange/orderbook.h: `cancel` of an order at a price that has no level.
use cpp_exchange.Prelude.{ℕ, ◌+◌, ◌≡◌, refl, none}
use cpp_exchange.Outcome.{ok}
use cpp_exchange.Types.{quantity_invalid, price_invalid}
use cpp_exchange.LfQueue.{push}
use cpp_exchange.Order.{OrderSide}
use cpp_exchange.Messages.{ResponseType, make_response}
use cpp_exchange.OrderBook.State.{World, now, respond}
use cpp_exchange.OrderBook.Levels.{get_price_level, get_price_level_index}
use cpp_exchange.OrderBook.Entry.{cancel, report_cancel}

-- The state after the client is told that there is no such order.
abbrev pub rejected : (client_id order_id : ℕ) → World → World
rejected client_id order_id w = record w {
  client_response_queue = push w.client_response_queue (
      make_response ResponseType.cancel_rejected w.book.ticker_id client_id order_id
        OrderSide.invalid quantity_invalid price_invalid (w.clock w.clock_reads));
  clock_reads = w.clock_reads + 1;
}

-- Where the map has no level at the price, `cancel` tells the client that the cancel is rejected,
-- and neither the book nor what the market is told changes.
pub cancel-rejected :
    (client_id order_id : ℕ) (side : OrderSide) (limit_price : ℕ) (w : World)
    → w.book.price_levels limit_price ≡ none
    → cancel client_id order_id side limit_price w ≡ ok (tt, rejected client_id order_id w)
unfolding cancel report_cancel get_price_level get_price_level_index now respond
cancel-rejected client_id order_id side limit_price w missing = rw missing refl
