-- ===== src/Tests/Book.antt =====
-- Runs of the order book.
use cpp_exchange.Prelude.{ℕ, ◌≡◌, refl}
use cpp_exchange.Outcome.{Outcome, ok}
use cpp_exchange.Order.{OrderSide}
use cpp_exchange.LfQueue
use cpp_exchange.ObjectPool
use cpp_exchange.ObjectPool.{get_object, next_index, find_free, release_object, update_next_free}
use cpp_exchange.PriceLevel
use cpp_exchange.PriceLevel.{
  add_behind, find_order, get_next_price_level, get_price, get_side, new_top, set_next_price_level,
  top, unlink,
}
use cpp_exchange.OrderBook.Levels.{
  get_price_level, insert_price_level, find_next_level, allocate_level, find_previous_level,
  get_price_level_index, goes_behind, remove_price_level, unchain_level,
}
use cpp_exchange.Messages.{make_response, make_update, ResponseType, UpdateType}
use cpp_exchange.OrderBook.State.{World, Cmd, ◌>>◌, create, now, respond, publish, take_trade_id}
use cpp_exchange.OrderBook.Matching.{
  check_for_match, match_loop, cancel_at, confirm_fill, crosses, keep, match_at, match_best,
  publish_trade, retire, take_quantity,
}
use cpp_exchange.OrderBook.Entry.{add, rest_order, allocate_order, add_at}

abbrev empty_world : World
unfolding create LfQueue.create
empty_world = record {
  book = create 7;
  client_response_queue =
      LfQueue.create 64 (make_response ResponseType.invalid 0 0 0 OrderSide.invalid 0 0 0);
  market_update_queue =
      LfQueue.create 64 (make_update UpdateType.invalid 0 0 0 OrderSide.invalid 0 0 0);
  next_trade_id = 1;
  clock = λ n. n;
  clock_reads = 0;
}

-- Two bids, the better first; then a sell of ten that both should fill.
abbrev two_bids_and_a_sell : Cmd ℕ
two_bids_and_a_sell = do
  add 1 10 OrderSide.buy 5 100
  add 2 10 OrderSide.buy 5 99
  check_for_match 3 11 OrderSide.sell 10 99

abbrev left_over : Outcome (ℕ × World) → ℕ
left_over (ok (n, w)) = n
left_over Outcome.exited = 1000
left_over Outcome.undefined = 2000
left_over Outcome.out_of_fuel = 3000

sell_fills_the_best_level : left_over (two_bids_and_a_sell empty_world) ≡ 5
unfolding add now respond check_for_match match_loop empty_world rest_order get_price_level
    insert_price_level find_next_level allocate_level get_object ObjectPool.create find_free
    allocate_order add_at PriceLevel.add LfQueue.create LfQueue.push next_index release_object
    update_next_free find_previous_level get_price_level_index goes_behind remove_price_level
    unchain_level cancel_at confirm_fill crosses keep match_at match_best publish_trade retire
    take_quantity create publish take_trade_id add_behind PriceLevel.cancel find_order
    get_next_price_level get_price get_side new_top set_next_price_level top unlink
sell_fills_the_best_level = refl
