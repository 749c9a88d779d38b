-- ===== src/Tests/Parts.antt =====
-- The queue, the pool, the sequencer and the exchange at concrete inputs.
use mathlib.Core.List.{Perm}
use cpp_exchange.Prelude.{
  ℕ, ◌≡◌, ◌≢◌, ◌+◌, refl, some, none, true, false, Bool, zero, suc, List, [], ◌∷◌, ◌++◌, map, arith,
  length,
}
use cpp_exchange.Outcome.{Outcome, ok, undefined, exited, out_of_fuel, ◌>>=◌}
use cpp_exchange.LfQueue.{LfQueue, pop, deref, push, push_all}
use cpp_exchange.LfQueue.Fifo.{contents, count, contents-push_all, pop-cons, push_full_loses_all}
use cpp_exchange.LfQueue.Fifo
use cpp_exchange.LfQueue.Pointers.{deref_after_pushes}
use cpp_exchange.ObjectPool.{ObjectPool, ObjectBlock, get_object, release_object}
use cpp_exchange.ObjectPool.Laws.{
  Taken, free_count, get_object-Taken, get_object_last, release_object_lem,
}
use cpp_exchange.ObjectPool.Laws
use cpp_exchange.Order.{OrderSide}
use cpp_exchange.Messages.{
  RequestType, ClientRequest, make_response, make_update, ResponseType, UpdateType,
}
use cpp_exchange.FifoSequencer.{
  FifoSequencer, ReceiveTimeClientRequest, add_request, sequence_and_publish, earlier,
}
use cpp_exchange.FifoSequencer.Publish.{
  Ascending, pending, sequence_and_publish_lem, pending-add_request,
}
use cpp_exchange.OrderBook.State
use cpp_exchange.OrderBook.Entry
use cpp_exchange.OrderBook.Levels.{get_price_level, get_price_level_index}
use cpp_exchange.Tests.Sorting.{sort, sort-Sorts}
use cpp_exchange.Exchange.{
  Exchange, find_book, contains, add_ticker, process_request, on_book, dispatch, cancel_order, run,
}
use cpp_exchange.Exchange.Running.{with_requests, drained, process_all, run-process_all}
use cpp_exchange.Exchange.NoBook.{run-no_book}
use cpp_exchange.Exchange.Routing.{Routed, process_request-Routed, add_ticker-new}

-- Four slots, of which one holds 5, with the next write at the last slot.
abbrev queue : LfQueue ℕ
queue = record { slots = λ i. i + 3; size = 4; next_write_index = 3; next_read_index = 2 }

queue-IsValid : Fifo.IsValid queue
queue-IsValid = record { write_in = omega arith; read_in = omega arith }

contents-push_all_example : contents (push_all queue (8 ∷ 9 ∷ [])) ≡ 5 ∷ 8 ∷ 9 ∷ []
contents-push_all_example = contents-push_all queue (8 ∷ 9 ∷ []) queue-IsValid (omega arith)

pop-cons_example :
    ((pop queue).0 ≡ some 2)
    × (deref (pop queue).1 2 ≡ 5)
    × (contents (pop queue).1 ≡ [])
    × Fifo.IsValid (pop queue).1
pop-cons_example = pop-cons queue 5 [] queue-IsValid refl

deref_after_pushes_example : deref (push_all (pop queue).1 (7 ∷ 8 ∷ 9 ∷ [])) 2 ≡ 5
deref_after_pushes_example =
    deref_after_pushes queue 5 [] (7 ∷ 8 ∷ 9 ∷ []) queue-IsValid refl (omega arith)

-- Three items in four slots: one more, and all are lost.
abbrev almost_full : LfQueue ℕ
almost_full = record { slots = λ i. i; size = 4; next_write_index = 1; next_read_index = 2 }

push_full_loses_all_example :
    (contents (push almost_full 7) ≡ []) × (pop (push almost_full 7) ≡ (none, push almost_full 7))
push_full_loses_all_example =
    push_full_loses_all almost_full 7 (record { write_in = omega arith; read_in = omega arith })
      refl

abbrev block : ℕ → Bool → ObjectBlock ℕ
block v free = record { object = v; available = free }

-- Three blocks, the middle one handed out.
abbrev pool : ObjectPool ℕ
pool = record {
  store = λ i. elim i [
    | zero ↦ block 7 true
    | suc j ↦ elim j [ zero ↦ block 8 false | suc k ↦ block 9 true ]
  ];
  size = 3;
  next_free = 0;
}

pool-IsValid : Laws.IsValid pool
pool-IsValid = record { next_in = omega arith; next_available = refl }

get_object-Taken_example :
    (p' : ObjectPool ℕ) × (get_object pool 5 ≡ ok (0, p')) × Taken pool 5 0 p'
get_object-Taken_example = get_object-Taken pool 5 pool-IsValid (omega arith)

-- Two blocks, of which only the next is available.
abbrev short_pool : ObjectPool ℕ
short_pool = record {
  store = λ i. elim i [ zero ↦ block 7 true | suc j ↦ block 8 false ];
  size = 2;
  next_free = 0;
}

get_object_last_example : get_object short_pool 5 ≡ exited
get_object_last_example =
    get_object_last short_pool 5 (record { next_in = omega arith; next_available = refl }) refl

release_object_lem_example :
    (p' : ObjectPool ℕ) × (release_object pool 1 ≡ ok p')
    × (p'.store 1 ≡ block 8 true)
    × ((j : ℕ) → j ≢ 1 → p'.store j ≡ pool.store j)
    × (free_count p' ≡ 3)
    × Laws.IsValid p'
release_object_lem_example = release_object_lem pool 1 pool-IsValid (omega arith) refl

abbrev request : RequestType → ℕ → ClientRequest
request type client = record {
  type = type;
  ticker_id = 3;
  client_id = client;
  order_id = 1;
  side = OrderSide.buy;
  quantity = 10;
  limit_price = 5;
}

abbrev request_queue : LfQueue ClientRequest
request_queue = record {
  slots = λ _. request RequestType.invalid 0;
  size = 8;
  next_write_index = 0;
  next_read_index = 0;
}

request_queue-IsValid : Fifo.IsValid request_queue
request_queue-IsValid = record { write_in = omega arith; read_in = omega arith }

abbrev entry : ℕ → ReceiveTimeClientRequest
entry client = record { receive_timestamp = client; request = request RequestType.add client }

-- Two requests, the later first.
abbrev sequencer : FifoSequencer
sequencer = record {
  requests = request_queue;
  pending_requests = λ i. elim i [ zero ↦ entry 3 | suc j ↦ entry 2 ];
  pending_requests_index = 2;
}

pending-add_request_example :
    (s' : FifoSequencer) × (add_request sequencer (request RequestType.add 9) 9 ≡ ok s')
    × (pending s' ≡ pending sequencer ++ (entry 9 ∷ []))
    × (s'.requests ≡ request_queue)
pending-add_request_example =
    pending-add_request sequencer (request RequestType.add 9) 9 (omega arith)

sequence_and_publish_lem_example :
    let s' = sequence_and_publish sort sequencer in
    (l : List ReceiveTimeClientRequest) × Perm l (entry 3 ∷ entry 2 ∷ [])
    × Ascending l
    × (contents s'.requests ≡ map ReceiveTimeClientRequest.request l)
    × (pending s' ≡ [])
    × Fifo.IsValid s'.requests
sequence_and_publish_lem_example =
    sequence_and_publish_lem sort sort-Sorts sequencer request_queue-IsValid (omega arith)

publishes_in_order :
    contents (sequence_and_publish sort sequencer).requests
    ≡ request RequestType.add 2 ∷ request RequestType.add 3 ∷ []
unfolding sequence_and_publish sort push earlier
publishes_in_order = refl

abbrev exchange : Exchange
exchange = record {
  next_order_id = 1;
  next_trade_id = 1;
  order_books_map = [];
  client_request_queue = request_queue;
  client_response_queue = record {
    slots = λ _. make_response ResponseType.invalid 0 0 0 OrderSide.invalid 0 0 0;
    size = 8;
    next_write_index = 0;
    next_read_index = 0;
  };
  market_update_queue = record {
    slots = λ _. make_update UpdateType.invalid 0 0 0 OrderSide.invalid 0 0 0;
    size = 8;
    next_write_index = 0;
    next_read_index = 0;
  };
  clock = λ n. n;
  clock_reads = 0;
}

add_ticker-new_example :
    (e' : Exchange) × (add_ticker exchange 3 ≡ ok e')
    × (find_book e'.order_books_map 3 ≡ some (State.create 3))
    × (length e'.order_books_map ≡ 1)
    × ((u : ℕ) → u ≢ 3 → find_book e'.order_books_map u ≡ find_book [] u)
unfolding contains
add_ticker-new_example = add_ticker-new exchange 3 (omega arith) refl

-- The exchange with an empty book for ticker 3, and after a `cancel` that meets no order.
abbrev open_exchange : Exchange
open_exchange = record exchange { order_books_map = (3, some (State.create 3)) ∷ [] }

abbrev or_else : Outcome Exchange → Exchange
or_else (ok e) = e
or_else exited = exchange
or_else undefined = exchange
or_else out_of_fuel = exchange

process_request-Routed_example :
    Routed open_exchange
      (request RequestType.cancel 9)
      (or_else (process_request open_exchange (request RequestType.cancel 9)))
unfolding process_request dispatch cancel_order find_book on_book Entry.cancel Entry.report_cancel
    get_price_level get_price_level_index State.create State.now State.respond
process_request-Routed_example =
    process_request-Routed open_exchange
      (or_else (process_request open_exchange (request RequestType.cancel 9)))
      (request RequestType.cancel 9) refl

-- A cancel of an unknown order and a request of no type, and a round that finds nothing.
abbrev requests : List ClientRequest
requests = request RequestType.cancel 3 ∷ request RequestType.invalid 3 ∷ []

abbrev busy : Exchange
busy =
    with_requests
      (record {
        slots = λ i. elim i [
          | zero ↦ request RequestType.cancel 3
          | suc j ↦ request RequestType.invalid 3
        ];
        size = 4;
        next_write_index = 2;
        next_read_index = 0;
      })
      open_exchange

run-process_all_example :
    (run 3 busy ≡ (
      process_all busy requests >>= λ e.
      ok (with_requests (drained 3 busy.client_request_queue) e)))
    × (contents (drained 3 busy.client_request_queue) ≡ [])
run-process_all_example =
    run-process_all 3 busy requests (record { write_in = omega arith; read_in = omega arith }) refl
      (omega arith)

-- The second request names the ticker 4, which has no book.
abbrev stray : ClientRequest
stray = record (request RequestType.cancel 3) { ticker_id = 4 }

abbrev astray : Exchange
astray =
    with_requests
      (record {
        slots = λ i. elim i [ zero ↦ request RequestType.cancel 3 | suc j ↦ stray ];
        size = 4;
        next_write_index = 2;
        next_read_index = 0;
      })
      open_exchange

run-no_book_example :
    run 2 astray ≡ (process_all astray (request RequestType.cancel 3 ∷ []) >>= λ _. undefined)
unfolding find_book
run-no_book_example =
    run-no_book 2 astray (request RequestType.cancel 3 ∷ []) stray []
      (record { write_in = omega arith; read_in = omega arith }) refl (λ e. cc e) refl (omega arith)
