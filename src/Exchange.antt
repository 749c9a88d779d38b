-- ===== src/Exchange.antt =====
-- The class `Exchange` of include/cppexchange/cppexchange.h: order books by ticker, and requests
-- taken one by one from a queue.
pub mod Routing
pub mod Running
pub mod NoBook
use cpp_exchange.Prelude.{
  ℕ, zero, suc, ◌+◌, ◌%◌, Bool, true, false, not, Option, none, some, List, [], ◌∷◌, ◌==◌,
  if◌then◌else◌, length,
}
use cpp_exchange.Outcome.{Outcome, ok, undefined, ◌>>=◌, ◌>>◌, assert}
use cpp_exchange.Types.{u32_mod, max_tickers}
use cpp_exchange.LfQueue
use cpp_exchange.LfQueue.{LfQueue}
use cpp_exchange.Order.{OrderSide}
use cpp_exchange.Messages.{RequestType, ClientRequest, ClientResponse, MarketUpdate}
use cpp_exchange.OrderBook.State
use cpp_exchange.OrderBook.State.{OrderBook, World, Cmd}
use cpp_exchange.OrderBook.Entry

-- `order_books_map`: keys with pointers to books, `none` for nullptr. A book is reached through
-- its one entry only.
abbrev pub BookMap : Type 0
BookMap = List (ℕ × Option OrderBook)

unfoldable pub contains : BookMap → ℕ → Bool
contains [] ticker_id = false
contains ((t, b) ∷ m) ticker_id = if t == ticker_id then true else contains m ticker_id

-- The value that `order_books_map[ticker_id]` leads to; `operator[]` puts nullptr at a missing key.
unfoldable pub find_book : BookMap → ℕ → Option OrderBook
find_book [] ticker_id = none
find_book ((t, b) ∷ m) ticker_id = if t == ticker_id then b else find_book m ticker_id

-- `order_books_map[ticker_id] = b`
unfoldable pub store_book : BookMap → ℕ → OrderBook → BookMap
store_book [] ticker_id b = (ticker_id, some b) ∷ []
store_book ((t, c) ∷ m) ticker_id b =
    if t == ticker_id then (t, some b) ∷ m else (t, c) ∷ store_book m ticker_id b

pub record Exchange : Type 0 where
  pub next_order_id : ℕ
  pub next_trade_id : ℕ
  pub order_books_map : BookMap
  pub client_request_queue : LfQueue ClientRequest
  pub client_response_queue : LfQueue ClientResponse
  pub market_update_queue : LfQueue MarketUpdate
  pub clock : ℕ → ℕ
  pub clock_reads : ℕ

-- What a method of the book `b` reaches, and the exchange after the method has run.
abbrev pub world_of : Exchange → OrderBook → World
world_of e b = record {
  book = b;
  client_response_queue = e.client_response_queue;
  market_update_queue = e.market_update_queue;
  next_trade_id = e.next_trade_id;
  clock = e.clock;
  clock_reads = e.clock_reads;
}

abbrev pub after_book : Exchange → ℕ → World → Exchange
after_book e ticker_id w = record e {
  next_trade_id = w.next_trade_id;
  order_books_map = store_book e.order_books_map ticker_id w.book;
  client_response_queue = w.client_response_queue;
  market_update_queue = w.market_update_queue;
  clock_reads = w.clock_reads;
}

-- A call of a method through the pointer that the map has for the ticker.
unfoldable pub on_book : Exchange → ℕ → Option OrderBook → Cmd (Unit {0}) → Outcome Exchange
on_book e ticker_id none call = undefined
on_book e ticker_id (some b) call = do r ← call (world_of e b); ok (after_book e ticker_id r.1)

unfoldable pub add_ticker : Exchange → ℕ → Outcome Exchange
add_ticker e ticker_id = do
  assert (not (length e.order_books_map == max_tickers))
  let books = store_book e.order_books_map ticker_id (State.create ticker_id)
  if contains e.order_books_map ticker_id then ok e else ok (record e { order_books_map = books })

unfoldable pub add_tickers : Exchange → List ℕ → Outcome Exchange
add_tickers e [] = ok e
add_tickers e (t ∷ ts) = do e' ← add_ticker e t; add_tickers e' ts

-- The constructor.
unfoldable pub create :
    LfQueue ClientRequest
    → LfQueue ClientResponse
    → LfQueue MarketUpdate
    → (clock : ℕ → ℕ) → List ℕ
    → Outcome Exchange
unfolding add_tickers
create requests responses updates clock ticker_ids =
    add_tickers
      (record {
        next_order_id = 1;
        next_trade_id = 1;
        order_books_map = [];
        client_request_queue = requests;
        client_response_queue = responses;
        market_update_queue = updates;
        clock = clock;
        clock_reads = 0;
      })
      ticker_ids

-- next_order_id++
unfoldable pub get_next_order_id : Exchange → ℕ × Exchange
get_next_order_id e =
    (e.next_order_id, record e { next_order_id = (e.next_order_id + 1) % u32_mod })

unfoldable pub add_order :
    Exchange → (ticker_id client_id : ℕ) → OrderSide → (quantity limit_price : ℕ) → Outcome Exchange
unfolding get_next_order_id
add_order e ticker_id client_id side quantity limit_price =
    let (order_id, e') = get_next_order_id e in
    on_book e' ticker_id (find_book e.order_books_map ticker_id)
      (Entry.add order_id client_id side quantity limit_price)

unfoldable pub cancel_order :
    Exchange → (ticker_id client_id order_id : ℕ) → OrderSide → (limit_price : ℕ) → Outcome Exchange
cancel_order e ticker_id client_id order_id side limit_price =
    on_book e ticker_id (find_book e.order_books_map ticker_id)
      (Entry.cancel client_id order_id side limit_price)

-- The switch of `processRequest` on the request's type.
unfoldable pub dispatch : RequestType → Exchange → ClientRequest → Outcome Exchange
dispatch RequestType.invalid e r = ok e
dispatch RequestType.add e r = add_order e r.ticker_id r.client_id r.side r.quantity r.limit_price
dispatch RequestType.cancel e r =
    cancel_order e r.ticker_id r.client_id r.order_id r.side r.limit_price

unfoldable pub process_request : Exchange → ClientRequest → Outcome Exchange
unfolding dispatch
process_request e r = dispatch r.type e r

-- One round of the loop of `run`.
unfoldable pub run_round : Exchange → Outcome Exchange
unfolding process_request
run_round e =
    let (request, q) = LfQueue.pop e.client_request_queue in
    let e' = record e { client_request_queue = q } in
    elim request [ none ↦ ok e' | some i ↦ process_request e' (LfQueue.deref q i) ]

-- The loop of `run`, while `running` holds for `n` rounds.
unfoldable pub run : ℕ → Exchange → Outcome Exchange
unfolding run_round
run zero e = ok e
run (suc n) e = do e' ← run_round e; run n e'
