-- ===== src/Exchange/Routing.antt =====
-- cppexchange/cppexchange.h: requests reach the book of their ticker and no other.
use cpp_exchange.Prelude.{
  ℕ, ◌+◌, ◌%◌, ◌≡◌, ◌≢◌, refl, ap, ◌∙◌, arith, true, false, Option, none, some, [], ◌∷◌, length,
}
use cpp_exchange.Outcome.{ok, undefined, ok-parts}
use cpp_exchange.Types.{u32_mod, max_tickers}
use cpp_exchange.Messages.{RequestType, ClientRequest}
use cpp_exchange.OrderBook.State
use cpp_exchange.OrderBook.State.{OrderBook, World, Cmd}
use cpp_exchange.OrderBook.Entry
use cpp_exchange.Exchange.{
  BookMap, contains, find_book, store_book, Exchange, world_of, after_book, on_book, add_ticker,
  add_order, cancel_order, process_request, dispatch,
}

pub find_book-store_book_self :
    (m : BookMap) (t : ℕ) (b : OrderBook) → find_book (store_book m t b) t ≡ some b
unfolding find_book store_book
find_book-store_book_self [] t b = ground arith
find_book-store_book_self ((k, c) ∷ m) t b = ground (arith, find_book-store_book_self m t b)

pub find_book-store_book_ne :
    (m : BookMap) (t u : ℕ) (b : OrderBook) → u ≢ t → find_book (store_book m t b) u ≡ find_book m u
unfolding find_book store_book
find_book-store_book_ne [] t u b ne = ground arith
find_book-store_book_ne ((k, c) ∷ m) t u b ne = ground (arith, find_book-store_book_ne m t u b ne)

contains-store_book : (m : BookMap) (t : ℕ) (b : OrderBook) → contains (store_book m t b) t ≡ true
unfolding contains store_book
contains-store_book [] t b = ground arith
contains-store_book ((k, c) ∷ m) t b = ground (arith, contains-store_book m t b)

length-store_book :
    (m : BookMap) (t : ℕ) (b : OrderBook)
    → contains m t ≡ true
    → length (store_book m t b) ≡ length m
unfolding contains store_book
length-store_book [] t b h = cc h
length-store_book ((k, c) ∷ m) t b h = ground (arith, length-store_book m t b)

length-store_book_new :
    (m : BookMap) (t : ℕ) (b : OrderBook)
    → contains m t ≡ false
    → length (store_book m t b) ≡ length m + 1
unfolding contains store_book
length-store_book_new [] t b h = omega arith
length-store_book_new ((k, c) ∷ m) t b h = ground (arith, length-store_book_new m t b)

-- What is left of a call that returned.
abbrev pub Called : Exchange → Option OrderBook → ℕ → Cmd (Unit {0}) → Exchange → Type 0
Called e o t call e' =
    (b : OrderBook) × (w : World) × (o ≡ some b)
    × (call (world_of e b) ≡ ok (tt, w))
    × (e' ≡ after_book e t w)

-- A call that returned was made through a pointer to a book, and the book is put back.
on_book-Called :
    (e e' : Exchange) (t : ℕ) (call : Cmd (Unit {0})) (o : Option OrderBook)
    → on_book e t o call ≡ ok e'
    → Called e o t call e'
unfolding on_book
on_book-Called e e' t call none h = cc h
on_book-Called e e' t call (some b) h =
    let (r, ran, done) =
      ok-parts (λ (k : Unit {0} × World). ok (after_book e t k.1)) (call (world_of e b)) h in
    (b, r.1, refl, ran, cc done)

-- The effect of a request on the part of the exchange outside the books, and on the books: only
-- the book of the request's ticker can differ, and the counter of orders goes on by one for an
-- `add` and stays for any other request.
pub record Routed (e : Exchange) (r : ClientRequest) (e' : Exchange) : Type 0 where
  pub others :
      (u : ℕ) → u ≢ r.ticker_id → find_book e'.order_books_map u ≡ find_book e.order_books_map u
  pub counted :
      e'.next_order_id
      ≡ (elim r.type [ RequestType.add ↦ (e.next_order_id + 1) % u32_mod | _ ↦ e.next_order_id ])
  pub requests_same : e'.client_request_queue ≡ e.client_request_queue

routed_of_type :
    (k : RequestType) (e e' : Exchange) (r : ClientRequest)
    → dispatch k e r ≡ ok e'
    → ((u : ℕ) → u ≢ r.ticker_id → find_book e'.order_books_map u ≡ find_book e.order_books_map u)
      × (e'.next_order_id
          ≡ (elim k [ RequestType.add ↦ (e.next_order_id + 1) % u32_mod | _ ↦ e.next_order_id ]))
      × (e'.client_request_queue ≡ e.client_request_queue)
unfolding dispatch add_order cancel_order
routed_of_type RequestType.invalid e e' r h =
    let same : e' ≡ e = cc h in
    (
      λ u ne. ap (λ (x : Exchange). find_book x.order_books_map u) same,
      ap Exchange.next_order_id same,
      ap Exchange.client_request_queue same,
    )
routed_of_type RequestType.add e e' r h =
    let e1 : Exchange = record e { next_order_id = (e.next_order_id + 1) % u32_mod } in
    let (b, w, found, ran, same) =
      on_book-Called e1 e' r.ticker_id
        (Entry.add e.next_order_id r.client_id r.side r.quantity r.limit_price)
        (find_book e.order_books_map r.ticker_id) h in
    (
      λ u ne.
          ap (λ (x : Exchange). find_book x.order_books_map u) same
          ∙ find_book-store_book_ne e.order_books_map r.ticker_id u w.book ne,
      ap Exchange.next_order_id same,
      ap Exchange.client_request_queue same,
    )
routed_of_type RequestType.cancel e e' r h =
    let (b, w, found, ran, same) =
      on_book-Called e e' r.ticker_id (Entry.cancel r.client_id r.order_id r.side r.limit_price)
        (find_book e.order_books_map r.ticker_id) h in
    (
      λ u ne.
          ap (λ (x : Exchange). find_book x.order_books_map u) same
          ∙ find_book-store_book_ne e.order_books_map r.ticker_id u w.book ne,
      ap Exchange.next_order_id same,
      ap Exchange.client_request_queue same,
    )

-- Every request that the exchange survives touches the book of its ticker only, and counts one
-- order if it is an `add` and none otherwise.
pub process_request-Routed :
    (e e' : Exchange) (r : ClientRequest) → process_request e r ≡ ok e' → Routed e r e'
unfolding process_request
process_request-Routed e e' r h =
    let (others, counted, same) = routed_of_type r.type e e' r h in
    record { others = others; counted = counted; requests_same = same }

pub dispatch-no_book :
    (k : RequestType) (e : Exchange) (r : ClientRequest)
    → k ≢ RequestType.invalid
    → find_book e.order_books_map r.ticker_id ≡ none
    → dispatch k e r ≡ undefined
unfolding dispatch add_order cancel_order on_book
dispatch-no_book RequestType.invalid e r ne missing = absurd (ne refl)
dispatch-no_book RequestType.add e r ne missing = rw missing
dispatch-no_book RequestType.cancel e r ne missing = rw missing

-- A request to add or to cancel an order at a ticker with no book is undefined: the exchange
-- follows a null pointer.
pub process_request-no_book :
    (e : Exchange) (r : ClientRequest)
    → r.type ≢ RequestType.invalid
    → find_book e.order_books_map r.ticker_id ≡ none
    → process_request e r ≡ undefined
unfolding process_request
process_request-no_book e r ne missing = dispatch-no_book r.type e r ne missing

-- With fewer tickers than the limit, `addTicker` of a new ticker gives it an empty book, counts it,
-- and leaves the books of all other tickers alone.
pub add_ticker-new :
    (e : Exchange) (t : ℕ)
    → length e.order_books_map ≢ max_tickers
    → contains e.order_books_map t ≡ false
    → (e' : Exchange) × (add_ticker e t ≡ ok e')
      × (find_book e'.order_books_map t ≡ some (State.create t))
      × (length e'.order_books_map ≡ length e.order_books_map + 1)
      × ((u : ℕ) → u ≢ t → find_book e'.order_books_map u ≡ find_book e.order_books_map u)
unfolding add_ticker
add_ticker-new e t room new =
    let m = store_book e.order_books_map t (State.create t) in
    (
      record e { order_books_map = m },
      ground arith,
      find_book-store_book_self e.order_books_map t (State.create t),
      length-store_book_new e.order_books_map t (State.create t) new,
      λ u ne. find_book-store_book_ne e.order_books_map t u (State.create t) ne,
    )
