-- ===== src/Exchange/Running.antt =====
-- cppexchange/cppexchange.h: the loop of `run` on a queue of requests.
use cpp_exchange.Prelude.{
  ℕ, zero, suc, ◌≤◌, ◌≡◌, refl, sym, ap, ◌∙◌, Option, none, some, List, [], ◌∷◌, arith, length,
}
use cpp_exchange.Outcome.{Outcome, ok, exited, undefined, out_of_fuel, ◌>>=◌}
use cpp_exchange.LfQueue.{LfQueue, pop, deref}
use cpp_exchange.LfQueue.Fifo.{IsValid, contents, pop-nil, pop-cons}
use cpp_exchange.Messages.{RequestType, ClientRequest}
use cpp_exchange.OrderBook.State.{OrderBook, Cmd}
use cpp_exchange.OrderBook.Entry
use cpp_exchange.Exchange.{
  Exchange, find_book, world_of, after_book, on_book, add_order, cancel_order, dispatch,
  process_request, get_next_order_id, run_round, run,
}

-- The exchange with another queue of requests.
abbrev pub with_requests : LfQueue ClientRequest → Exchange → Exchange
with_requests q e = record e { client_request_queue = q }

-- A queue after `n` pops.
abbrev pub drained : ℕ → LfQueue ClientRequest → LfQueue ClientRequest
drained zero q = q
drained (suc n) q = drained n (pop q).1

-- The requests one by one, as calls of `processRequest` in order.
abbrev pub process_all : Exchange → List ClientRequest → Outcome Exchange
process_all e [] = ok e
process_all e (r ∷ rs) = process_request e r >>= λ e'. process_all e' rs

pub bind_assoc :
    {A B C : Type 0} (o : Outcome A) (f : A → Outcome B) (g : B → Outcome C)
    → ((o >>= f) >>= g) ≡ (o >>= λ a. f a >>= g)
bind_assoc (ok a) f g = refl
bind_assoc exited f g = refl
bind_assoc undefined f g = refl
bind_assoc out_of_fuel f g = refl

bind_same :
    {A B : Type 0} (o : Outcome A) (f g : A → Outcome B)
    → ((a : A) → f a ≡ g a)
    → (o >>= f) ≡ (o >>= g)
bind_same (ok a) f g k = k a
bind_same exited f g k = refl
bind_same undefined f g k = refl
bind_same out_of_fuel f g k = refl

module _ (q : LfQueue ClientRequest) where
  on_book-with_requests :
      (e : Exchange) (t : ℕ) (o : Option OrderBook) (call : Cmd (Unit {0}))
      → on_book (with_requests q e) t o call
        ≡ (on_book e t o call >>= λ e'. ok (with_requests q e'))
  unfolding on_book
  on_book-with_requests e t none call = refl
  on_book-with_requests e t (some b) call = sym (
      bind_assoc (call (world_of e b)) (λ r. ok (after_book e t r.1))
        (λ e'. ok (with_requests q e')))

  dispatch-with_requests :
      (k : RequestType) (e : Exchange) (r : ClientRequest)
      → dispatch k (with_requests q e) r ≡ (dispatch k e r >>= λ e'. ok (with_requests q e'))
  unfolding dispatch add_order cancel_order get_next_order_id
  dispatch-with_requests RequestType.invalid e r = refl
  dispatch-with_requests RequestType.add e r =
      on_book-with_requests (get_next_order_id e).1 r.ticker_id
        (find_book e.order_books_map r.ticker_id)
        (Entry.add e.next_order_id r.client_id r.side r.quantity r.limit_price)
  dispatch-with_requests RequestType.cancel e r =
      on_book-with_requests e r.ticker_id (find_book e.order_books_map r.ticker_id)
        (Entry.cancel r.client_id r.order_id r.side r.limit_price)

  -- What a request does has nothing to do with the requests that wait.
  process_request-with_requests :
      (e : Exchange) (r : ClientRequest)
      → process_request (with_requests q e) r
        ≡ (process_request e r >>= λ e'. ok (with_requests q e'))
  unfolding process_request
  process_request-with_requests e r = dispatch-with_requests r.type e r

  process_all-with_requests :
      (e : Exchange) (rs : List ClientRequest)
      → process_all (with_requests q e) rs ≡ (process_all e rs >>= λ e'. ok (with_requests q e'))
  process_all-with_requests e [] = refl
  process_all-with_requests e (r ∷ rs) =
      ap (λ o. o >>= λ e'. process_all e' rs) (process_request-with_requests e r)
      ∙ bind_assoc (process_request e r) (λ e'. ok (with_requests q e')) (λ e'. process_all e' rs)
      ∙ bind_same (process_request e r) (λ e'. process_all (with_requests q e') rs)
          (λ e'. process_all e' rs >>= λ e''. ok (with_requests q e''))
          (λ e'. process_all-with_requests e' rs)
      ∙ sym (
          bind_assoc (process_request e r) (λ e'. process_all e' rs)
            (λ e'. ok (with_requests q e')))

run_round-nil :
    (e : Exchange)
    → IsValid e.client_request_queue
    → contents e.client_request_queue ≡ []
    → run_round e ≡ ok e
unfolding run_round
run_round-nil e v none_waits =
    ap
      (λ (p : Option ℕ × LfQueue ClientRequest). elim p.0 [
        | none ↦ ok (with_requests p.1 e)
        | some i ↦ process_request (with_requests p.1 e) (deref p.1 i)
      ])
      (pop-nil e.client_request_queue v none_waits)

run_round-cons :
    (e : Exchange) (r : ClientRequest) (rs : List ClientRequest)
    → IsValid e.client_request_queue
    → contents e.client_request_queue ≡ r ∷ rs
    → run_round e
      ≡ (process_request e r >>= λ e'. ok (with_requests (pop e.client_request_queue).1 e'))
unfolding run_round
run_round-cons e r rs v waits =
    let q = e.client_request_queue in
    let (popped, first, _, _) = pop-cons q r rs v waits in
    ap
      (λ (o : Option ℕ). elim o [
        | none ↦ ok (with_requests (pop q).1 e)
        | some i ↦ process_request (with_requests (pop q).1 e) (deref (pop q).1 i)
      ])
      popped
    ∙ ap (process_request (with_requests (pop q).1 e)) first
    ∙ process_request-with_requests (pop q).1 e r

-- On a valid queue, a run of the loop for at least as many rounds as there are requests does the
-- same as the calls of `processRequest` for the requests, in order, and ends as they do; after it
-- no request waits.
pub run-process_all :
    (n : ℕ) (e : Exchange) (rs : List ClientRequest)
    → IsValid e.client_request_queue
    → contents e.client_request_queue ≡ rs
    → length rs ≤ n
    → (run n e
        ≡ (process_all e rs >>= λ e'. ok (with_requests (drained n e.client_request_queue) e')))
      × (contents (drained n e.client_request_queue) ≡ [])
unfolding run
run-process_all zero e [] v waits enough = (refl, waits)
run-process_all zero e (r ∷ rs) v waits enough = absurd (omega arith)
run-process_all (suc n) e [] v waits enough =
    let q = e.client_request_queue in
    let stays : (pop q).1 ≡ q =
      ap (λ (p : Option ℕ × LfQueue ClientRequest). p.1) (pop-nil q v waits) in
    let (ran, empty) = run-process_all n e [] v waits (omega arith) in
    (
      ap (λ o. o >>= run n) (run_round-nil e v waits)
          ∙ ran
          ∙ ap (λ k. ok (with_requests (drained n k) e)) (sym stays),
      ap (λ k. contents (drained n k)) stays ∙ empty,
    )
run-process_all (suc n) e (r ∷ rs) v waits enough =
    let q = e.client_request_queue in
    let q' = (pop q).1 in
    let (_, _, rest, v') = pop-cons q r rs v waits in
    let go = λ (e' : Exchange). run-process_all n (with_requests q' e') rs v' rest (omega arith) in
    (
      ap (λ o. o >>= run n) (run_round-cons e r rs v waits)
          ∙ bind_assoc (process_request e r) (λ e'. ok (with_requests q' e')) (run n)
          ∙ bind_same (process_request e r) (λ e'. run n (with_requests q' e'))
              (λ e'. process_all e' rs >>= λ e''. ok (with_requests (drained n q') e''))
              (λ e'.
                (go e').0
                ∙ ap (λ o. o >>= λ e''. ok (with_requests (drained n q') e''))
                    (process_all-with_requests q' e' rs)
                ∙ bind_assoc (process_all e' rs) (λ e''. ok (with_requests q' e''))
                    (λ e''. ok (with_requests (drained n q') e'')))
          ∙ sym (
              bind_assoc (process_request e r) (λ e'. process_all e' rs)
                (λ e''. ok (with_requests (drained n q') e''))),
      (go e).1,
    )
