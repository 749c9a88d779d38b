-- ===== src/Exchange/NoBook.antt =====
-- cppexchange/cppexchange.h: the loop of `run` where a request names a ticker that has no book.
use native.Mathlib.Decide.{ℕ_discrete}
use cpp_exchange.Prelude.{
  ℕ, ◌≤◌, ◌≡◌, ◌≢◌, refl, sym, ap, ◌∙◌, subst, none, List, [], ◌∷◌, ◌++◌, length,
}
use cpp_exchange.Outcome.{Outcome, ok, exited, undefined, out_of_fuel, ◌>>=◌}
use cpp_exchange.LfQueue.Fifo.{IsValid, contents}
use cpp_exchange.Messages.{RequestType, ClientRequest}
use cpp_exchange.Exchange.{Exchange, find_book, process_request, dispatch, run}
use cpp_exchange.Exchange.Routing.{
  process_request-Routed, process_request-no_book, dispatch-no_book,
}
use cpp_exchange.Exchange.Running.{process_all, bind_assoc, run-process_all, drained, with_requests}

-- The exchange has no book for the ticker.
abbrev NoBook : Exchange → ℕ → Type 0
NoBook e t = find_book e.order_books_map t ≡ none

-- A request for the ticker itself that the exchange survives is invalid, and ignored.
dispatch-NoBook :
    (k : RequestType) (e e' : Exchange) (s : ClientRequest)
    → NoBook e s.ticker_id
    → dispatch k e s ≡ ok e'
    → NoBook e' s.ticker_id
unfolding dispatch
dispatch-NoBook RequestType.invalid e e' s missing h =
    let same : e' ≡ e = cc h in
    ap (λ (x : Exchange). find_book x.order_books_map s.ticker_id) same ∙ missing
dispatch-NoBook RequestType.add e e' s missing h =
    cc (sym h ∙ dispatch-no_book RequestType.add e s (λ same. cc) missing)
dispatch-NoBook RequestType.cancel e e' s missing h =
    cc (sym h ∙ dispatch-no_book RequestType.cancel e s (λ same. cc) missing)

-- No request makes a book.
process_request-NoBook :
    (e e' : Exchange) (s : ClientRequest) (t : ℕ)
    → NoBook e t
    → process_request e s ≡ ok e'
    → NoBook e' t
unfolding process_request
process_request-NoBook e e' s t missing h = elim (ℕ_discrete t s.ticker_id) [
  | yes same ↦
      subst (NoBook e') (sym same) (dispatch-NoBook s.type e e' s (subst (NoBook e) same missing) h)
  | no other ↦ (process_request-Routed e e' s h).others t other ∙ missing
]

bind_same_ok :
    {A B : Type 0} (o : Outcome A) (f g : A → Outcome B)
    → ((a : A) → o ≡ ok a → f a ≡ g a)
    → (o >>= f) ≡ (o >>= g)
bind_same_ok (ok a) f g k = k a refl
bind_same_ok exited f g k = refl
bind_same_ok undefined f g k = refl
bind_same_ok out_of_fuel f g k = refl

process_all-NoBook :
    (e : Exchange) (rs : List ClientRequest) (r : ClientRequest) (rest : List ClientRequest)
    → r.type ≢ RequestType.invalid
    → NoBook e r.ticker_id
    → process_all e (rs ++ r ∷ rest) ≡ (process_all e rs >>= λ _. undefined)
process_all-NoBook e [] r rest valid missing =
    ap (λ o. o >>= λ x. process_all x rest) (process_request-no_book e r valid missing)
process_all-NoBook e (s ∷ rs) r rest valid missing =
    bind_same_ok (process_request e s) (λ x. process_all x (rs ++ r ∷ rest))
      (λ x. process_all x rs >>= λ _. undefined)
      (λ x ran.
        process_all-NoBook x rs r rest valid (process_request-NoBook e x s r.ticker_id missing ran))
    ∙ sym (bind_assoc (process_request e s) (λ x. process_all x rs) (λ _. undefined))

-- If the exchange has no book for the ticker of a request to add or to cancel that waits in its
-- valid queue, at whatever place, then a run of as many rounds as requests wait, or of more, does
-- what the calls of `processRequest` for the requests before it do, in order, and then, if they
-- return, follows a null pointer: none of them makes the book.
pub run-no_book :
    (n : ℕ) (e : Exchange) (rs : List ClientRequest) (r : ClientRequest) (rest : List ClientRequest)
    → IsValid e.client_request_queue
    → contents e.client_request_queue ≡ rs ++ r ∷ rest
    → r.type ≢ RequestType.invalid
    → find_book e.order_books_map r.ticker_id ≡ none
    → length (rs ++ r ∷ rest) ≤ n
    → run n e ≡ (process_all e rs >>= λ _. undefined)
run-no_book n e rs r rest v waits valid missing enough =
    let finish : Exchange → Outcome Exchange =
      λ x. ok (with_requests (drained n e.client_request_queue) x) in
    (run-process_all n e (rs ++ r ∷ rest) v waits enough).0
    ∙ ap (λ o. o >>= finish) (process_all-NoBook e rs r rest valid missing)
    ∙ bind_assoc (process_all e rs) (λ _. undefined) finish
