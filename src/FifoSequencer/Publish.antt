-- ===== src/FifoSequencer/Publish.antt =====
-- communication/fifo_sequencer.h: what the matching engine receives of the requests collected.
use mathlib.Core.List.{Perm, Permᴰ}
use mathlib.Core.Logic.{∥∥₁_elim}
use native.Mathlib.Nat.{ℕ_set}
use native.Mathlib.Numerals.{add-one}
use cpp_exchange.Prelude.{
  length-map, subst, ℕ, zero, suc, ◌+◌, ◌≤◌, ◌<◌, ◌≡◌, refl, sym, ap, ap₂, ◌∙◌, List, [], ◌∷◌, ◌++◌,
  map, arith, update, update_self, update_ne, length, All, Bool, true, false,
}
use cpp_exchange.Outcome.{ok, exited}
use cpp_exchange.LfQueue.{LfQueue, push_all, push}
use cpp_exchange.LfQueue.Fifo.{IsValid, count, contents, contents-push_all, push_all-IsValid}
use cpp_exchange.Messages.{ClientRequest}
use cpp_exchange.FifoSequencer.{
  ReceiveTimeClientRequest, FifoSequencer, max_pending_requests, add_request, entries,
  write_entries, publish_from, sequence_and_publish, earlier,
}

-- What is waiting, in the order of arrival.
abbrev pub pending : FifoSequencer → List ReceiveTimeClientRequest
pending s = entries s.pending_requests 0 s.pending_requests_index

-- No later entry has an earlier time.
abbrev pub Ascending : List ReceiveTimeClientRequest → Type 0
Ascending [] = Unit {0}
Ascending (x ∷ xs) =
    All (λ (y : ReceiveTimeClientRequest). x.receive_timestamp ≤ y.receive_timestamp) xs
    × Ascending xs

abbrev pub Comparison : Type 0
Comparison = ReceiveTimeClientRequest → ReceiveTimeClientRequest → Bool

-- What std::sort asks of a comparison.
pub record IsStrictWeakOrder (less : Comparison) : Type 0 where
  pub asymmetric : (x y : ReceiveTimeClientRequest) → less x y ≡ true → less y x ≡ false
  pub incomparable :
      (x y z : ReceiveTimeClientRequest) → less x y ≡ false → less y z ≡ false → less x z ≡ false

-- No later entry compares less than an earlier one.
abbrev pub InOrder : Comparison → List ReceiveTimeClientRequest → Type 0
InOrder less [] = Unit {0}
InOrder less (x ∷ xs) =
    All (λ (y : ReceiveTimeClientRequest). less y x ≡ false) xs × InOrder less xs

-- What std::sort promises for the comparison that it is given, if that is a strict weak order: a
-- permutation, in order. It does not promise the order of entries of which neither is less.
pub record Sorts (sort : Comparison → List ReceiveTimeClientRequest → List ReceiveTimeClientRequest)
    : Type 0 where
  pub perm :
      (less : Comparison)
      → IsStrictWeakOrder less
      → (l : List ReceiveTimeClientRequest) → Perm (sort less l) l
  pub in_order :
      (less : Comparison)
      → IsStrictWeakOrder less
      → (l : List ReceiveTimeClientRequest) → InOrder less (sort less l)

earlier-IsStrictWeakOrder : IsStrictWeakOrder earlier
unfolding earlier
earlier-IsStrictWeakOrder = record {
  asymmetric = λ x y h. ground arith;
  incomparable = λ x y z h k. ground arith;
}

none_earlier :
    (x : ReceiveTimeClientRequest) (l : List ReceiveTimeClientRequest)
    → All (λ (y : ReceiveTimeClientRequest). earlier y x ≡ false) l
    → All (λ (y : ReceiveTimeClientRequest). x.receive_timestamp ≤ y.receive_timestamp) l
unfolding earlier
none_earlier x [] h = tt
none_earlier x (y ∷ l) h = let (first, rest) = h in (ground arith, none_earlier x l rest)

InOrder-Ascending : (l : List ReceiveTimeClientRequest) → InOrder earlier l → Ascending l
InOrder-Ascending [] h = tt
InOrder-Ascending (x ∷ l) h = (none_earlier x l h.0, InOrder-Ascending l h.1)

length-permᴰ : {A : Type 0} {xs ys : List A} → Permᴰ xs ys → length xs ≡ length ys
length-permᴰ Permᴰ.nil = refl
length-permᴰ (Permᴰ.cons e p) = ap suc (length-permᴰ p)
length-permᴰ (Permᴰ.swap e f) = refl
length-permᴰ (Permᴰ.trans p q) = length-permᴰ p ∙ length-permᴰ q

length-perm : {A : Type 0} {xs ys : List A} → Perm xs ys → length xs ≡ length ys
length-perm {xs} {ys} p = ∥∥₁_elim p (ℕ_set (length xs) (length ys)) length-permᴰ

length-entries : (f : ℕ → ReceiveTimeClientRequest) (i n : ℕ) → length (entries f i n) ≡ n
length-entries f i zero = refl
length-entries f i (suc n) = ap suc (length-entries f (i + 1) n)

entries-update :
    (f : ℕ → ReceiveTimeClientRequest) (i n j : ℕ) (x : ReceiveTimeClientRequest)
    → i + n ≤ j
    → entries (update f j x) i n ≡ entries f i n
entries-update f i zero j x h = refl
entries-update f i (suc n) j x h =
    ap₂ ◌∷◌ (update_ne f j i x (omega arith)) (entries-update f (i + 1) n j x (omega arith))

entries-snoc :
    (f : ℕ → ReceiveTimeClientRequest) (i n : ℕ)
    → entries f i (suc n) ≡ entries f i n ++ (f (i + n) ∷ [])
entries-snoc f i zero = ap (λ (k : ℕ). f k ∷ []) (omega arith)
entries-snoc f i (suc n) =
    ap (λ (l : List ReceiveTimeClientRequest). f i ∷ l)
      (entries-snoc f (i + 1) n ∙ ap (λ (k : ℕ). entries f (i + 1) n ++ (f k ∷ [])) (omega arith))

-- The entries before those written stay.
write_entries_before :
    (f : ℕ → ReceiveTimeClientRequest) (i j : ℕ) (xs : List ReceiveTimeClientRequest)
    → j < i
    → write_entries f i xs j ≡ f j
write_entries_before f i j [] h = refl
write_entries_before f i j (x ∷ xs) h =
    write_entries_before (update f i x) (i + 1) j xs (omega arith) ∙ update_ne f i j x (omega arith)

entries-write_entries :
    (f : ℕ → ReceiveTimeClientRequest) (i : ℕ) (xs : List ReceiveTimeClientRequest)
    → entries (write_entries f i xs) i (length xs) ≡ xs
entries-write_entries f i [] = refl
entries-write_entries f i (x ∷ xs) =
    ap₂ ◌∷◌ (write_entries_before (update f i x) (i + 1) i xs (omega arith) ∙ update_self f i x)
      (entries-write_entries (update f i x) (i + 1) xs)

publish_from-push_all :
    (q : LfQueue ClientRequest) (f : ℕ → ReceiveTimeClientRequest) (i n : ℕ)
    → publish_from q f i n ≡ push_all q (map ReceiveTimeClientRequest.request (entries f i n))
unfolding publish_from push_all
publish_from-push_all q f i zero = refl
publish_from-push_all q f i (suc n) = publish_from-push_all (push q (f i).request) f (i + 1) n

-- A request that finds room is put behind those that wait, with its time; nothing is published.
pub pending-add_request :
    (s : FifoSequencer) (r : ClientRequest) (time : ℕ)
    → s.pending_requests_index < max_pending_requests
    → (s' : FifoSequencer) × (add_request s r time ≡ ok s')
      × (pending s' ≡ pending s ++ (record { receive_timestamp = time; request = r } ∷ []))
      × (s'.requests ≡ s.requests)
unfolding add_request
pending-add_request s r time h =
    let n = s.pending_requests_index in
    let entry : ReceiveTimeClientRequest = record { receive_timestamp = time; request = r } in
    let f = update s.pending_requests n entry in
    (
      record s { pending_requests = f; pending_requests_index = n + 1 },
      ground arith,
      ap (entries f 0) (add-one n)
          ∙ entries-snoc f 0 n
          ∙ ap₂
              (λ (l : List ReceiveTimeClientRequest) (x : ReceiveTimeClientRequest). l ++ (x ∷ []))
              (entries-update s.pending_requests 0 n n entry (omega arith))
              (ap f (omega arith) ∙ update_self s.pending_requests n entry),
      refl,
    )

-- The request after the last for which there is room ends the process.
pub add_request-full :
    (s : FifoSequencer) (r : ClientRequest) (time : ℕ)
    → s.pending_requests_index ≡ max_pending_requests
    → add_request s r time ≡ exited
unfolding add_request
add_request-full s r time e = ground arith

module _ (sort : Comparison → List ReceiveTimeClientRequest → List ReceiveTimeClientRequest)
    (sorts : Sorts sort) where
  -- With room in the queue, all requests that wait are published, each once and in ascending order
  -- of the times of receipt, behind what the queue holds; none waits afterwards, and the queue
  -- stays valid.
  pub sequence_and_publish_lem :
      (s : FifoSequencer)
      → IsValid s.requests
      → count s.requests + s.pending_requests_index < s.requests.size
      → let s' = sequence_and_publish sort s in
        (l : List ReceiveTimeClientRequest) × Perm l (pending s)
        × Ascending l
        × (contents s'.requests ≡ contents s.requests ++ map ReceiveTimeClientRequest.request l)
        × (pending s' ≡ [])
        × IsValid s'.requests
  unfolding sequence_and_publish
  sequence_and_publish_lem s v room =
      let n = s.pending_requests_index in
      let l = sort earlier (pending s) in
      let permuted = sorts.perm earlier earlier-IsStrictWeakOrder (pending s) in
      let requests = map ReceiveTimeClientRequest.request l in
      let same : length l ≡ n = length-perm permuted ∙ length-entries s.pending_requests 0 n in
      let sorted = write_entries s.pending_requests 0 l in
      let published : publish_from s.requests sorted 0 n ≡ push_all s.requests requests =
        publish_from-push_all s.requests sorted 0 n
        ∙ ap
            (λ (k : List ReceiveTimeClientRequest).
              push_all s.requests (map ReceiveTimeClientRequest.request k))
            (ap (entries sorted 0) (sym same) ∙ entries-write_entries s.pending_requests 0 l) in
      (
        l,
        permuted,
        InOrder-Ascending l (sorts.in_order earlier earlier-IsStrictWeakOrder (pending s)),
        ap contents published
            ∙ contents-push_all s.requests requests v
                (omega (arith, length-map l ReceiveTimeClientRequest.request)),
        refl,
        subst IsValid (sym published) (push_all-IsValid s.requests requests v),
      )
