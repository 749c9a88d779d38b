-- ===== src/LfQueue/Fifo.antt =====
-- communication/lf_queue.h as a first-in first-out queue: what it holds, and what each operation
-- does to that.
use native.Mathlib.Nat.{mod-add-mod}
use cpp_exchange.Prelude.{
  mod_cases, offset_ne, Bool-cases, true, false, ==_iff, ◌↔◌, ℕ, zero, suc, ◌+◌, ◌-◌, ◌%◌, ◌≤◌, ◌<◌,
  ◌≡◌, refl, ap, ap₂, ◌≢◌, none, some, List, [], ◌∷◌, ◌++◌, arith, length, update, update_ne,
  append_assoc, append-nil, ◌∙◌, update_self, inl, inr, sym,
}
use cpp_exchange.LfQueue.{LfQueue, empty, push, pop, deref, push_all}

-- Both indices lie inside the vector.
pub record IsValid {T : Type 0} (q : LfQueue T) : Type 0 where
  pub write_in : q.next_write_index < q.size
  pub read_in : q.next_read_index < q.size

-- The number of items between the two indices.
abbrev pub count : {T : Type 0} → LfQueue T → ℕ
count q = (q.next_write_index + (q.size - q.next_read_index)) % q.size

module _ {T : Type 0} (s : ℕ) where
  -- The `n` slots from the `k`th behind `h` on, going round at `s`.
  abbrev pub collect : ℕ → (ℕ → T) → ℕ → ℕ → List T
  collect h f k zero = []
  collect h f k (suc n) = f ((h + k) % s) ∷ collect h f (k + 1) n

  length-collect : (h : ℕ) (f : ℕ → T) (k n : ℕ) → length (collect h f k n) ≡ n
  length-collect h f k zero = refl
  length-collect h f k (suc n) = ap suc (length-collect h f (k + 1) n)

  -- Starting one further from `h` is starting at the next index.
  collect_shift :
      (h : ℕ) (f : ℕ → T) (k n : ℕ) → collect ((h + 1) % s) f k n ≡ collect h f (k + 1) n
  collect_shift h f k zero = refl
  collect_shift h f k (suc n) =
      ap₂ ◌∷◌ (ap f (mod-add-mod (h + 1) s k ∙ ap (λ (i : ℕ). i % s) (omega arith)))
        (collect_shift h f (k + 1) n)

  -- A write behind the collected slots leaves them alone.
  pub collect-update :
      (h : ℕ) (f : ℕ → T) (k n m : ℕ) (x : T)
      → h < s
      → k + n ≤ m
      → m < s
      → collect h (update f ((h + m) % s) x) k n ≡ collect h f k n
  collect-update h f k zero m x hs km ms = refl
  collect-update h f k (suc n) m x hs km ms =
      ap₂ ◌∷◌ (update_ne f ((h + m) % s) ((h + k) % s) x (offset_ne s h k m hs (omega arith) ms))
        (collect-update h f (k + 1) n m x hs (omega arith) ms)

  -- A write just behind the collected slots puts its item last.
  collect-update_end :
      (h : ℕ) (f : ℕ → T) (k n : ℕ) (x : T)
      → h < s
      → k + n < s
      → collect h (update f ((h + (k + n)) % s) x) k (suc n) ≡ collect h f k n ++ (x ∷ [])
  collect-update_end h f k zero x hs ks =
      ap (λ (y : T). y ∷ [])
        (ap (λ (i : ℕ). update f ((h + i) % s) x ((h + k) % s)) (omega arith)
          ∙ update_self f ((h + k) % s) x)
  collect-update_end h f k (suc n) x hs ks =
      ap₂ ◌∷◌
        (update_ne f ((h + (k + suc n)) % s) ((h + k) % s) x
          (offset_ne s h k (k + suc n) hs (omega arith) ks))
        (ap (λ (i : ℕ). collect h (update f ((h + i) % s) x) (k + 1) (suc n)) (omega arith)
          ∙ collect-update_end h f (k + 1) n x hs (omega arith))

-- What the queue holds, oldest first.
abbrev pub contents : {T : Type 0} → LfQueue T → List T
contents q = collect q.size q.next_read_index q.slots 0 (count q)

module _ {T : Type 0} where
  pub length-contents : (q : LfQueue T) → length (contents q) ≡ count q
  length-contents q = length-collect q.size q.next_read_index q.slots 0 (count q)

  pub push-IsValid : {q : LfQueue T} (x : T) → IsValid q → IsValid (push q x)
  unfolding push
  push-IsValid x v = omega arith

  pub pop-IsValid : {q : LfQueue T} → IsValid q → IsValid (pop q).1
  unfolding pop
  pop-IsValid v = ground arith

  pub size-push : (q : LfQueue T) (x : T) → (push q x).size ≡ q.size
  unfolding push
  size-push q x = refl

  -- The slot that the next push writes stands behind the contents.
  pub write_slot :
      (q : LfQueue T)
      → IsValid q
      → q.next_write_index ≡ (q.next_read_index + (0 + count q)) % q.size
  write_slot q v = omega (
    arith,
    mod_cases (q.next_write_index + (q.size - q.next_read_index)) q.size (omega arith),
    mod_cases (q.next_read_index + (0 + count q)) q.size (omega arith),
  )

  -- The consumer sees no item exactly when none is waiting.
  pub empty_of_count : (q : LfQueue T) → IsValid q → (empty q ≡ true) ↔ (count q ≡ 0)
  unfolding empty
  empty_of_count q v = (
    λ e. omega (
      arith,
      (==_iff q.next_read_index q.next_write_index).0 e,
      mod_cases (q.next_write_index + (q.size - q.next_read_index)) q.size (omega arith),
    ),
    λ e. (==_iff q.next_read_index q.next_write_index).1 (
        omega (
          arith,
          mod_cases (q.next_write_index + (q.size - q.next_read_index)) q.size (omega arith),
        )),
  )

  pub count-push :
      (q : LfQueue T) (x : T) → IsValid q → count q + 1 < q.size → count (push q x) ≡ suc (count q)
  unfolding push
  count-push q x v room = omega (
    arith,
    mod_cases (q.next_write_index + 1) q.size (omega arith),
    mod_cases (q.next_write_index + (q.size - q.next_read_index)) q.size (omega arith),
    mod_cases ((q.next_write_index + 1) % q.size + (q.size - q.next_read_index)) q.size
        (omega arith),
  )

  pub count-push_full :
      (q : LfQueue T) (x : T) → IsValid q → count q + 1 ≡ q.size → count (push q x) ≡ 0
  unfolding push
  count-push_full q x v room = omega (
    arith,
    mod_cases (q.next_write_index + 1) q.size (omega arith),
    mod_cases (q.next_write_index + (q.size - q.next_read_index)) q.size (omega arith),
    mod_cases ((q.next_write_index + 1) % q.size + (q.size - q.next_read_index)) q.size
        (omega arith),
  )

  -- A push into a queue with room for it appends its item.
  pub contents-push :
      (q : LfQueue T) (x : T)
      → IsValid q
      → count q + 1 < q.size
      → contents (push q x) ≡ contents q ++ (x ∷ [])
  unfolding push
  contents-push q x v room = rw (count-push q x v room) (
      ap (λ (i : ℕ). collect q.size q.next_read_index (update q.slots i x) 0 (suc (count q)))
        (write_slot q v)
      ∙ collect-update_end q.size q.next_read_index q.slots 0 (count q) x v.read_in (omega arith))

  pub push_all-IsValid : (q : LfQueue T) (xs : List T) → IsValid q → IsValid (push_all q xs)
  unfolding push_all
  push_all-IsValid q [] v = v
  push_all-IsValid q (x ∷ xs) v = push_all-IsValid (push q x) xs (push-IsValid x v)

  -- A burst of pushes into a valid queue with room for all of them appends the items in order.
  pub contents-push_all :
      (q : LfQueue T) (xs : List T)
      → IsValid q
      → count q + length xs < q.size
      → contents (push_all q xs) ≡ contents q ++ xs
  unfolding push_all
  contents-push_all q [] v room = sym (append-nil (contents q))
  contents-push_all q (x ∷ xs) v room =
      contents-push_all (push q x) xs (push-IsValid x v)
        (omega (arith, count-push q x v (omega arith), size-push q x))
      ∙ ap (λ (l : List T). l ++ xs) (contents-push q x v (omega arith))
      ∙ append_assoc (contents q) (x ∷ []) xs

  pop_of_empty : (q : LfQueue T) → empty q ≡ true → pop q ≡ (none, q)
  unfolding pop
  pop_of_empty q e = rw e

  pub pop_of_nonempty :
      (q : LfQueue T)
      → empty q ≡ false
      → pop q
        ≡ (some q.next_read_index, record q { next_read_index = (q.next_read_index + 1) % q.size })
  unfolding pop
  pop_of_nonempty q e = rw e

  pub nonempty_of_count : (q : LfQueue T) → IsValid q → count q ≢ 0 → empty q ≡ false
  nonempty_of_count q v ne = elim (Bool-cases (empty q)) [
    | inl e ↦ absurd (ne ((empty_of_count q v).0 e))
    | inr e ↦ e
  ]

  -- A push into a valid queue that holds one item less than it has slots leaves it empty: the
  -- consumer gets nullptr, and neither the items that waited there nor the new one.
  pub push_full_loses_all :
      (q : LfQueue T) (x : T)
      → IsValid q
      → count q + 1 ≡ q.size
      → (contents (push q x) ≡ []) × (pop (push q x) ≡ (none, push q x))
  push_full_loses_all q x v full =
      let c : count (push q x) ≡ 0 = count-push_full q x v full in
      (
        ap (collect (push q x).size (push q x).next_read_index (push q x).slots 0) c,
        pop_of_empty (push q x) ((empty_of_count (push q x) (push-IsValid x v)).1 c),
      )

  -- A pop from a valid queue with no items returns nullptr and changes nothing.
  pub pop-nil : (q : LfQueue T) → IsValid q → contents q ≡ [] → pop q ≡ (none, q)
  pop-nil q v e = pop_of_empty q ((empty_of_count q v).1 (sym (length-contents q) ∙ ap length e))

  pub count-pop :
      (q : LfQueue T) (n : ℕ)
      → IsValid q
      → count q ≡ suc n
      → count (record q { next_read_index = (q.next_read_index + 1) % q.size }) ≡ n
  count-pop q n v e = omega (
    arith,
    mod_cases (q.next_read_index + 1) q.size (omega arith),
    mod_cases (q.next_write_index + (q.size - q.next_read_index)) q.size (omega arith),
    mod_cases (q.next_write_index + (q.size - (q.next_read_index + 1) % q.size)) q.size
        (omega arith),
  )

  -- What a queue holds beyond its first item is what the pop leaves.
  collect_parts :
      (s h : ℕ) (f : ℕ → T) (c n : ℕ) (x : T) (rest : List T)
      → h < s
      → c ≡ suc n
      → collect s h f 0 c ≡ x ∷ rest
      → (f h ≡ x) × (collect s ((h + 1) % s) f 0 n ≡ rest)
  collect_parts s h f zero n x rest hs c e = absurd (omega arith)
  collect_parts s h f (suc c) n x rest hs cn e =
      let same : f h ≡ f ((h + 0) % s) = ap f (omega (arith, mod_cases (h + 0) s (omega arith))) in
      let tails : collect s h f (0 + 1) c ≡ rest = cc e in
      let shifted : collect s ((h + 1) % s) f 0 c ≡ collect s h f (0 + 1) c =
        collect_shift s h f 0 c in
      (cc (same, e), ap (collect s ((h + 1) % s) f 0) (omega arith) ∙ shifted ∙ tails)

  -- A pop from a valid queue that holds `x` first returns a pointer to `x`, leaves the rest in
  -- order, and leaves the queue valid.
  pub pop-cons :
      (q : LfQueue T) (x : T) (rest : List T)
      → IsValid q
      → contents q ≡ x ∷ rest
      → ((pop q).0 ≡ some q.next_read_index)
        × (deref (pop q).1 q.next_read_index ≡ x)
        × (contents (pop q).1 ≡ rest)
        × IsValid (pop q).1
  unfolding deref
  pop-cons q x rest v e =
      let c : count q ≡ suc (length rest) = sym (length-contents q) ∙ ap length e in
      let parts =
        collect_parts q.size q.next_read_index q.slots (count q) (length rest) x rest v.read_in c
          e in
      rw (pop_of_nonempty q (nonempty_of_count q v (omega arith))) (
        refl,
        parts.0,
        ap (collect q.size ((q.next_read_index + 1) % q.size) q.slots 0)
              (count-pop q (length rest) v c)
            ∙ parts.1,
        omega arith,
      )
