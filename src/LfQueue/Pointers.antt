-- ===== src/LfQueue/Pointers.antt =====
-- communication/lf_queue.h: `pop` hands out a pointer into the ring, which the consumer follows
-- while the producer goes on pushing.
use native.Mathlib.Nat.{mod-add-mod}
use cpp_exchange.Prelude.{
  mod_cases, offset_ne, suc, Option, ℕ, ◌+◌, ◌-◌, ◌%◌, ◌≤◌, ◌<◌, ◌≡◌, refl, sym, ap, ◌∙◌, List, [],
  ◌∷◌, arith, length, update_ne, ◌≢◌,
}
use cpp_exchange.LfQueue.{LfQueue, push, pop, deref, push_all}
use cpp_exchange.LfQueue.Fifo.{
  IsValid, count, contents, length-contents, push-IsValid, pop-cons, pop_of_nonempty,
  nonempty_of_count, size-push,
}

module _ {T : Type 0} where
  -- A push writes another slot than the one `m` places behind the write index, for `0 < m`.
  slot-push :
      (q : LfQueue T) (x : T) (i m : ℕ)
      → IsValid q
      → i ≡ (q.next_write_index + m) % q.size
      → 0 < m
      → m < q.size
      → ((push q x).slots i ≡ q.slots i)
        × (i ≡ ((push q x).next_write_index + (m - 1)) % (push q x).size)
  unfolding push
  slot-push q x i m v e pm ms = (
    update_ne q.slots q.next_write_index i x (λ h.
        offset_ne q.size q.next_write_index 0 m v.write_in pm ms
          (omega (arith, mod_cases (q.next_write_index + 0) q.size (omega arith)))),
    e
        ∙ ap (λ (j : ℕ). j % q.size) (omega arith)
        ∙ sym (mod-add-mod (q.next_write_index + 1) q.size (m - 1)),
  )

  -- The slot that stands `m` places behind the write index survives a burst of at most `m` pushes.
  slot-push_all :
      (q : LfQueue T) (xs : List T) (i m : ℕ)
      → IsValid q
      → i ≡ (q.next_write_index + m) % q.size
      → length xs ≤ m
      → m < q.size
      → (push_all q xs).slots i ≡ q.slots i
  unfolding push_all
  slot-push_all q [] i m v e lm ms = refl
  slot-push_all q (x ∷ xs) i m v e lm ms =
      let one = slot-push q x i m v e (omega arith) ms in
      slot-push_all (push q x) xs i (m - 1) (push-IsValid x v) one.1 (omega arith)
        (omega (arith, size-push q x))
      ∙ one.0

  -- The read index seen from the write index.
  read_place :
      (q : LfQueue T)
      → IsValid q
      → count q ≢ 0
      → q.next_read_index ≡ (q.next_write_index + (q.size - count q)) % q.size
  read_place q v ne = omega (
    arith,
    mod_cases (q.next_write_index + (q.size - q.next_read_index)) q.size (omega arith),
    mod_cases (q.next_write_index + (q.size - count q)) q.size (
        omega (
          arith,
          mod_cases (q.next_write_index + (q.size - q.next_read_index)) q.size (omega arith),
        )),
  )

  -- The pointer that `pop` returned for `x` still leads to `x` after a burst of pushes `ys` that
  -- the queue has room for.
  pub deref_after_pushes :
      (q : LfQueue T) (x : T) (rest ys : List T)
      → IsValid q
      → contents q ≡ x ∷ rest
      → length rest + length ys < q.size
      → deref (push_all (pop q).1 ys) q.next_read_index ≡ x
  unfolding deref
  deref_after_pushes q x rest ys v e room =
      let c : count q ≡ suc (length rest) = sym (length-contents q) ∙ ap length e in
      let popped = pop_of_nonempty q (nonempty_of_count q v (omega arith)) in
      ap (λ (p : Option ℕ × LfQueue T). (push_all p.1 ys).slots q.next_read_index) popped
      ∙ slot-push_all (record q { next_read_index = (q.next_read_index + 1) % q.size }) ys
          q.next_read_index (q.size - count q) (omega arith) (read_place q v (omega arith))
          (omega arith) (omega arith)
      ∙ sym (ap (λ (p : Option ℕ × LfQueue T). p.1.slots q.next_read_index) popped)
      ∙ (pop-cons q x rest v e).1
