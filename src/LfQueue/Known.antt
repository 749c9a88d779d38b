-- ===== src/LfQueue/Known.antt =====
-- communication/lf_queue.h: what the producer and the consumer know of the queue at each point.
use cpp_exchange.Prelude.{
  ℕ, ◌+◌, ◌-◌, ◌%◌, ◌<◌, ◌≡◌, ◌≢◌, refl, sym, ap, ap₂, ◌∙◌, subst, List, [], ◌∷◌, update, update_ne,
  update_self, arith, mod_cases, fun_ext, length, Option,
}
use native.Mathlib.Decide.{ℕ_discrete}
use cpp_exchange.LfQueue.{LfQueue, push, deref}
use cpp_exchange.LfQueue.Fifo
use cpp_exchange.LfQueue.Fifo.{
  IsValid, count, contents, collect, collect-update, contents-push, count-push, push-IsValid,
  pop-cons, count-pop, pop_of_nonempty, nonempty_of_count, empty_of_count, length-contents,
}
use cpp_exchange.LfQueue.Threads.{
  Producer, resting, pushing, located, written, advancing, Consumer, waiting, comparing, nonempty,
  pointing, leaving, holding,
}

module _ {T : Type 0} where
  abbrev pub Room : LfQueue T → Type 0
  Room q = count q + 1 < q.size

  -- What the producer knows of the queue.
  abbrev pub ProducerKnows : Producer T → LfQueue T → Type 0
  ProducerKnows resting q = Unit {0}
  ProducerKnows (pushing x) q = Room q
  ProducerKnows (located x w) q = (w ≡ q.next_write_index) × Room q
  ProducerKnows (written x) q = (q.slots q.next_write_index ≡ x) × Room q
  ProducerKnows (advancing x w) q =
      (w ≡ q.next_write_index) × (q.slots q.next_write_index ≡ x) × Room q

  -- What the consumer knows of the queue.
  abbrev pub ConsumerKnows : Consumer → LfQueue T → Type 0
  ConsumerKnows waiting q = Unit {0}
  ConsumerKnows (comparing r) q = r ≡ q.next_read_index
  ConsumerKnows nonempty q = count q ≢ 0
  ConsumerKnows (pointing i) q = (i ≡ q.next_read_index) × (count q ≢ 0)
  ConsumerKnows (leaving i r) q = (i ≡ q.next_read_index) × (r ≡ q.next_read_index) × (count q ≢ 0)
  ConsumerKnows (holding i) q = (i < q.size) × (q.next_read_index ≡ (i + 1) % q.size)

  -- The item that the consumer has a pointer to and has not read yet.
  abbrev pub in_hand : Consumer → LfQueue T → List T
  in_hand (holding i) q = q.slots i ∷ []
  in_hand _ q = []

  -- A write to a slot is no news for the consumer.
  pub ConsumerKnows-slots :
      (c : Consumer) (q : LfQueue T) (f : ℕ → T)
      → ConsumerKnows c q
      → ConsumerKnows c (record q { slots = f })
  ConsumerKnows-slots waiting q f k = k
  ConsumerKnows-slots (comparing r) q f k = k
  ConsumerKnows-slots nonempty q f k = k
  ConsumerKnows-slots (pointing i) q f k = k
  ConsumerKnows-slots (leaving i r) q f k = k
  ConsumerKnows-slots (holding i) q f k = k

  -- The producer writes no slot that the consumer has a pointer to, or is yet to read.
  pub held_slot :
      (q : LfQueue T) (i : ℕ)
      → IsValid q
      → Room q
      → i < q.size
      → q.next_read_index ≡ (i + 1) % q.size
      → i ≢ q.next_write_index
  held_slot q i v room below next e = omega (
    arith,
    mod_cases (q.next_write_index + (q.size - q.next_read_index)) q.size (omega arith),
    mod_cases (i + 1) q.size (omega arith),
  )

  pub contents-slots :
      (q : LfQueue T) (x : T)
      → IsValid q
      → Room q
      → contents (record q { slots = update q.slots q.next_write_index x }) ≡ contents q
  contents-slots q x v room =
      ap (λ (w : ℕ). collect q.size q.next_read_index (update q.slots w x) 0 (count q))
        (Fifo.write_slot q v)
      ∙ collect-update q.size q.next_read_index q.slots 0 (count q) (0 + count q) x v.read_in
          (omega arith) (omega arith)

  pub in_hand-slots :
      (c : Consumer) (q : LfQueue T) (x : T)
      → IsValid q
      → Room q
      → ConsumerKnows c q
      → in_hand c (record q { slots = update q.slots q.next_write_index x }) ≡ in_hand c q
  in_hand-slots waiting q x v room k = refl
  in_hand-slots (comparing r) q x v room k = refl
  in_hand-slots nonempty q x v room k = refl
  in_hand-slots (pointing i) q x v room k = refl
  in_hand-slots (leaving i r) q x v room k = refl
  in_hand-slots (holding i) q x v room k =
      ap (λ (y : T). y ∷ [])
        (update_ne q.slots q.next_write_index i x (held_slot q i v room k.0 k.1))

  -- The queue after the producer has stored its index is the one after the push.
  pub stored :
      (q : LfQueue T) (x : T)
      → q.slots q.next_write_index ≡ x
      → push q x ≡ record q { next_write_index = (q.next_write_index + 1) % q.size }
  unfolding push
  stored q x e =
      ap
        (λ (f : ℕ → T). record q {
          slots = f;
          next_write_index = (q.next_write_index + 1) % q.size;
        })
        (fun_ext (λ k. elim (ℕ_discrete k q.next_write_index) [
          | yes same ↦
              subst (λ j. update q.slots q.next_write_index x j ≡ q.slots j) (sym same)
                (update_self q.slots q.next_write_index x ∙ sym e)
          | no other ↦ update_ne q.slots q.next_write_index k x other
        ]))

  pub ConsumerKnows-push :
      (c : Consumer) (q : LfQueue T) (x : T)
      → IsValid q
      → Room q
      → ConsumerKnows c q
      → ConsumerKnows c (push q x)
  unfolding push
  ConsumerKnows-push waiting q x v room k = k
  ConsumerKnows-push (comparing r) q x v room k = k
  ConsumerKnows-push nonempty q x v room k = omega (arith, count-push q x v room)
  ConsumerKnows-push (pointing i) q x v room k = (k.0, omega (arith, count-push q x v room))
  ConsumerKnows-push (leaving i r) q x v room k = (k.0, k.1, omega (arith, count-push q x v room))
  ConsumerKnows-push (holding i) q x v room k = k

  pub in_hand-index :
      (c : Consumer) (q : LfQueue T) (w : ℕ)
      → in_hand c (record q { next_write_index = w }) ≡ in_hand c q
  in_hand-index waiting q w = refl
  in_hand-index (comparing r) q w = refl
  in_hand-index nonempty q w = refl
  in_hand-index (pointing i) q w = refl
  in_hand-index (leaving i r) q w = refl
  in_hand-index (holding i) q w = refl

  -- The queue without its first item.
  abbrev pub advanced : LfQueue T → LfQueue T
  advanced q = record q { next_read_index = (q.next_read_index + 1) % q.size }

  pub first_item :
      (q : LfQueue T) (l : List T)
      → IsValid q
      → count q ≢ 0
      → contents q ≡ l
      → contents q ≡ q.slots q.next_read_index ∷ contents (advanced q)
  unfolding deref
  first_item q [] v more e = absurd (more (sym (length-contents q) ∙ ap length e))
  first_item q (y ∷ rest) v more e =
      let popped = pop_of_nonempty q (nonempty_of_count q v more) in
      let (_, item, left, _) = pop-cons q y rest v e in
      e
      ∙ ap₂ (λ z zs. z ∷ zs)
          (sym item ∙ ap (λ (k : Option ℕ × LfQueue T). k.1.slots q.next_read_index) popped)
          (sym left ∙ ap (λ (k : Option ℕ × LfQueue T). contents k.1) popped)

  pub Room-advanced : (q : LfQueue T) → IsValid q → count q ≢ 0 → Room q → Room (advanced q)
  Room-advanced q v more room = omega (arith, count-pop q (count q - 1) v (omega arith))

  pub ProducerKnows-advanced :
      (p : Producer T) (q : LfQueue T)
      → IsValid q
      → count q ≢ 0
      → ProducerKnows p q
      → ProducerKnows p (advanced q)
  ProducerKnows-advanced resting q v more k = k
  ProducerKnows-advanced (pushing x) q v more k = Room-advanced q v more k
  ProducerKnows-advanced (located x w) q v more k = (k.0, Room-advanced q v more k.1)
  ProducerKnows-advanced (written x) q v more k = (k.0, Room-advanced q v more k.1)
  ProducerKnows-advanced (advancing x w) q v more k = (k.0, k.1, Room-advanced q v more k.2)
