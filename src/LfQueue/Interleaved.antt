-- ===== src/LfQueue/Interleaved.antt =====
-- communication/lf_queue.h: what one producer and one consumer see, however their accesses come.
use cpp_exchange.Prelude.{
  ℕ, ◌+◌, ◌-◌, ◌%◌, ◌≡◌, ◌≢◌, refl, sym, ap, ap₂, ◌∙◌, subst, [], ◌∷◌, ◌++◌, update, update_self,
  arith, mod_cases, append_assoc,
}
use cpp_exchange.LfQueue.Fifo.{IsValid, contents, contents-push, push-IsValid}
use cpp_exchange.LfQueue.Threads.{
  resting, located, written, advancing, comparing, nonempty, leaving, holding, Shared,
}
use cpp_exchange.LfQueue.Known.{
  ProducerKnows, ConsumerKnows, in_hand, ConsumerKnows-slots, contents-slots, in_hand-slots, stored,
  ConsumerKnows-push, in_hand-index, advanced, first_item, ProducerKnows-advanced,
}

module _ {T : Type 0} where
  -- The queue is valid, the threads know what they rely on, and nothing is lost, doubled or out of
  -- order.
  pub record IsSafe (s : Shared T) : Type 0 where
    pub valid : IsValid s.queue
    pub producer_knows : ProducerKnows s.producer s.queue
    pub consumer_knows : ConsumerKnows s.consumer s.queue
    pub conserved : s.popped ++ (in_hand s.consumer s.queue ++ contents s.queue) ≡ s.pushed

  -- The producer's steps.
  pub write_slot-IsSafe :
      (s : Shared T) (x : T) (w : ℕ)
      → s.producer ≡ located x w
      → IsSafe s
      → IsSafe (record s {
        queue = record (s.queue) { slots = update s.queue.slots w x };
        producer = written x;
      })
  write_slot-IsSafe s x w at safe =
      let q = s.queue in
      let k = subst (λ p. ProducerKnows p q) at safe.producer_knows in
      subst
        (λ j.
          IsSafe
            (record s { queue = record q { slots = update q.slots j x }; producer = written x }))
        (sym k.0)
        (record {
          valid = record { write_in = safe.valid.write_in; read_in = safe.valid.read_in };
          producer_knows = (update_self q.slots q.next_write_index x, k.1);
          consumer_knows =
              ConsumerKnows-slots s.consumer q (update q.slots q.next_write_index x)
                safe.consumer_knows;
          conserved =
              ap₂ (λ h c. s.popped ++ (h ++ c))
                (in_hand-slots s.consumer q x safe.valid k.1 safe.consumer_knows)
                (contents-slots q x safe.valid k.1)
              ∙ safe.conserved;
        })

  pub store_write_index-IsSafe :
      (s : Shared T) (x : T) (w : ℕ)
      → s.producer ≡ advancing x w
      → IsSafe s
      → IsSafe (record s {
        queue = record (s.queue) { next_write_index = (w + 1) % s.queue.size };
        producer = resting;
        pushed = s.pushed ++ x ∷ [];
      })
  store_write_index-IsSafe s x w at safe =
      let q = s.queue in
      let v = safe.valid in
      let k = subst (λ p. ProducerKnows p q) at safe.producer_knows in
      let e = stored q x k.1 in
      let h = in_hand s.consumer q in
      subst
        (λ j. IsSafe (record s {
          queue = record q { next_write_index = (j + 1) % q.size };
          producer = resting;
          pushed = s.pushed ++ x ∷ [];
        }))
        (sym k.0)
        (record {
          valid = subst IsValid e (push-IsValid x v);
          producer_knows = tt;
          consumer_knows =
              subst (ConsumerKnows s.consumer) e
                (ConsumerKnows-push s.consumer q x v k.2 safe.consumer_knows);
          conserved =
              ap₂ (λ g c. s.popped ++ (g ++ c))
                (in_hand-index s.consumer q ((q.next_write_index + 1) % q.size))
                (sym (ap contents e) ∙ contents-push q x v k.2)
              ∙ ap (λ c. s.popped ++ c) (sym (append_assoc h (contents q) (x ∷ [])))
              ∙ sym (append_assoc s.popped (h ++ contents q) (x ∷ []))
              ∙ ap (λ l. l ++ x ∷ []) safe.conserved;
        })

  -- The consumer's steps.
  pub store_read_index-IsSafe :
      (s : Shared T) (i r : ℕ)
      → s.consumer ≡ leaving i r
      → IsSafe s
      → IsSafe (record s {
        queue = record (s.queue) { next_read_index = (r + 1) % s.queue.size };
        consumer = holding i;
      })
  store_read_index-IsSafe s i r at safe =
      let q = s.queue in
      let v = safe.valid in
      let k = subst (λ c. ConsumerKnows c q) at safe.consumer_knows in
      let before =
        subst (λ c. s.popped ++ (in_hand c q ++ contents q) ≡ s.pushed) at safe.conserved in
      subst
        (λ j. IsSafe (record s {
          queue = record q { next_read_index = (j + 1) % q.size };
          consumer = holding i;
        }))
        (sym k.1)
        (record {
          valid = record { write_in = v.write_in; read_in = omega (arith, v.read_in) };
          producer_knows = ProducerKnows-advanced s.producer q v k.2 safe.producer_knows;
          consumer_knows =
              ((let b = v.read_in in omega arith), ap (λ j. (j + 1) % q.size) (sym k.0));
          conserved =
              ap (λ j. s.popped ++ (q.slots j ∷ contents (advanced q))) k.0
              ∙ ap (λ l. s.popped ++ l) (sym (first_item q (contents q) v k.2 refl))
              ∙ before;
        })

  pub find_item-IsSafe :
      (s : Shared T) (r : ℕ)
      → s.consumer ≡ comparing r
      → r ≢ s.queue.next_write_index
      → IsSafe s
      → IsSafe (record s { consumer = nonempty })
  find_item-IsSafe s r at other safe =
      let q = s.queue in
      let v = safe.valid in
      let same = subst (λ c. ConsumerKnows c q) at safe.consumer_knows in
      record {
        valid = v;
        producer_knows = safe.producer_knows;
        consumer_knows = λ none_left. other (
            omega (
              arith,
              v.write_in,
              v.read_in,
              mod_cases (q.next_write_index + (q.size - q.next_read_index)) q.size
                  (let b = v.read_in in omega arith),
            ));
        conserved =
            subst (λ c. s.popped ++ (in_hand c q ++ contents q) ≡ s.pushed) at safe.conserved;
      }
