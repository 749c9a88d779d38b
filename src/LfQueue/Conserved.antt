-- ===== src/LfQueue/Conserved.antt =====
-- communication/lf_queue.h: every state that a producer and a consumer reach.
use cpp_exchange.Prelude.{◌≡◌, refl, ◌∙◌, subst, [], ◌∷◌, ◌++◌, append_assoc}
use cpp_exchange.LfQueue.{LfQueue}
use cpp_exchange.LfQueue.Fifo.{IsValid, contents}
use cpp_exchange.LfQueue.Threads
use cpp_exchange.LfQueue.Threads.{
  Producer, Consumer, waiting, comparing, nonempty, pointing, leaving, holding, Shared, Step,
  begin_push, load_slot, write_slot, load_write_index, store_write_index, load_read, find_empty,
  find_item, take_pointer, load_read_index, store_read_index, follow_pointer, start, Reach, here,
  later, StepKeepsRoom, KeepsRoom,
}
use cpp_exchange.LfQueue.Known.{ProducerKnows, ConsumerKnows, in_hand}
use cpp_exchange.LfQueue.Interleaved.{
  IsSafe, write_slot-IsSafe, store_write_index-IsSafe, store_read_index-IsSafe, find_item-IsSafe,
}

module _ {T : Type 0} where
  -- What the consumer has read, what it has in hand and what the queue holds are the items pushed.
  abbrev Conserved : Shared T → Consumer → Type 0
  Conserved s c = s.popped ++ (in_hand c s.queue ++ contents s.queue) ≡ s.pushed

  -- A step of the producer that writes nothing that is shared.
  producer_moves :
      (s : Shared T) (p : Producer T)
      → ProducerKnows p s.queue
      → IsSafe s
      → IsSafe (record s { producer = p })
  producer_moves s p k safe = record {
    valid = safe.valid;
    producer_knows = k;
    consumer_knows = safe.consumer_knows;
    conserved = safe.conserved;
  }

  -- A step of the consumer that writes nothing that is shared, with no pointer before or after it.
  consumer_moves :
      (s : Shared T) (c : Consumer)
      → ConsumerKnows c s.queue
      → Conserved s c
      → IsSafe s
      → IsSafe (record s { consumer = c })
  consumer_moves s c k l safe = record {
    valid = safe.valid;
    producer_knows = safe.producer_knows;
    consumer_knows = k;
    conserved = l;
  }

  Step-IsSafe : {s t : Shared T} (step : Step s t) → StepKeepsRoom step → IsSafe s → IsSafe t
  Step-IsSafe {s} (begin_push x at) room safe = producer_moves s (Threads.pushing x) room safe
  Step-IsSafe {s} (load_slot x at) room safe =
      let k = subst (λ p. ProducerKnows p s.queue) at safe.producer_knows in
      producer_moves s (Threads.located x s.queue.next_write_index) (refl, k) safe
  Step-IsSafe {s} (write_slot x w at) room safe = write_slot-IsSafe s x w at safe
  Step-IsSafe {s} (load_write_index x at) room safe =
      let k = subst (λ p. ProducerKnows p s.queue) at safe.producer_knows in
      producer_moves s (Threads.advancing x s.queue.next_write_index) (refl, k.0, k.1) safe
  Step-IsSafe {s} (store_write_index x w at) room safe = store_write_index-IsSafe s x w at safe
  Step-IsSafe {s} (load_read at) room safe =
      consumer_moves s (comparing s.queue.next_read_index) refl
        (subst (Conserved s) at safe.conserved) safe
  Step-IsSafe {s} (find_empty r at same) room safe =
      consumer_moves s waiting tt (subst (Conserved s) at safe.conserved) safe
  Step-IsSafe {s} (find_item r at other) room safe = find_item-IsSafe s r at other safe
  Step-IsSafe {s} (take_pointer at) room safe =
      let k = subst (λ c. ConsumerKnows c s.queue) at safe.consumer_knows in
      consumer_moves s (pointing s.queue.next_read_index) (refl, k)
        (subst (Conserved s) at safe.conserved) safe
  Step-IsSafe {s} (load_read_index i at) room safe =
      let k = subst (λ c. ConsumerKnows c s.queue) at safe.consumer_knows in
      consumer_moves s (leaving i s.queue.next_read_index) (k.0, refl, k.1)
        (subst (Conserved s) at safe.conserved) safe
  Step-IsSafe {s} (store_read_index i r at) room safe = store_read_index-IsSafe s i r at safe
  Step-IsSafe {s} (follow_pointer i at) room safe =
      let q = s.queue in
      record {
        valid = safe.valid;
        producer_knows = safe.producer_knows;
        consumer_knows = tt;
        conserved =
            append_assoc s.popped (q.slots i ∷ []) (contents q)
            ∙ subst (Conserved s) at safe.conserved;
      }

  Reach-IsSafe : {s t : Shared T} → IsSafe s → (r : Reach s t) → KeepsRoom r → IsSafe t
  Reach-IsSafe safe here room = safe
  Reach-IsSafe safe (later r step) room = Step-IsSafe step room.1 (Reach-IsSafe safe r room.0)

  -- From a valid queue with no items, in every state that one producer and one consumer reach by
  -- their accesses in any order, if every push is begun when the queue has room for one item more
  -- (`push` does not test that): what the consumer has read through its pointers, then the item that it has a pointer to, then what the queue
  -- holds, are the items of the pushes that are done, in order.
  pub interleaved_in_order :
      (q : LfQueue T) (s : Shared T)
      → IsValid q
      → contents q ≡ []
      → (r : Reach (start q) s) → KeepsRoom r
      → s.popped ++ (in_hand s.consumer s.queue ++ contents s.queue) ≡ s.pushed
  interleaved_in_order q s v none_waits r room =
      (Reach-IsSafe
        (record { valid = v; producer_knows = tt; consumer_knows = tt; conserved = none_waits }) r
        room).conserved
