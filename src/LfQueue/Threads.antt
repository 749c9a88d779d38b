-- ===== src/LfQueue/Threads.antt =====
-- communication/lf_queue.h: `push` and `pop` as their accesses to the shared memory, for one
-- producer and one consumer whose accesses come in any order. The atomic accesses are those of one
-- order for all threads, the default of std::atomic.
use cpp_exchange.Prelude.{ℕ, ◌+◌, ◌%◌, ◌<◌, ◌≡◌, ◌≢◌, List, [], ◌∷◌, ◌++◌, update}
use cpp_exchange.LfQueue.{LfQueue}
use cpp_exchange.LfQueue.Fifo.{count}

-- Where the producer is in `push`, with the indices that it has loaded.
pub data Producer (T : Type 0) : Type 0 where
  resting : Producer T
  pushing : (item : T) → Producer T
  located : (item : T) (index : ℕ) → Producer T
  written : (item : T) → Producer T
  advancing : (item : T) (index : ℕ) → Producer T

-- Where the consumer is in `pop`; `holding i` is after it, with the pointer to the slot `i` that it
-- returned.
pub data Consumer : Type 0 where
  waiting : Consumer
  comparing : (read : ℕ) → Consumer
  nonempty : Consumer
  pointing : (slot : ℕ) → Consumer
  leaving : (slot index : ℕ) → Consumer
  holding : (slot : ℕ) → Consumer

-- The shared memory, the two threads, the items of the pushes that are done, and what the consumer
-- has read through the pointers it got.
pub record Shared (T : Type 0) : Type 0 where
  pub queue : LfQueue T
  pub producer : Producer T
  pub consumer : Consumer
  pub pushed : List T
  pub popped : List T

pub data Step {T : Type 0} (s : Shared T) : Shared T → Type 0 where
  begin_push : (x : T) → s.producer ≡ resting → Step s (record s { producer = pushing x })
  load_slot :
      (x : T)
      → s.producer ≡ pushing x
      → Step s (record s { producer = located x s.queue.next_write_index })
  write_slot :
      (x : T) (w : ℕ)
      → s.producer ≡ located x w
      → Step s (record s {
        queue = record (s.queue) { slots = update s.queue.slots w x };
        producer = written x;
      })
  load_write_index :
      (x : T)
      → s.producer ≡ written x
      → Step s (record s { producer = advancing x s.queue.next_write_index })
  store_write_index :
      (x : T) (w : ℕ)
      → s.producer ≡ advancing x w
      → Step s (record s {
        queue = record (s.queue) { next_write_index = (w + 1) % s.queue.size };
        producer = resting;
        pushed = s.pushed ++ x ∷ [];
      })
  load_read :
      s.consumer ≡ waiting → Step s (record s { consumer = comparing s.queue.next_read_index })
  -- `empty` holds, and `pop` returns nullptr.
  find_empty :
      (r : ℕ)
      → s.consumer ≡ comparing r
      → r ≡ s.queue.next_write_index
      → Step s (record s { consumer = waiting })
  find_item :
      (r : ℕ)
      → s.consumer ≡ comparing r
      → r ≢ s.queue.next_write_index
      → Step s (record s { consumer = nonempty })
  take_pointer :
      s.consumer ≡ nonempty → Step s (record s { consumer = pointing s.queue.next_read_index })
  load_read_index :
      (i : ℕ)
      → s.consumer ≡ pointing i
      → Step s (record s { consumer = leaving i s.queue.next_read_index })
  store_read_index :
      (i r : ℕ)
      → s.consumer ≡ leaving i r
      → Step s (record s {
        queue = record (s.queue) { next_read_index = (r + 1) % s.queue.size };
        consumer = holding i;
      })
  follow_pointer :
      (i : ℕ)
      → s.consumer ≡ holding i
      → Step s (record s { consumer = waiting; popped = s.popped ++ s.queue.slots i ∷ [] })

abbrev pub start : {T : Type 0} → LfQueue T → Shared T
start q = record { queue = q; producer = resting; consumer = waiting; pushed = []; popped = [] }

pub data Reach {T : Type 0} (s : Shared T) : Shared T → Type 0 where
  here : Reach s s
  later : {t u : Shared T} → Reach s t → Step t u → Reach s u

-- A step keeps room if it is not the beginning of a push, or the queue has room for one item more.
-- `push` does not test this, and overwrites what waits in a queue that is full.
abbrev pub StepKeepsRoom : {T : Type 0} {s t : Shared T} → Step s t → Type 0
StepKeepsRoom {T} {s} (begin_push x at) = count s.queue + 1 < s.queue.size
StepKeepsRoom (load_slot x at) = Unit {0}
StepKeepsRoom (write_slot x w at) = Unit {0}
StepKeepsRoom (load_write_index x at) = Unit {0}
StepKeepsRoom (store_write_index x w at) = Unit {0}
StepKeepsRoom (load_read at) = Unit {0}
StepKeepsRoom (find_empty r at same) = Unit {0}
StepKeepsRoom (find_item r at other) = Unit {0}
StepKeepsRoom (take_pointer at) = Unit {0}
StepKeepsRoom (load_read_index i at) = Unit {0}
StepKeepsRoom (store_read_index i r at) = Unit {0}
StepKeepsRoom (follow_pointer i at) = Unit {0}

-- Every push of these steps is begun when the queue has room.
abbrev pub KeepsRoom : {T : Type 0} {s t : Shared T} → Reach s t → Type 0
KeepsRoom here = Unit {0}
KeepsRoom (later r step) = KeepsRoom r × StepKeepsRoom step
