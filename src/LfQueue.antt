-- ===== src/LfQueue.antt =====
-- The ring of include/communication/lf_queue.h, as its one producer and one consumer see it
-- when each call runs to its end.
pub mod Fifo
pub mod Pointers
pub mod Threads
pub mod Known
pub mod Interleaved
pub mod Conserved
use cpp_exchange.Prelude.{
  ℕ, ◌+◌, ◌%◌, Bool, Option, none, some, List, [], ◌∷◌, ◌==◌, if◌then◌else◌, update,
}

-- `data_` is a vector of `size` slots. An index is always taken modulo `size`, so that slots
-- at and above `size` are never used.
pub record LfQueue (T : Type 0) : Type 0 where
  pub slots : ℕ → T
  pub size : ℕ
  pub next_write_index : ℕ
  pub next_read_index : ℕ

module _ {T : Type 0} where
  -- The constructor: `n` slots that hold a default value.
  unfoldable pub create : ℕ → T → LfQueue T
  create n d = record { slots = λ _. d; size = n; next_write_index = 0; next_read_index = 0 }

  unfoldable pub empty : LfQueue T → Bool
  empty q = q.next_read_index == q.next_write_index

  unfoldable pub push : LfQueue T → T → LfQueue T
  push q item = record q {
    slots = update q.slots q.next_write_index item;
    next_write_index = (q.next_write_index + 1) % q.size;
  }

  -- The pointer that `pop` returns is the index of a slot, `none` for nullptr.
  unfoldable pub pop : LfQueue T → Option ℕ × LfQueue T
  unfolding empty
  pop q =
      if empty q
      then (none, q)
      else (some q.next_read_index, record q { next_read_index = (q.next_read_index + 1) % q.size })

  -- What the caller of `pop` finds when it follows the pointer at a later moment.
  unfoldable pub deref : LfQueue T → ℕ → T
  deref q i = q.slots i

  -- A burst of pushes, in order.
  unfoldable pub push_all : LfQueue T → List T → LfQueue T
  push_all q [] = q
  push_all q (x ∷ xs) = push_all (push q x) xs
