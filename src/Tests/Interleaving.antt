-- ===== src/Tests/Interleaving.antt =====
-- A push and a pop whose accesses come in turn, at concrete inputs.
use cpp_exchange.Prelude.{ℕ, List, update, ◌≡◌, refl, [], ◌∷◌, ◌++◌, arith}
use cpp_exchange.LfQueue.{LfQueue}
use cpp_exchange.LfQueue.Fifo.{contents}
use cpp_exchange.LfQueue.Threads.{
  Shared, Producer, Consumer, resting, pushing, located, written, advancing, waiting, comparing,
  nonempty, pointing, leaving, holding, begin_push, load_slot, write_slot, load_write_index,
  store_write_index, load_read, find_item, take_pointer, load_read_index, store_read_index, start,
  Reach, here, later, KeepsRoom,
}
use cpp_exchange.LfQueue.Known.{in_hand}
use cpp_exchange.LfQueue.Conserved.{interleaved_in_order}

abbrev fresh : LfQueue ℕ
fresh = record { slots = λ _. 0; size = 3; next_write_index = 0; next_read_index = 0 }

abbrev after : (ℕ → ℕ) → (write read : ℕ) → Producer ℕ → Consumer → List ℕ → Shared ℕ
after slots write read p c pushed = record {
  queue = record { slots = slots; size = 3; next_write_index = write; next_read_index = read };
  producer = p;
  consumer = c;
  pushed = pushed;
  popped = [];
}

abbrev one : ℕ → ℕ
one = update (λ _. 0) 0 7

abbrev two : ℕ → ℕ
two = update one 1 8

-- 7 has been pushed.
pushed_one : Reach (start fresh) (after one 1 0 resting waiting (7 ∷ []))
pushed_one =
    let r1 : Reach (start fresh) (after (λ _. 0) 0 0 (pushing 7) waiting []) =
      later here (begin_push 7 refl) in
    let r2 : Reach (start fresh) (after (λ _. 0) 0 0 (located 7 0) waiting []) =
      later r1 (load_slot 7 refl) in
    let r3 : Reach (start fresh) (after one 0 0 (written 7) waiting []) =
      later r2 (write_slot 7 0 refl) in
    let r4 : Reach (start fresh) (after one 0 0 (advancing 7 0) waiting []) =
      later r3 (load_write_index 7 refl) in
    later r4 (store_write_index 7 0 refl)

-- The consumer has the pointer to 7, while the producer has written 8 and not yet stored its index.
abbrev midway : Shared ℕ
midway = after two 1 1 (written 8) (holding 0) (7 ∷ [])

midway-Reach : Reach (start fresh) midway
midway-Reach =
    let r1 : Reach (start fresh) (after one 1 0 resting (comparing 0) (7 ∷ [])) =
      later pushed_one (load_read refl) in
    let r2 : Reach (start fresh) (after one 1 0 (pushing 8) (comparing 0) (7 ∷ [])) =
      later r1 (begin_push 8 refl) in
    let r3 : Reach (start fresh) (after one 1 0 (pushing 8) nonempty (7 ∷ [])) =
      later r2 (find_item 0 refl (omega arith)) in
    let r4 : Reach (start fresh) (after one 1 0 (located 8 1) nonempty (7 ∷ [])) =
      later r3 (load_slot 8 refl) in
    let r5 : Reach (start fresh) (after one 1 0 (located 8 1) (pointing 0) (7 ∷ [])) =
      later r4 (take_pointer refl) in
    let r6 : Reach (start fresh) (after one 1 0 (located 8 1) (leaving 0 0) (7 ∷ [])) =
      later r5 (load_read_index 0 refl) in
    let r7 : Reach (start fresh) (after two 1 0 (written 8) (leaving 0 0) (7 ∷ [])) =
      later r6 (write_slot 8 1 refl) in
    later r7 (store_read_index 0 0 refl)

midway-KeepsRoom : KeepsRoom midway-Reach
unfolding midway-Reach pushed_one
midway-KeepsRoom = (
  ((((((((((((tt, omega arith), tt), tt), tt), tt), tt), omega arith), tt), tt), tt), tt), tt),
  tt,
)

interleaved_in_order_example :
    [] ++ (in_hand (holding 0) midway.queue ++ contents midway.queue) ≡ 7 ∷ []
interleaved_in_order_example =
    interleaved_in_order fresh midway (record { write_in = omega arith; read_in = omega arith })
      refl midway-Reach midway-KeepsRoom
