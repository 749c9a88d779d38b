-- ===== src/ObjectPool.antt =====
-- include/utils/object_pool.h: blocks allocated once, handed out and taken back.
pub mod Blocks
pub mod Laws
pub mod Search
use cpp_exchange.Prelude.{
  ℕ, zero, suc, ◌+◌, Bool, true, false, not, ltb, ◌==◌, if◌then◌else◌, update,
}
use cpp_exchange.Outcome.{Outcome, ok, exited, undefined, out_of_fuel, ◌>>=◌, ◌>>◌, assert}

pub record ObjectBlock (T : Type 0) : Type 0 where
  pub object : T
  pub available : Bool

-- `store` is a vector of `size` blocks. A pointer to an object is the index of its block.
pub record ObjectPool (T : Type 0) : Type 0 where
  pub store : ℕ → ObjectBlock T
  pub size : ℕ
  pub next_free : ℕ

-- `++next_free`, going round at the end of the store.
unfoldable pub next_index : ℕ → ℕ → ℕ
next_index size next_free = if (next_free + 1) == size then 0 else next_free + 1

module _ {T : Type 0} where
  -- `object` is the value that `T()` makes.
  unfoldable pub create : ℕ → T → ObjectPool T
  create size object = record {
    store = λ _. record { object = object; available = true };
    size = size;
    next_free = 0;
  }

  -- The loop of `updateNextFree`, begun at `prev_free`. Each round but the last moves on by one, so
  -- that `size` rounds are enough.
  unfoldable pub find_free : ℕ → (ℕ → ObjectBlock T) → (size prev_free next_free : ℕ) → Outcome ℕ
  unfolding next_index
  find_free zero store size prev_free next_free = out_of_fuel
  find_free (suc fuel) store size prev_free next_free =
      let moved = next_index size next_free in
      let rest = find_free fuel store size prev_free moved in
      if (store next_free).available
      then ok next_free
      else if moved == prev_free
      then exited
      else rest

  unfoldable pub update_next_free : ObjectPool T → Outcome (ObjectPool T)
  update_next_free p = do
    next ← find_free p.size p.store p.size p.next_free p.next_free
    ok (record p { next_free = next })

  -- `object` is what the constructor of `T` makes of the arguments.
  unfoldable pub get_object : ObjectPool T → T → Outcome (ℕ × ObjectPool T)
  unfolding update_next_free
  get_object p object = if not (ltb p.next_free p.size) then undefined else do
    assert (p.store p.next_free).available
    let taken : ObjectBlock T = record { object = object; available = false }
    p' ← update_next_free (record p { store = update p.store p.next_free taken })
    ok (p.next_free, p')

  unfoldable pub release_object : ObjectPool T → ℕ → Outcome (ObjectPool T)
  release_object p i = do
    assert (ltb i p.size)
    assert (not (p.store i).available)
    let freed : ObjectBlock T = record { object = (p.store i).object; available = true }
    ok (record p { store = update p.store i freed })
