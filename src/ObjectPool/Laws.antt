-- ===== src/ObjectPool/Laws.antt =====
-- utils/object_pool.h: `getObject` and `releaseObject` on a pool in good order.
use cpp_exchange.Prelude.{
  mod_cases, ◌%◌, ◌⊎◌, ℕ, ◌+◌, ◌≤◌, ◌<◌, ◌≡◌, refl, ap, arith, true, false, update, ◌≢◌, ltb,
  update_self, update_ne,
}
use cpp_exchange.Outcome.{ok, exited}
use cpp_exchange.ObjectPool.{ObjectBlock, ObjectPool, find_free, create, get_object, release_object}
use cpp_exchange.ObjectPool.Search.{place, place_of, find_free_found, find_free_none}
use cpp_exchange.ObjectPool.Blocks.{
  bit, free_below, free_below-update, available_of_count, taken_of_count,
}

module _ {T : Type 0} where
  -- The block that is handed out next exists and is available.
  pub record IsValid (p : ObjectPool T) : Type 0 where
    pub next_in : p.next_free < p.size
    pub next_available : (p.store p.next_free).available ≡ true

  abbrev pub free_count : ObjectPool T → ℕ
  free_count p = free_below p.store p.size

  -- A new pool of at least one block is valid.
  pub create-IsValid : (n : ℕ) (d : T) → 0 < n → IsValid (create n d)
  unfolding create
  create-IsValid n d h = record { next_in = h; next_available = refl }

  taken_store : ObjectPool T → T → ℕ → ObjectBlock T
  taken_store p v = update p.store p.next_free (record { object = v; available = false })

  free_below-taken :
      (p : ObjectPool T) (v : T)
      → IsValid p
      → free_below (taken_store p v) p.size + 1 ≡ free_count p
  unfolding taken_store
  free_below-taken p v valid = omega (
    arith,
    ap bit valid.next_available,
    free_below-update p.store p.size p.next_free (record { object = v; available = false })
        valid.next_in,
  )

  get_object_of_find :
      (p : ObjectPool T) (v : T) (n : ℕ)
      → IsValid p
      → find_free p.size (taken_store p v) p.size p.next_free p.next_free ≡ ok n
      → get_object p v ≡ ok (p.next_free, record p { store = taken_store p v; next_free = n })
  unfolding get_object taken_store
  get_object_of_find p v n valid e = rw (in_range, valid.next_available, e)
    where
      in_range : ltb p.next_free p.size ≡ true
      in_range = ground arith

  get_object_of_none :
      (p : ObjectPool T) (v : T)
      → IsValid p
      → find_free p.size (taken_store p v) p.size p.next_free p.next_free ≡ exited
      → get_object p v ≡ exited
  unfolding get_object taken_store
  get_object_of_none p v valid e = rw (in_range, valid.next_available, e)
    where
      in_range : ltb p.next_free p.size ≡ true
      in_range = ground arith

  -- What `getObject` promises: the block `i` of `p` was free, and holds `v` in `p'`; every other
  -- block is as it was, one block less is available, and `p'` is valid.
  pub record Taken (p : ObjectPool T) (v : T) (i : ℕ) (p' : ObjectPool T) : Type 0 where
    pub was_free : (p.store i).available ≡ true
    pub holds : p'.store i ≡ record { object = v; available = false }
    pub others : (j : ℕ) → j ≢ i → p'.store j ≡ p.store j
    pub size_same : p'.size ≡ p.size
    pub one_less : free_count p' + 1 ≡ free_count p
    pub valid : IsValid p'

  start : (p : ObjectPool T) → IsValid p → (p.next_free + 0) % p.size ≡ p.next_free
  start p valid = omega (arith, mod_cases (p.next_free + 0) p.size (omega arith))

  -- `getObject` on a valid pool with two blocks to spare hands out the block `next_free`.
  pub get_object-Taken :
      (p : ObjectPool T) (v : T)
      → IsValid p
      → 2 ≤ free_count p
      → (p' : ObjectPool T) × (get_object p v ≡ ok (p.next_free, p')) × Taken p v p.next_free p'
  unfolding taken_store
  get_object-Taken p v valid room =
      let (j, below, free) =
        available_of_count (taken_store p v) p.size (omega (arith, free_below-taken p v valid)) in
      let (d, d_in, at) = place_of p.size p.next_free valid.next_in j below in
      let (n, found, n_in, n_free) =
        find_free_found p.size p.next_free valid.next_in (taken_store p v) p.size 0 d (omega arith)
          d_in (omega arith) (rw at free) in
      (
        record p { store = taken_store p v; next_free = n },
        get_object_of_find p v n valid (rw (start p valid) at found),
        record {
          was_free = valid.next_available;
          holds = update_self p.store p.next_free (record { object = v; available = false });
          others =
              λ k ne. update_ne p.store p.next_free k (record { object = v; available = false }) ne;
          size_same = refl;
          one_less = free_below-taken p v valid;
          valid = record { next_in = n_in; next_available = n_free };
        },
      )

  -- `getObject` on a valid pool whose only available block is the next one ends the process.
  pub get_object_last :
      (p : ObjectPool T) (v : T) → IsValid p → free_count p ≡ 1 → get_object p v ≡ exited
  get_object_last p v valid one = get_object_of_none p v valid (
      rw (start p valid) at (
        find_free_none p.size p.next_free valid.next_in (taken_store p v) p.size 0 (omega arith)
          (omega arith)
          (λ e h.
            taken_of_count (taken_store p v) p.size (place p.size p.next_free valid.next_in e)
              (omega (arith, free_below-taken p v valid))
              (omega (arith, mod_cases (p.next_free + e) p.size (omega arith))))))

  -- `releaseObject` of a block that is handed out makes it available, with its object left as it
  -- was; nothing else changes, and the pool stays valid.
  pub release_object_lem :
      (p : ObjectPool T) (i : ℕ)
      → IsValid p
      → i < p.size
      → (p.store i).available ≡ false
      → (p' : ObjectPool T) × (release_object p i ≡ ok p')
        × (p'.store i ≡ record { object = (p.store i).object; available = true })
        × ((j : ℕ) → j ≢ i → p'.store j ≡ p.store j)
        × (free_count p' ≡ free_count p + 1)
        × IsValid p'
  unfolding release_object
  release_object_lem p i valid below taken =
      let freed : ObjectBlock T = record { object = (p.store i).object; available = true } in
      (
        record p { store = update p.store i freed },
        ground arith,
        update_self p.store i freed,
        λ j ne. update_ne p.store i j freed ne,
        omega (arith, free_below-update p.store p.size i freed below, ap bit taken),
        record { next_in = valid.next_in; next_available = ground arith },
      )

  -- A block that is already available, or that is none of the pool's, is refused by ASSERT.
  pub release_object_refused :
      (p : ObjectPool T) (i : ℕ)
      → (p.size ≤ i) ⊎ ((p.store i).available ≡ true)
      → release_object p i ≡ exited
  unfolding release_object
  release_object_refused p i bad = ground arith
