-- ===== src/ObjectPool/Search.antt =====
-- utils/object_pool.h: the search of `updateNextFree` for a block that is available.
use native.Mathlib.Decide.{ℕ_discrete, dec_lt}
use cpp_exchange.Prelude.{
  ℕ, zero, suc, ◌+◌, ◌-◌, ◌%◌, ◌≤◌, ◌<◌, ◌≡◌, ap, arith, true, false, Bool-cases, inl, inr,
  mod_cases, offset_ne, ◌==◌, ◌≢◌,
}
use cpp_exchange.Outcome.{ok, exited}
use cpp_exchange.ObjectPool.{ObjectBlock, next_index, find_free}

module _ (size prev : ℕ) (prev_in : prev < size) where
  -- The place that the search reaches after `d` moves.
  abbrev pub place : ℕ → ℕ
  place d = (prev + d) % size

  next_index-place : (d : ℕ) → d < size → next_index size (place d) ≡ place (d + 1)
  unfolding next_index
  next_index-place d h = ground (
    arith,
    mod_cases (prev + d) size (omega arith),
    mod_cases (prev + (d + 1)) size (omega arith),
  )

  -- The search is back at its start after `size` moves, and not before.
  place_end : place size ≡ prev
  place_end = omega (arith, mod_cases (prev + size) size (omega arith))

  round_trip : (d : ℕ) → d + 1 ≡ size → (place (d + 1) == prev) ≡ true
  round_trip d h = ground (arith, place_end, ap place h)

  place_ne : (d : ℕ) → 0 < d → d < size → place d ≢ prev
  place_ne d h k e =
      offset_ne size prev 0 d prev_in h k (omega (arith, mod_cases (prev + 0) size (omega arith)))

  place_test : (d : ℕ) → d + 1 < size → (place (d + 1) == prev) ≡ false
  place_test d h = ground (arith, place_ne (d + 1) (omega arith) h)

  -- Every index is a place.
  pub place_of : (j : ℕ) → j < size → (d : ℕ) × (d < size) × (place d ≡ j)
  place_of j h = (
    (j + (size - prev)) % size,
    omega (arith, mod_cases (j + (size - prev)) size (omega arith)),
    omega (
      arith,
      mod_cases (j + (size - prev)) size (omega arith),
      mod_cases (prev + (j + (size - prev)) % size) size
          (omega (arith, mod_cases (j + (size - prev)) size (omega arith))),
    ),
  )

  module _ {T : Type 0} (store : ℕ → ObjectBlock T) where
    -- With an available block further on, the search returns an available block.
    pub find_free_found :
        (fuel d e : ℕ)
        → d ≤ e
        → e < size
        → size ≤ fuel + d
        → (store (place e)).available ≡ true
        → (n : ℕ) × (find_free fuel store size prev (place d) ≡ ok n)
          × (n < size)
          × ((store n).available ≡ true)
    unfolding find_free
    find_free_found zero d e de es fd h = absurd (omega arith)
    find_free_found (suc fuel) d e de es fd h = elim (Bool-cases (store (place d)).available) [
      | inl here ↦ (place d, rw here, omega (arith, mod_cases (prev + d) size (omega arith)), here)
      | inr taken ↦ elim (ℕ_discrete d e) [
        | yes same ↦ cc (ap (λ (k : ℕ). (store (place k)).available) same)
        | no ne ↦
            rw (taken, next_index-place d (omega arith), place_test d (omega arith))
              (find_free_found fuel (d + 1) e (omega arith) es (omega arith) h)
      ]
    ]

    -- With none, the search ends the process.
    pub find_free_none :
        (fuel d : ℕ)
        → d < size
        → size ≤ fuel + d
        → ((e : ℕ) → e < size → (store (place e)).available ≡ false)
        → find_free fuel store size prev (place d) ≡ exited
    unfolding find_free
    find_free_none zero d ds fd h = absurd (omega arith)
    find_free_none (suc fuel) d ds fd h = elim (dec_lt (d + 1) size) [
      | yes more ↦
          rw (h d ds, next_index-place d ds, place_test d more)
            (find_free_none fuel (d + 1) more (omega arith) h)
      | no last ↦ rw (h d ds, next_index-place d ds, round_trip d (omega arith))
    ]
