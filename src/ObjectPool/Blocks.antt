-- ===== src/ObjectPool/Blocks.antt =====
-- utils/object_pool.h: how many blocks of a store are available.
use native.Mathlib.Decide.{ℕ_discrete}
use cpp_exchange.Prelude.{
  ℕ, zero, suc, ◌+◌, ◌≤◌, ◌<◌, ◌≡◌, refl, arith, true, false, Bool, Bool-cases, inl, inr, update,
  update_ne, update_self, ap,
}
use cpp_exchange.ObjectPool.{ObjectBlock}

abbrev pub bit : Bool → ℕ
bit true = 1
bit false = 0

module _ {T : Type 0} where
  -- The number of available blocks among the first `n`.
  abbrev pub free_below : (ℕ → ObjectBlock T) → ℕ → ℕ
  free_below store zero = 0
  free_below store (suc n) = bit (store n).available + free_below store n

  -- A write above the counted blocks does not count.
  free_below_above :
      (store : ℕ → ObjectBlock T) (n i : ℕ) (b : ObjectBlock T)
      → n ≤ i
      → free_below (update store i b) n ≡ free_below store n
  free_below_above store zero i b h = refl
  free_below_above store (suc n) i b h = omega (
    arith,
    free_below_above store n i b (omega arith),
    ap (λ (c : ObjectBlock T). bit c.available) (update_ne store i n b (omega arith)),
  )

  -- A write exchanges the old block's share of the count for the new one's.
  pub free_below-update :
      (store : ℕ → ObjectBlock T) (n i : ℕ) (b : ObjectBlock T)
      → i < n
      → free_below (update store i b) n + bit (store i).available
        ≡ free_below store n + bit b.available
  free_below-update store zero i b h = absurd (omega arith)
  free_below-update store (suc n) i b h = elim (ℕ_discrete i n) [
    | yes same ↦ omega (
      arith,
      free_below_above store n i b (omega arith),
      ap (λ (c : ObjectBlock T). bit c.available) (update_self store i b),
      ap (λ (k : ℕ). bit (update store i b k).available) same,
      ap (λ (k : ℕ). bit (store k).available) same,
    )
    | no ne ↦ omega (
      arith,
      free_below-update store n i b (omega arith),
      ap (λ (c : ObjectBlock T). bit c.available) (update_ne store i n b (omega arith)),
    )
  ]

  -- A positive count has an available block.
  pub available_of_count :
      (store : ℕ → ObjectBlock T) (n : ℕ)
      → 0 < free_below store n
      → (j : ℕ) × (j < n) × ((store j).available ≡ true)
  available_of_count store zero h = absurd (omega arith)
  available_of_count store (suc n) h = elim (Bool-cases (store n).available) [
    | inl here ↦ (n, omega arith, here)
    | inr taken ↦
        let (j, below, free) = available_of_count store n (omega (arith, ap bit taken)) in
        (j, omega arith, free)
  ]

  -- With the count at zero no block is available.
  pub taken_of_count :
      (store : ℕ → ObjectBlock T) (n j : ℕ)
      → free_below store n ≡ 0
      → j < n
      → (store j).available ≡ false
  taken_of_count store zero j e h = absurd (omega arith)
  taken_of_count store (suc n) j e h = elim (ℕ_discrete j n) [
    | yes same ↦ rw same (ground arith)
    | no ne ↦ taken_of_count store n j (omega arith) (omega arith)
  ]

  pub count_pos :
      (store : ℕ → ObjectBlock T) (n j : ℕ)
      → j < n
      → (store j).available ≡ true
      → 0 < free_below store n
  count_pos store zero j h a = absurd (omega arith)
  count_pos store (suc n) j h a = elim (ℕ_discrete j n) [
    | yes same ↦ omega (arith, ap bit (rw same at a))
    | no ne ↦ omega (arith, count_pos store n j (omega arith) a)
  ]
