-- ===== src/Prelude/Modular.antt =====
-- Indices that go round at the end of a vector.
use Prim.Native.Nat.{ℕ, ◌+◌, ◌-◌, ◌%◌, ◌≤◌, ◌<◌}
use mathlib.Core.Path.{◌≡◌, ◌∙◌}
use mathlib.Core.Logic.{◌≢◌, ◌⊎◌, inl, inr}
use native.Mathlib.Nat.{mod-eq_of_lt, mod-eq-sub-mod}
use native.Mathlib.Decide.{dec_lt}
use native.Mathlib.Omega.{arith}

-- Going round at `s` once at most.
pub mod_cases : (a s : ℕ) → a < s + s → ((a < s) × (a % s ≡ a)) ⊎ ((s ≤ a) × (a % s ≡ a - s))
mod_cases a s h = elim (dec_lt a s) [
  | yes p ↦ inl (p, mod-eq_of_lt p)
  | no p ↦
      inr (omega arith, mod-eq-sub-mod {n = a} {m = s} (omega arith) ∙ mod-eq_of_lt (omega arith))
]

-- Distinct offsets below `s` are distinct indices.
pub offset_ne : (s h j k : ℕ) → h < s → j < k → k < s → (h + j) % s ≢ (h + k) % s
offset_ne s h j k hs jk ks =
    omega (arith, mod_cases (h + j) s (omega arith), mod_cases (h + k) s (omega arith))
