-- ===== src/Outcome.antt =====
-- How a run of the program ends: include/utils/macros.h, and what the language leaves undefined.
use cpp_exchange.Prelude.{◌≡◌, refl, Bool, true, false}

-- `ok`: the call returns. `exited`: ASSERT or FATAL ended the process. `undefined`: the code
-- dereferenced a null pointer or indexed a vector out of range. `out_of_fuel`: the bound that the
-- model puts on a loop was met.
pub data Outcome {ℓ} (A : Type ℓ) : Type ℓ where
  ok : A → Outcome A
  exited : Outcome A
  undefined : Outcome A
  out_of_fuel : Outcome A

-- A process that has ended runs nothing more.
infixl 5 ◌>>=◌
abbrev pub ◌>>=◌ {ℓ κ} : {S : Type ℓ} {T : Type κ} → Outcome S → (S → Outcome T) → Outcome T
ok value >>= next = next value
out_of_fuel >>= next = out_of_fuel
undefined >>= next = undefined
exited >>= next = exited

-- A statement, and what follows it.
infixl 5 ◌>>◌
abbrev pub ◌>>◌ {κ} : {T : Type κ} → Outcome (Unit {0}) → Outcome T → Outcome T
statement >> following = statement >>= λ _. following

-- The message that ASSERT prints before it exits is not modelled.
abbrev pub assert : Bool → Outcome (Unit {0})
assert true = ok tt
assert false = exited

abbrev pub fatal {ℓ} : {A : Type ℓ} → Outcome A
fatal = exited

-- What a call that returns is made of: its first part returns, and so does the rest on its value.
pub ok-parts {ℓ κ} :
    {T : Type κ} {result : T} {S : Type ℓ} (next : S → Outcome T) (first : Outcome S)
    → (first >>= next) ≡ ok result
    → (value : S) × (first ≡ ok value) × (next value ≡ ok result)
ok-parts next out_of_fuel returned = cc
ok-parts next undefined returned = cc
ok-parts next exited returned = cc
ok-parts next (ok value) returned = (value, refl, returned)
