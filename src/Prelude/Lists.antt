-- ===== src/Prelude/Lists.antt =====
-- Lists measured and indexed by native numbers, membership and distinctness of addresses, and a
-- memory as a function with its update.
use Prim.Native.Nat.{ℕ, suc, ◌+◌}
use mathlib.Core.Path.{◌≡◌, refl, sym, ap}
use mathlib.Core.Logic.{◌≢◌}
use mathlib.Core.List.{List, [], ◌∷◌, ◌++◌, map}
use native.Mathlib.Omega.{arith}
use cpp_exchange.Prelude.Tests.{◌==◌, if◌then◌else◌}

module _ {ℓ} {A : Type ℓ} where
  abbrev pub length : List A → ℕ
  length [] = 0
  length (x ∷ xs) = suc (length xs)

  -- The memory `f` after a write of `v` at the address `p`.
  abbrev pub update : (ℕ → A) → ℕ → A → ℕ → A
  update f p v q = if q == p then v else f q

  pub length-append : (xs ys : List A) → length (xs ++ ys) ≡ length xs + length ys
  length-append [] ys = omega arith
  length-append (x ∷ xs) ys = omega (arith, length-append xs ys)

  pub update_self : (f : ℕ → A) (p : ℕ) (v : A) → update f p v p ≡ v
  update_self f p v = ground arith

  pub update_ne : (f : ℕ → A) (p q : ℕ) (v : A) → q ≢ p → update f p v q ≡ f q
  update_ne f p q v h = ground arith

pub length-map {ℓ κ} :
    {A : Type ℓ} {B : Type κ} (xs : List A) (f : A → B) → length (map f xs) ≡ length xs
length-map [] f = refl
length-map (x ∷ xs) f = ap suc (length-map xs f)

-- `a` is none of the addresses `xs`.
abbrev pub Fresh : ℕ → List ℕ → Type 0
Fresh a [] = Unit {0}
Fresh a (x ∷ xs) = (a ≢ x) × Fresh a xs

-- The addresses `xs` are distinct.
abbrev pub Distinct : List ℕ → Type 0
Distinct [] = Unit {0}
Distinct (x ∷ xs) = Fresh x xs × Distinct xs

pub Fresh-append : (a : ℕ) (xs ys : List ℕ) → Fresh a xs → Fresh a ys → Fresh a (xs ++ ys)
Fresh-append a [] ys h k = k
Fresh-append a (x ∷ xs) ys h k = (h.0, Fresh-append a xs ys h.1 k)

pub Fresh-left : (a : ℕ) (xs ys : List ℕ) → Fresh a (xs ++ ys) → Fresh a xs
Fresh-left a [] ys h = tt
Fresh-left a (x ∷ xs) ys h = (h.0, Fresh-left a xs ys h.1)

pub Fresh-right : (a : ℕ) (xs ys : List ℕ) → Fresh a (xs ++ ys) → Fresh a ys
Fresh-right a [] ys h = h
Fresh-right a (x ∷ xs) ys h = Fresh-right a xs ys h.1

-- Every element satisfies `P`.
abbrev pub All {ℓ κ} : {A : Type ℓ} → (A → Type κ) → List A → Type κ
All P [] = Unit
All P (x ∷ xs) = P x × All P xs

-- No address of `xs` is one of `ys`.
abbrev pub Apart : List ℕ → List ℕ → Type 0
Apart xs ys = All (λ x. Fresh x ys) xs

-- The last of the addresses `a ∷ xs`.
abbrev pub last : ℕ → List ℕ → ℕ
last a [] = a
last a (x ∷ xs) = last x xs

pub All-last {κ} : (P : ℕ → Type κ) (a : ℕ) (xs : List ℕ) → P a → All P xs → P (last a xs)
All-last P a [] p ps = p
All-last P a (x ∷ xs) p ps = All-last P x xs ps.0 ps.1

pub last-append : (a x : ℕ) (xs ys : List ℕ) → last a (xs ++ x ∷ ys) ≡ last x ys
last-append a x [] ys = refl
last-append a x (y ∷ xs) ys = last-append y x xs ys

pub ne_last : (x a : ℕ) (xs : List ℕ) → x ≢ a → Fresh x xs → x ≢ last a xs
ne_last x a [] n h = n
ne_last x a (y ∷ xs) n h = ne_last x y xs h.0 h.1

pub Apart-nil : (xs : List ℕ) → Apart xs []
Apart-nil [] = tt
Apart-nil (x ∷ xs) = (tt, Apart-nil xs)

pub Fresh-of_Apart : (y : ℕ) (xs ys : List ℕ) → Apart xs (y ∷ ys) → Fresh y xs
Fresh-of_Apart y [] ys h = tt
Fresh-of_Apart y (x ∷ xs) ys h = (λ e. h.0.0 (sym e), Fresh-of_Apart y xs ys h.1)

pub Apart-tail : (y : ℕ) (xs ys : List ℕ) → Apart xs (y ∷ ys) → Apart xs ys
Apart-tail y [] ys h = tt
Apart-tail y (x ∷ xs) ys h = (h.0.1, Apart-tail y xs ys h.1)

pub Apart-sym : (xs ys : List ℕ) → Apart xs ys → Apart ys xs
Apart-sym xs [] h = tt
Apart-sym xs (y ∷ ys) h = (Fresh-of_Apart y xs ys h, Apart-sym xs ys (Apart-tail y xs ys h))

pub Distinct-parts :
    (xs ys : List ℕ) → Distinct (xs ++ ys) → Distinct xs × Apart xs ys × Distinct ys
Distinct-parts [] ys d = (tt, tt, d)
Distinct-parts (x ∷ xs) ys d =
    let (dx, ap, dy) = Distinct-parts xs ys d.1 in
    ((Fresh-left x xs ys d.0, dx), (Fresh-right x xs ys d.0, ap), dy)

pub Distinct-join : (xs ys : List ℕ) → Distinct xs → Apart xs ys → Distinct ys → Distinct (xs ++ ys)
Distinct-join [] ys dx ap dy = dy
Distinct-join (x ∷ xs) ys dx ap dy =
    (Fresh-append x xs ys dx.0 ap.0, Distinct-join xs ys dx.1 ap.1 dy)

Apart-single : (x : ℕ) (xs : List ℕ) → Fresh x xs → Apart xs (x ∷ [])
Apart-single x [] f = tt
Apart-single x (y ∷ xs) f = ((λ e. f.0 (sym e), tt), Apart-single x xs f.1)

pub Distinct-snoc : (x : ℕ) (xs : List ℕ) → Fresh x xs → Distinct xs → Distinct (xs ++ x ∷ [])
Distinct-snoc x xs f d = Distinct-join xs (x ∷ []) d (Apart-single x xs f) (tt, tt)

module _ {ℓ κ} {A : Type ℓ} (P : A → Type κ) where
  pub All-append : (xs ys : List A) → All P xs → All P ys → All P (xs ++ ys)
  All-append [] ys h k = k
  All-append (x ∷ xs) ys h k = (h.0, All-append xs ys h.1 k)

  pub All-parts : (xs ys : List A) → All P (xs ++ ys) → All P xs × All P ys
  All-parts [] ys h = (tt, h)
  All-parts (x ∷ xs) ys h = let (front, back) = All-parts xs ys h.1 in ((h.0, front), back)
