-- ===== src/PriceLevel/Ring.antt =====
-- cppexchange/order.h: what the pointers of a price level stand for, a circular doubly linked
-- list of distinct orders.
use cpp_exchange.Prelude.{
  All, ap, ◌∙◌, ℕ, ◌≡◌, ◌≢◌, sym, some, none, List, [], ◌∷◌, ◌++◌, arith, Fresh, Distinct, last,
  ne_last,
}
use cpp_exchange.Order.{Ptr, Order, Orders, set_next, set_previous}

-- From `a` the `next` pointers lead through `l`, and the `previous` pointers back.
abbrev pub Chain : Orders → ℕ → List ℕ → Type 0
Chain h a [] = Unit {0}
Chain h a (b ∷ l) = ((h a).next ≡ some b) × ((h b).previous ≡ some a) × Chain h b l

-- The orders at the addresses `l`, in time order, make the ring at `top`.
abbrev pub Ring : Orders → Ptr → List ℕ → Type 0
Ring h top [] = top ≡ none
Ring h top (a ∷ l) = (top ≡ some a) × Chain h a (l ++ a ∷ []) × Distinct (a ∷ l)

-- The addresses whose `next` pointers a chain runs along.
abbrev pub sources : ℕ → List ℕ → List ℕ
sources a [] = []
sources a (b ∷ l) = a ∷ sources b l

pub Fresh-sources : (x a : ℕ) (l : List ℕ) → x ≢ a → Fresh x l → Fresh x (sources a l)
Fresh-sources x a [] n h = tt
Fresh-sources x a (b ∷ l) n h = (n, Fresh-sources x b l h.0 h.1)

pub Fresh-sources_snoc :
    (x a z : ℕ) (l : List ℕ) → x ≢ a → Fresh x l → Fresh x (sources a (l ++ z ∷ []))
Fresh-sources_snoc x a z [] n h = (n, tt)
Fresh-sources_snoc x a z (b ∷ l) n h = (n, Fresh-sources_snoc x b z l h.0 h.1)

-- The last of distinct addresses is no source of the chain that leads to it.
pub last-sources : (a : ℕ) (l : List ℕ) → Distinct (a ∷ l) → Fresh (last a l) (sources a l)
last-sources a [] d = tt
last-sources a (b ∷ l) d = (λ e. ne_last a b l d.0.0 d.0.1 (sym e), last-sources b l d.1)

module _ (h : Orders) where
  pub Chain-append :
      (a : ℕ) (l m : List ℕ) → Chain h a l → Chain h (last a l) m → Chain h a (l ++ m)
  Chain-append a [] m c d = d
  Chain-append a (b ∷ l) m c d = (c.0, c.1, Chain-append b l m c.2 d)

  pub Chain-parts : (a : ℕ) (l m : List ℕ) → Chain h a (l ++ m) → Chain h a l × Chain h (last a l) m
  Chain-parts a [] m c = (tt, c)
  Chain-parts a (b ∷ l) m c = let (front, back) = Chain-parts b l m c.2 in ((c.0, c.1, front), back)

  -- A write to a `next` pointer that the chain does not run along leaves it alone.
  pub Chain-set_next :
      (x : ℕ) (p : Ptr) (a : ℕ) (l : List ℕ)
      → Fresh x (sources a l)
      → Chain h a l
      → Chain (set_next h x p) a l
  Chain-set_next x p a [] f c = tt
  Chain-set_next x p a (b ∷ l) f c = (ground arith, ground arith, Chain-set_next x p b l f.1 c.2)

  -- A write to a `previous` pointer of an order that the chain does not enter leaves it alone.
  pub Chain-set_previous :
      (x : ℕ) (p : Ptr) (a : ℕ) (l : List ℕ)
      → Fresh x l
      → Chain h a l
      → Chain (set_previous h x p) a l
  Chain-set_previous x p a [] f c = tt
  Chain-set_previous x p a (b ∷ l) f c =
      (ground arith, ground arith, Chain-set_previous x p b l f.1 c.2)

-- `g` has the pointers of `h`.
pub record SamePointers (h g : Orders) : Type 0 where
  pub next_same : (b : ℕ) → (g b).next ≡ (h b).next
  pub previous_same : (b : ℕ) → (g b).previous ≡ (h b).previous

Chain-of_pointers :
    {h g : Orders} (s : SamePointers h g) (a : ℕ) (l : List ℕ) → Chain h a l → Chain g a l
Chain-of_pointers s a [] c = tt
Chain-of_pointers s a (b ∷ l) c =
    (s.next_same a ∙ c.0, s.previous_same b ∙ c.1, Chain-of_pointers s b l c.2)

-- A ring is made of pointers only.
pub Ring-of_pointers :
    {h g : Orders} (s : SamePointers h g) (t : Ptr) (l : List ℕ) → Ring h t l → Ring g t l
Ring-of_pointers s t [] r = r
Ring-of_pointers s t (a ∷ l) r = (r.0, Chain-of_pointers s a (l ++ a ∷ []) r.1, r.2)

Chain-of_All :
    (h g : Orders) (a : ℕ) (l : List ℕ)
    → g a ≡ h a
    → All (λ b. g b ≡ h b) l
    → Chain h a l
    → Chain g a l
Chain-of_All h g a [] e s c = tt
Chain-of_All h g a (b ∷ l) e s c =
    (ap Order.next e ∙ c.0, ap Order.previous s.0 ∙ c.1, Chain-of_All h g b l s.0 s.1 c.2)

All-snoc {κ} : (P : ℕ → Type κ) (l : List ℕ) (z : ℕ) → P z → All P l → All P (l ++ z ∷ [])
All-snoc P [] z p ps = (p, tt)
All-snoc P (b ∷ l) z p ps = (ps.0, All-snoc P l z p ps.1)

-- A ring depends on no order but its own.
pub Ring-of_All :
    (h g : Orders) (t : Ptr) (l : List ℕ) → All (λ b. g b ≡ h b) l → Ring h t l → Ring g t l
Ring-of_All h g t [] s r = r
Ring-of_All h g t (a ∷ l) s r =
    (r.0, Chain-of_All h g a (l ++ a ∷ []) s.0 (All-snoc (λ b. g b ≡ h b) l a s.0 s.1) r.1, r.2)

-- An order without its pointers: what a ring means does not depend on them.
abbrev pub detach : Order → Order
detach o = record o { previous = none; next = none }

-- `g` differs from `h` in pointers only.
abbrev pub SamePayload : Orders → Orders → Type 0
SamePayload h g = (b : ℕ) → detach (g b) ≡ detach (h b)

-- `g` differs from `h` only at the addresses `l`.
abbrev pub SameOutside : List ℕ → Orders → Orders → Type 0
SameOutside l h g = (b : ℕ) → Fresh b l → g b ≡ h b

pub detach-set_next :
    (h : Orders) (x : ℕ) (p : Ptr) (b : ℕ) → detach (set_next h x p b) ≡ detach (h b)
detach-set_next h x p b = ground arith

pub detach-set_previous :
    (h : Orders) (x : ℕ) (p : Ptr) (b : ℕ) → detach (set_previous h x p b) ≡ detach (h b)
detach-set_previous h x p b = ground arith
