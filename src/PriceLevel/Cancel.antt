-- ===== src/PriceLevel/Cancel.antt =====
-- cppexchange/order.h: `cancel` looks for an order by its ID, and takes the first that has it out
-- of the ring.
use mathlib.Core.Path.{subst₂}
use cpp_exchange.Prelude.{
  ℕ, zero, suc, ◌<◌, ◌≡◌, ◌≢◌, sym, ap, ◌∙◌, some, none, List, [], ◌∷◌, ◌++◌, arith, Distinct, last,
  length, true, false, Bool-cases, inl, inr, if◌then◌else◌, ◌==◌, Option, subst, ne_last, eq_self,
}
use cpp_exchange.Outcome.{Outcome, ok, ◌>>=◌}
use cpp_exchange.Order.{Ptr, Orders}
use cpp_exchange.PriceLevel.{PriceLevel, cancel, find_order, unlink}
use cpp_exchange.PriceLevel.Ring.{Chain, Ring, Chain-parts}
use cpp_exchange.PriceLevel.Unlink.{Removed, unlink-only, unlink-first, unlink-behind}

module _ (h : Orders) (order_id : ℕ) where
  -- The first of the orders `l` with the ID.
  abbrev pub find_id : List ℕ → Option ℕ
  find_id [] = none
  find_id (c ∷ l) = if (h c).order_id == order_id then some c else find_id l

  -- The orders `l` without the first that has the ID.
  abbrev pub remove_id : List ℕ → List ℕ
  remove_id [] = []
  remove_id (c ∷ l) = if (h c).order_id == order_id then l else c ∷ remove_id l

  -- Where the order found stands.
  pub record Split (y : ℕ) (l : List ℕ) : Type 0 where
    pub before : List ℕ
    pub behind : List ℕ
    pub parts : l ≡ before ++ y ∷ behind
    pub rest : remove_id l ≡ before ++ behind
    pub matches : ((h y).order_id == order_id) ≡ true

  pub find_id-Split : (l : List ℕ) (y : ℕ) → find_id l ≡ some y → Split y l
  find_id-Split [] y e = cc e
  find_id-Split (c ∷ l) y e = elim (Bool-cases ((h c).order_id == order_id)) [
    | inl hit ↦
        let same : c ≡ y = ground arith in
        record {
          before = [];
          behind = l;
          parts = ap (λ (k : ℕ). k ∷ l) same;
          rest = rw hit;
          matches = subst (λ (k : ℕ). ((h k).order_id == order_id) ≡ true) same hit;
        }
    | inr miss ↦
        let s = find_id-Split l y (rw miss at e) in
        record {
          before = c ∷ s.before;
          behind = s.behind;
          parts = ap (λ (k : List ℕ). c ∷ k) s.parts;
          rest = rw miss (ap (λ (k : List ℕ). c ∷ k) s.rest);
          matches = s.matches;
        }
  ]

  -- With no match the last order has another ID.
  last-misses :
      (c : ℕ) (l : List ℕ) → find_id (c ∷ l) ≡ none → ((h (last c l)).order_id == order_id) ≡ false
  last-misses c [] e = elim (Bool-cases ((h c).order_id == order_id)) [
    | inl hit ↦ cc (rw hit at e)
    | inr miss ↦ miss
  ]
  last-misses c (d ∷ l) e = elim (Bool-cases ((h c).order_id == order_id)) [
    | inl hit ↦ cc (rw hit at e)
    | inr miss ↦ last-misses d l (rw miss at e)
  ]

  module _ (top : ℕ) where
    stop_at_match :
        (fuel c : ℕ)
        → ((h c).order_id == order_id) ≡ true
        → find_order (suc fuel) h top order_id c ≡ ok c
    unfolding find_order
    stop_at_match fuel c hit = rw hit

    stop_at_last :
        (fuel c : ℕ) → (h top).previous ≡ some c → find_order (suc fuel) h top order_id c ≡ ok c
    unfolding find_order
    stop_at_last fuel c back = ground (arith, eq_self c)

    go_on :
        (fuel c z n : ℕ)
        → ((h c).order_id == order_id) ≡ false
        → (h top).previous ≡ some z
        → c ≢ z
        → (h c).next ≡ some n
        → find_order (suc fuel) h top order_id c ≡ find_order fuel h top order_id n
    unfolding find_order
    go_on fuel c z n miss back ne next = ground arith

    -- The loop stops at the first match.
    find_order_found :
        (fuel c y : ℕ) (l : List ℕ)
        → find_id (c ∷ l) ≡ some y
        → Chain h c l
        → (h top).previous ≡ some (last c l)
        → Distinct (c ∷ l)
        → length l < fuel
        → find_order fuel h top order_id c ≡ ok y
    find_order_found zero c y l e chain back d f = absurd (omega arith)
    find_order_found (suc fuel) c y [] e chain back d f =
        elim (Bool-cases ((h c).order_id == order_id)) [
          | inl hit ↦ stop_at_match fuel c hit ∙ ap ok (cc (rw hit at e))
          | inr miss ↦ cc (rw miss at e)
        ]
    find_order_found (suc fuel) c y (n ∷ l) e chain back d f =
        elim (Bool-cases ((h c).order_id == order_id)) [
          | inl hit ↦ stop_at_match fuel c hit ∙ ap ok (cc (rw hit at e))
          | inr miss ↦
              go_on fuel c (last n l) n miss back (ne_last c n l d.0.0 d.0.1) chain.0
              ∙ find_order_found fuel n y l (rw miss at e) chain.2 back d.1 (omega arith)
        ]

    -- With no match it stops at the last order.
    find_order-none :
        (fuel c : ℕ) (l : List ℕ)
        → find_id (c ∷ l) ≡ none
        → Chain h c l
        → (h top).previous ≡ some (last c l)
        → Distinct (c ∷ l)
        → length l < fuel
        → find_order fuel h top order_id c ≡ ok (last c l)
    find_order-none zero c l e chain back d f = absurd (omega arith)
    find_order-none (suc fuel) c [] e chain back d f = stop_at_last fuel c back
    find_order-none (suc fuel) c (n ∷ l) e chain back d f =
        elim (Bool-cases ((h c).order_id == order_id)) [
          | inl hit ↦ cc (rw hit at e)
          | inr miss ↦
              go_on fuel c (last n l) n miss back (ne_last c n l d.0.0 d.0.1) chain.0
              ∙ find_order-none fuel n l (rw miss at e) chain.2 back d.1 (omega arith)
        ]

-- `unlink` of `y` from the ring at `a` that holds `l` succeeds, and leaves `rest`.
abbrev pub Unlinks : PriceLevel → Orders → (a y : ℕ) → (l rest : List ℕ) → Type 0
Unlinks lv h a y l rest =
    (lv' : PriceLevel) × (g : Orders) × (unlink lv a y h ≡ ok (lv', g))
    × Removed lv y l rest h lv' g

same_top : {t : Ptr} {a b : ℕ} → t ≡ some a → t ≡ some b → b ≡ a
same_top p q = cc

-- Any order of a ring can be taken out of it.
unlink-Removed :
    (lv : PriceLevel) (h : Orders) (a y : ℕ) (before behind : List ℕ)
    → lv.top_order ≡ some a
    → Ring h lv.top_order (before ++ y ∷ behind)
    → Unlinks lv h a y (before ++ y ∷ behind) (before ++ behind)
unlink-Removed lv h a y [] [] t r =
    subst (λ (k : ℕ). Unlinks lv h k y (y ∷ []) []) (same_top t r.0) (unlink-only lv h y r.0 r.1)
unlink-Removed lv h a y [] (c ∷ q) t r =
    subst (λ (k : ℕ). Unlinks lv h k y (y ∷ c ∷ q) (c ∷ q)) (same_top t r.0)
      (unlink-first lv h y r.0 c q r.1 r.2)
unlink-Removed lv h a y (b ∷ p) q t r =
    subst (λ (k : ℕ). Unlinks lv h k y (b ∷ p ++ y ∷ q) (b ∷ p ++ q)) (same_top t r.0)
      (unlink-behind lv h b r.0 y p q r.1 r.2)

module _ (fuel : ℕ) (lv : PriceLevel) (order_id : ℕ) (h : Orders) where
  cancel_of_found :
      (a y : ℕ)
      → lv.top_order ≡ some a
      → find_order fuel h a order_id a ≡ ok y
      → ((h y).order_id == order_id) ≡ true
      → cancel fuel lv order_id h ≡ (unlink lv a y h >>= λ (lv', g). ok (some y, lv', g))
  unfolding cancel
  cancel_of_found a y top found hit = rw (top, found, hit)

  cancel_of_none :
      (a z : ℕ)
      → lv.top_order ≡ some a
      → find_order fuel h a order_id a ≡ ok z
      → ((h z).order_id == order_id) ≡ false
      → cancel fuel lv order_id h ≡ ok (none, lv, h)
  unfolding cancel
  cancel_of_none a z top found miss = rw (top, found, miss)

  -- At a level that holds the orders `a ∷ l`, with enough fuel, `cancel` of an ID that one of them
  -- has returns the first such order, out of the ring, and leaves the others in time order.
  pub cancel-Removed :
      (a y : ℕ) (l : List ℕ)
      → Ring h lv.top_order (a ∷ l)
      → find_id h order_id (a ∷ l) ≡ some y
      → length l < fuel
      → (lv' : PriceLevel) × (g : Orders) × (cancel fuel lv order_id h ≡ ok (some y, lv', g))
        × Removed lv y (a ∷ l) (remove_id h order_id (a ∷ l)) h lv' g
  cancel-Removed a y l r e f =
      let s = find_id-Split h order_id (a ∷ l) y e in
      let (front, closing) = Chain-parts h a l (a ∷ []) r.1 in
      let found = find_order_found h order_id a fuel a y l e front closing.1 r.2 f in
      let (lv', g, done, removed) =
        subst₂ (Unlinks lv h a y) (sym s.parts) (sym s.rest)
          (unlink-Removed lv h a y s.before s.behind r.0 (subst (Ring h lv.top_order) s.parts r)) in
      (
        lv',
        g,
        cancel_of_found a y r.0 found s.matches
            ∙ ap (λ (o : Outcome (PriceLevel × Orders)). o >>= λ (k, g'). ok (some y, k, g')) done,
        removed,
      )

  -- `cancel` of an ID that no order of the level has returns nullptr and changes nothing.
  pub cancel-none :
      (a : ℕ) (l : List ℕ)
      → Ring h lv.top_order (a ∷ l)
      → find_id h order_id (a ∷ l) ≡ none
      → length l < fuel
      → cancel fuel lv order_id h ≡ ok (none, lv, h)
  cancel-none a l r e f =
      let (front, closing) = Chain-parts h a l (a ∷ []) r.1 in
      cancel_of_none a (last a l) r.0
        (find_order-none h order_id a fuel a l e front closing.1 r.2 f)
        (last-misses h order_id a l e)
