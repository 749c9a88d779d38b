-- ===== src/OrderBook/Offers.antt =====
-- cppexchange/orderbook.h: what a side offers when an order takes from it and when one rests on it.
use cpp_exchange.Prelude.{
  ℕ, ◌-◌, ◌<◌, ◌≡◌, refl, ap, List, [], ◌∷◌, ◌++◌, map, All, arith, Bool, true, false, not, ltb,
  ◌==◌, if◌then◌else◌, Bool-cases, inl, inr, eq_self,
}
use cpp_exchange.OrderBook.State.{World}
use cpp_exchange.OrderBook.Matching.{crosses}
use cpp_exchange.OrderBook.Levels.{goes_behind}
use cpp_exchange.OrderBook.Front.{total}
use cpp_exchange.OrderBook.Ladder.{Ranked, prices}
use cpp_exchange.OrderBook.Priority.{offers, offers_left, unfilled}

abbrev pub offered_prices : List (ℕ × List ℕ) → List ℕ
offered_prices os = map (λ o. o.0) os

pub offered_prices-offers :
    (w : World) (ls : List (ℕ × List ℕ)) → offered_prices (offers w ls) ≡ prices w ls
offered_prices-offers w [] = refl
offered_prices-offers w (lv ∷ ls) = ap (λ ps. prices w (lv ∷ []) ++ ps) (offered_prices-offers w ls)

-- The offers after an order for `n` has come to rest at a price: behind the orders at its price, or
-- at a price of its own before the worse ones.
abbrev pub offers_joined : (buy : Bool) (limit_price n : ℕ) → List (ℕ × List ℕ) → List (ℕ × List ℕ)
offers_joined buy limit_price n [] = (limit_price, n ∷ []) ∷ []
offers_joined buy limit_price n ((p, qs) ∷ os) =
    let worse = offers_joined buy limit_price n os in
    if p == limit_price
    then (p, qs ++ n ∷ []) ∷ os
    else (if goes_behind buy limit_price p
        then (p, qs) ∷ worse
        else (limit_price, n ∷ []) ∷ (p, qs) ∷ os)

pub offers_joined-at :
    (buy : Bool) (limit_price n : ℕ) (qs : List ℕ) (os xs : List (ℕ × List ℕ))
    → All (λ p. goes_behind buy limit_price p ≡ true) (offered_prices xs)
    → offers_joined buy limit_price n (xs ++ (limit_price, qs) ∷ os)
      ≡ xs ++ (limit_price, qs ++ n ∷ []) ∷ os
unfolding goes_behind
offers_joined-at buy limit_price n qs os [] h = rw (eq_self limit_price)
offers_joined-at true limit_price n qs os ((p, ps) ∷ xs) h =
    let first = h.0 in
    let other : (p == limit_price) ≡ false = ground arith in
    rw (other, first) (ap (λ ys. (p, ps) ∷ ys) (offers_joined-at true limit_price n qs os xs h.1))
offers_joined-at false limit_price n qs os ((p, ps) ∷ xs) h =
    let first = h.0 in
    let other : (p == limit_price) ≡ false = ground arith in
    rw (other, first) (ap (λ ys. (p, ps) ∷ ys) (offers_joined-at false limit_price n qs os xs h.1))

pub offers_joined-best :
    (buy : Bool) (limit_price n : ℕ) (os : List (ℕ × List ℕ))
    → All (λ p. goes_behind buy p limit_price ≡ true) (offered_prices os)
    → offers_joined buy limit_price n os ≡ (limit_price, n ∷ []) ∷ os
unfolding goes_behind
offers_joined-best buy limit_price n [] h = refl
offers_joined-best true limit_price n ((p, qs) ∷ os) h =
    let first = h.0 in
    let other : (p == limit_price) ≡ false = ground arith in
    let before : ltb limit_price p ≡ false = ground arith in rw (other, before)
offers_joined-best false limit_price n ((p, qs) ∷ os) h =
    let first = h.0 in
    let other : (p == limit_price) ≡ false = ground arith in
    let before : ltb p limit_price ≡ false = ground arith in rw (other, before)

-- The prices behind one that is not acceptable are not acceptable.
worse_refused :
    (buy : Bool) (limit_price p : ℕ) (qs : List ℕ)
    → crosses buy limit_price p ≡ false
    → All (λ q. goes_behind (not buy) q p ≡ true) qs
    → All (λ q. crosses buy limit_price q ≡ false) qs
unfolding crosses goes_behind
worse_refused buy limit_price p [] refused h = tt
worse_refused true limit_price p (q ∷ qs) refused h =
    ((let k = h.0 in ground arith), worse_refused true limit_price p qs refused h.1)
worse_refused false limit_price p (q ∷ qs) refused h =
    ((let k = h.0 in ground arith), worse_refused false limit_price p qs refused h.1)

-- When an order is not filled whole, no price that is left is acceptable to it.
pub offers_left-refused :
    (buy : Bool) (limit_price n : ℕ) (os : List (ℕ × List ℕ))
    → Ranked (not buy) (offered_prices os)
    → 0 < unfilled buy limit_price n os
    → All
        (λ q. crosses buy limit_price q ≡ false)
        (offered_prices (offers_left buy limit_price n os))
offers_left-refused buy limit_price n [] ranked more = tt
offers_left-refused buy limit_price n ((p, qs) ∷ os) ranked more =
    elim (Bool-cases (crosses buy limit_price p)) [
      | inr refused ↦
          rw refused (refused, worse_refused buy limit_price p (offered_prices os) refused ranked.0)
      | inl accepted ↦ elim (Bool-cases (ltb n (total qs))) [
        | inl less ↦ absurd (
            let none_left : unfilled buy limit_price n ((p, qs) ∷ os) ≡ 0 =
              rw (accepted, less) refl in
            omega arith)
        | inr enough ↦
            let same : unfilled buy limit_price n ((p, qs) ∷ os)
                ≡ unfilled buy limit_price (n - total qs) os =
              rw (accepted, enough) refl in
            rw (accepted, enough)
              (offers_left-refused buy limit_price (n - total qs) os ranked.1 (omega arith))
      ]
    ]

-- The prices that are left are among those that were there.
pub All-offers_left {κ} :
    (P : ℕ → Type κ) (buy : Bool) (limit_price n : ℕ) (os : List (ℕ × List ℕ))
    → All P (offered_prices os)
    → All P (offered_prices (offers_left buy limit_price n os))
All-offers_left P buy limit_price n [] ps = tt
All-offers_left P buy limit_price n ((p, qs) ∷ os) ps =
    elim (Bool-cases (crosses buy limit_price p)) [
      | inr refused ↦ rw refused ps
      | inl accepted ↦ elim (Bool-cases (ltb n (total qs))) [
        | inl less ↦ rw (accepted, less) ps
        | inr enough ↦
            rw (accepted, enough) (All-offers_left P buy limit_price (n - total qs) os ps.1)
      ]
    ]
