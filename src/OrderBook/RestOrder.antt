-- ===== src/OrderBook/RestOrder.antt =====
-- cppexchange/orderbook.h: what is left of an order rests in a whole book.
use native.Mathlib.Decide.{ℕ_discrete}
use mathlib.Core.Path.{subst₂}
use mathlib.Core.List.{map-append}
use cpp_exchange.Prelude.{
  ℕ, ◌≤◌, ◌<◌, ◌≡◌, refl, sym, ap, ◌∙◌, subst, List, [], ◌∷◌, ◌++◌, All, Bool, true, false, Fresh,
  ◌⊎◌, inl, inr,
}
use cpp_exchange.Outcome.{ok}
use cpp_exchange.ObjectPool.Laws.{free_count}
use cpp_exchange.Order.{OrderSide, is_buy}
use cpp_exchange.OrderBook.State.{World, levels, orders}
use cpp_exchange.OrderBook.Matching.{crosses}
use cpp_exchange.OrderBook.Levels.{goes_behind}
use cpp_exchange.OrderBook.Entry.{rest_order}
use cpp_exchange.OrderBook.Front.{quantities}
use cpp_exchange.OrderBook.Ladder.{Ranked, prices, price_of}
use cpp_exchange.OrderBook.Priority.{offers}
use cpp_exchange.OrderBook.Offers.{
  offered_prices-offers, offers_joined, offers_joined-at, offers_joined-best,
}
use cpp_exchange.OrderBook.Sides.{Book}
use cpp_exchange.OrderBook.RestAt.{rest_order-at_level}
use cpp_exchange.OrderBook.RestBest.{own_side, rest_order-at_best}

-- A level at the price stands in the list.
abbrev pub Found : World → ℕ → List (ℕ × List ℕ) → Type 0
Found w p ls =
    (before : List (ℕ × List ℕ)) × (a : ℕ) × (l : List ℕ) × (behind : List (ℕ × List ℕ)) × (ls
      ≡ before ++ (a, l) ∷ behind)
    × ((levels w a).price_level ≡ p)

pub find_price : (w : World) (p : ℕ) (ls : List (ℕ × List ℕ)) → Fresh p (prices w ls) ⊎ Found w p ls
find_price w p [] = inl tt
find_price w p (lv ∷ ls) = elim (ℕ_discrete p (levels w lv.0).price_level) [
  | yes here ↦ inr ([], lv.0, lv.1, ls, refl, sym here)
  | no other ↦ elim (find_price w p ls) [
    | inl fresh ↦ inl (other, fresh)
    | inr (before, a, l, behind, e, price) ↦
        inr (lv ∷ before, a, l, behind, ap (λ k. lv ∷ k) e, price)
  ]
]

-- A price stands behind those before it.
behind_those_before :
    (buy : Bool) (w : World) (before : List (ℕ × List ℕ)) (lv : ℕ × List ℕ)
    (behind : List (ℕ × List ℕ))
    → Ranked buy (prices w (before ++ lv ∷ behind))
    → All (λ p. goes_behind buy (price_of w lv) p ≡ true) (prices w before)
behind_those_before buy w [] lv behind r = tt
behind_those_before buy w (b ∷ before) lv behind r =
    (at before r.0, behind_those_before buy w before lv behind r.1)
  where
    at :
        (ls : List (ℕ × List ℕ))
        → All (λ q. goes_behind buy q (price_of w b) ≡ true) (prices w (ls ++ lv ∷ behind))
        → goes_behind buy (price_of w lv) (price_of w b) ≡ true
    at [] h = h.0
    at (c ∷ ls) h = at ls h.1

-- A state in which both sides are well formed, with the given offers.
abbrev pub Settles : (side : OrderSide) (own_offers met_offers : List (ℕ × List ℕ)) → World → Type 0
Settles side own_offers met_offers w' =
    (own met : List (ℕ × List ℕ)) × Book side w' own met
    × (offers w' own ≡ own_offers)
    × (offers w' met ≡ met_offers)

module _ (order_id client_id : ℕ) (side : OrderSide) where
  module _ (remaining limit_price : ℕ) where
    rest_order-Settles_at :
        (w : World) (before : List (ℕ × List ℕ)) (a : ℕ) (l : List ℕ)
        (behind met : List (ℕ × List ℕ))
        → Book side w (before ++ (a, l) ∷ behind) met
        → (levels w a).price_level ≡ limit_price
        → 0 < remaining
        → 2 ≤ free_count w.book.order_pool
        → (w' : World) × (rest_order order_id client_id side remaining limit_price w ≡ ok (tt, w'))
          × Settles side
              (offers_joined
                (is_buy side)
                limit_price
                remaining
                (offers w (before ++ (a, l) ∷ behind)))
              (offers w met)
              w'
    rest_order-Settles_at w before a l behind met book price more room =
        let (w', done, book', own_same, met_same, rested) =
          rest_order-at_level order_id client_id side remaining limit_price before a l behind met w
            book price more room in
        let x = w.book.order_pool.next_free in
        let ahead =
          behind_those_before (is_buy side) w before (a, l) behind
            (subst (λ b. Ranked b (prices w (before ++ (a, l) ∷ behind))) (sym (own_side side))
              book.own_ladder.ranked) in
        (
          w',
          done,
          (
            before ++ (a, l ++ x ∷ []) ∷ behind,
            met,
            book',
            own_same
                ∙ sym (
                    offers_joined-at (is_buy side) limit_price remaining (quantities (orders w) l)
                      (offers w behind) (offers w before)
                      (subst₂ (λ p ps. All (λ q. goes_behind (is_buy side) p q ≡ true) ps) price
                        (sym (offered_prices-offers w before)) ahead))
                ∙ sym (
                    ap (offers_joined (is_buy side) limit_price remaining) (
                      map-append (λ (lv : ℕ × List ℕ). (price_of w lv, quantities (orders w) lv.1))
                        before ((a, l) ∷ behind)
                      ∙ ap (λ p. offers w before ++ (p, quantities (orders w) l) ∷ offers w behind)
                          price)),
            met_same,
          ),
        )

    pub rest_order-Settles :
        (w : World) (own met : List (ℕ × List ℕ))
        → Book side w own met
        → (Fresh limit_price (prices w own)
            → All (λ q. goes_behind (is_buy side) q limit_price ≡ true) (prices w own))
        → All (λ q. crosses (is_buy side) limit_price q ≡ false) (prices w met)
        → 0 < remaining
        → 2 ≤ free_count w.book.order_pool
        → 2 ≤ free_count w.book.price_level_pool
        → (w' : World) × (rest_order order_id client_id side remaining limit_price w ≡ ok (tt, w'))
          × Settles side
              (offers_joined (is_buy side) limit_price remaining (offers w own))
              (offers w met)
              w'
    rest_order-Settles w own met book place apart more room level_room =
        elim (find_price w limit_price own) [
          | inr (before, a, l, behind, e, price) ↦
              subst
                (λ ls.
                  (w' : World) × (rest_order order_id client_id side remaining limit_price w
                    ≡ ok (tt, w'))
                  × Settles side (offers_joined (is_buy side) limit_price remaining (offers w ls))
                      (offers w met) w')
                (sym e)
                (rest_order-Settles_at w before a l behind met
                  (subst (λ ls. Book side w ls met) e book) price more room)
          | inl fresh ↦
              let better = place fresh in
              let (w', done, book', own_same, met_same) =
                rest_order-at_best order_id client_id side remaining limit_price own met w book
                  better apart more room level_room in
              (
                w',
                done,
                (
                  (w.book.price_level_pool.next_free, w.book.order_pool.next_free ∷ []) ∷ own,
                  met,
                  book',
                  own_same
                      ∙ sym (
                          offers_joined-best (is_buy side) limit_price remaining (offers w own) (
                            subst (All (λ q. goes_behind (is_buy side) q limit_price ≡ true))
                              (sym (offered_prices-offers w own)) better)),
                  met_same,
                ),
              )
        ]
