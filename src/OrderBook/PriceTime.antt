-- ===== src/OrderBook/PriceTime.antt =====
-- cppexchange/orderbook.h: the loops of `checkForMatch`, from the best level of a side on.
use native.Mathlib.Decide.{dec_lt}
use cpp_exchange.Prelude.{
  ℕ, zero, suc, ◌-◌, ◌≤◌, ◌<◌, ◌≡◌, refl, ap, ◌∙◌, List, [], ◌∷◌, arith, ltb, true, false,
  Bool-cases, inl, inr,
}
use cpp_exchange.Outcome.{ok}
use cpp_exchange.Order.{OrderSide, is_buy}
use cpp_exchange.OrderBook.State.{World, levels, orders}
use cpp_exchange.OrderBook.Matching.{crosses, match_loop, check_for_match}
use cpp_exchange.OrderBook.Loop.{match_loop-stops, match_loop-ends, not_acceptable}
use cpp_exchange.OrderBook.Front.{quantities, total}
use cpp_exchange.OrderBook.Sweep.{sweep}
use cpp_exchange.OrderBook.Drain.{drain}
use cpp_exchange.OrderBook.Ladder.{Ladder, Rung-Front}
use cpp_exchange.OrderBook.Priority.{offers, unfilled}
use cpp_exchange.OrderBook.Matched.{
  Matched, Matched-nil, Matched-none, Matched-Eaten, Ladder-Drained, Matched-Drained,
}

module _ (order_id client_id : ℕ) (side : OrderSide) (limit_price : ℕ) where
  -- The loop returns what stays unfilled, in a state in which the side has been matched.
  abbrev Matches : (fuel n : ℕ) → List (ℕ × List ℕ) → World → Type 0
  Matches fuel n ls w =
      (w' : World) × (match_loop fuel order_id client_id side n limit_price w
        ≡ ok (unfilled (is_buy side) limit_price n (offers w ls), w'))
      × Matched side limit_price n ls w w'

  match_loop-drained :
      (fuel n a o : ℕ) (l : List ℕ) (ls : List (ℕ × List ℕ)) (w : World)
      → Ladder side w ((a, o ∷ l) ∷ ls)
      → crosses (is_buy side) limit_price (levels w a).price_level ≡ true
      → total (quantities (orders w) (o ∷ l)) ≤ n
      → n < fuel
      → ((fuel' m : ℕ) (w' : World) → Ladder side w' ls → m < fuel' → Matches fuel' m ls w')
      → Matches fuel n ((a, o ∷ l) ∷ ls) w
  match_loop-drained fuel n a o l ls w ladder accepted enough more go_on =
      let t : ltb n (total (quantities (orders w) (o ∷ l))) ≡ false = ground arith in
      let r = ladder.rungs.0 in
      let k = n - total (quantities (orders w) (o ∷ l)) in
      let (w', fuel', left, loop, d) =
        drain order_id client_id side limit_price a fuel n o l w
          (Rung-Front side w a (o ∷ l) ladder.chain.0 r) r.housed accepted enough more in
      let (ladder', same, _) = Ladder-Drained side limit_price n a (o ∷ l) ls w w' ladder d in
      let (w2, done, m) = go_on fuel' k w' ladder' left in
      (
        w2,
        rw (accepted, t)
            (loop
              ∙ done
              ∙ ap (λ (os : List (ℕ × List ℕ)). ok (unfilled (is_buy side) limit_price k os, w2))
                  same),
        Matched-Drained side limit_price n a (o ∷ l) ls w w' ladder w2 accepted enough d m,
      )

  match_loop-Matched :
      (fuel n : ℕ) (ls : List (ℕ × List ℕ)) (w : World)
      → Ladder side w ls
      → n < fuel
      → Matches fuel n ls w
  match_loop-Matched zero n ls w ladder more = absurd (omega arith)
  match_loop-Matched (suc fuel) n [] w ladder more = (
    w,
    match_loop-ends order_id client_id side fuel n limit_price w ladder.chain,
    Matched-nil side limit_price n w ladder,
  )
  match_loop-Matched (suc fuel) n ((a, []) ∷ ls) w ladder more =
      absurd (let k = ladder.rungs.0.stocked in omega arith)
  match_loop-Matched (suc fuel) n ((a, o ∷ l) ∷ ls) w ladder more =
      let r = ladder.rungs.0 in
      let acceptable = crosses (is_buy side) limit_price (levels w a).price_level in
      elim (Bool-cases acceptable) [
        | inr refused ↦ (
          w,
          match_loop-stops order_id client_id side fuel n limit_price a w ladder.chain.0
                (not_acceptable n refused)
              ∙ ap (λ (m : ℕ). ok (m, w)) (rw refused refl),
          Matched-none side limit_price n a (o ∷ l) ls w w ladder refused,
        )
        | inl accepted ↦ elim (dec_lt n (total (quantities (orders w) (o ∷ l)))) [
          | yes less ↦
              let t : ltb n (total (quantities (orders w) (o ∷ l))) ≡ true = ground arith in
              let (w', done, e) =
                sweep order_id client_id side limit_price a (suc fuel) n (o ∷ l) w
                  (Rung-Front side w a (o ∷ l) ladder.chain.0 r) accepted less more in
              (
                w',
                done ∙ ap (λ (m : ℕ). ok (m, w')) (rw (accepted, t) refl),
                Matched-Eaten side limit_price n a (o ∷ l) ls w w' ladder accepted less e,
              )
          | no enough ↦
              match_loop-drained (suc fuel) n a o l ls w ladder accepted (omega arith) more
                (λ fuel' m w' ladder' left. match_loop-Matched fuel' m ls w' ladder' left)
        ]
      ]

  -- On a side of the book that is well formed, `checkForMatch` returns: it takes the incoming
  -- quantity from the resting orders at acceptable prices, the best price first and within a price
  -- the oldest order first, and returns what stays unfilled. The levels that it used up are gone,
  -- the side is well formed again and offers exactly what the resting orders have left; no order
  -- has changed but in its pointers and its quantity, and the best level of the incoming order's
  -- own side is the same. A level at a price that the side lacks is what it was.
  pub check_for_match-Matched :
      (quantity : ℕ) (ls : List (ℕ × List ℕ)) (w : World)
      → Ladder side w ls
      → (w' : World) × (check_for_match order_id client_id side quantity limit_price w
          ≡ ok (unfilled (is_buy side) limit_price quantity (offers w ls), w'))
        × Matched side limit_price quantity ls w w'
  unfolding check_for_match
  check_for_match-Matched quantity ls w ladder =
      match_loop-Matched (suc quantity) quantity ls w ladder (omega arith)
