-- ===== src/OrderBook/Sweep.antt =====
-- cppexchange/orderbook.h: `checkForMatch` for less than the best level offers.
use native.Mathlib.Decide.{dec_lt}
use cpp_exchange.Prelude.{
  ℕ, zero, suc, ◌-◌, ◌≤◌, ◌<◌, ◌≡◌, refl, sym, ap, ◌∙◌, subst, some, List, [], ◌∷◌, arith, true,
}
use cpp_exchange.Outcome.{ok}
use cpp_exchange.Order.{OrderSide, is_buy}
use cpp_exchange.PriceLevel.{PriceLevel}
use cpp_exchange.OrderBook.State.{World, levels, orders}
use cpp_exchange.OrderBook.Matching.{match_loop, check_for_match, crosses}
use cpp_exchange.OrderBook.Loop.{
  opposite_best, not_filled, match_best-stays, match_loop-stops, match_loop-goes,
}
use cpp_exchange.OrderBook.Fill.{match_at-partial}
use cpp_exchange.OrderBook.UsedUp.{match_at-UsedUp}
use cpp_exchange.OrderBook.Front.{
  Front, quantities, total, opposite_best-same, UsedUp-Front, UsedUp-quantities,
}
use cpp_exchange.OrderBook.Eaten.{Eaten, Eaten-zero, Eaten-partial, Eaten-UsedUp}

module _ (order_id client_id : ℕ) (side : OrderSide) (limit_price a : ℕ) where
  -- The level at `a` has an acceptable price.
  abbrev pub Acceptable : World → Type 0
  Acceptable w = crosses (is_buy side) limit_price (levels w a).price_level ≡ true

  -- An order that is filled whole leaves the loop, where one round is left to see it.
  match_loop-filled :
      (fuel : ℕ) (w : World)
      → 0 < fuel
      → opposite_best side w ≡ some a
      → match_loop fuel order_id client_id side 0 limit_price w ≡ ok (0, w)
  match_loop-filled zero w h best = absurd (omega arith)
  match_loop-filled (suc fuel) w h best =
      match_loop-stops order_id client_id side fuel 0 limit_price a w best refl

  -- A round for less than the first order has ends the loop.
  match_loop-partial :
      (fuel n o : ℕ) (l : List ℕ) (w : World)
      → Front side w a (o ∷ l)
      → Acceptable w
      → suc n < (orders w o).quantity
      → 0 < fuel
      → (w' : World) × (match_loop (suc fuel) order_id client_id side (suc n) limit_price w
          ≡ ok (0, w'))
        × Eaten (suc n) a (o ∷ l) w w'
  match_loop-partial fuel n o l w f price less more =
      let (w1, done, p) = match_at-partial order_id client_id side (suc n) o w less in
      let best = opposite_best-same side w w1 p.told.bids_same p.told.asks_same ∙ f.best in
      let e = Eaten-partial order_id client_id side (suc n) o a l w w1 f less p in
      let top = ap (λ (m : ℕ → PriceLevel). (m a).top_order) p.levels_same ∙ f.ring.0 in
      (
        w1,
        match_loop-goes order_id client_id side fuel (suc n) limit_price a 0 w w1 f.best
              (not_filled (suc n) (omega arith) price)
              (match_best-stays order_id client_id side (suc n) a a o o 0 w w1 f.ring.0 done best
                top)
            ∙ match_loop-filled fuel w1 more best,
        e,
      )

  pub sweep :
      (fuel n : ℕ) (l : List ℕ) (w : World)
      → Front side w a l
      → Acceptable w
      → n < total (quantities (orders w) l)
      → n < fuel
      → (w' : World) × (match_loop fuel order_id client_id side n limit_price w ≡ ok (0, w'))
        × Eaten n a l w w'
  sweep zero n l w f price less more = absurd (omega arith)
  sweep (suc fuel) n [] w f price less more = absurd (omega arith)
  sweep (suc fuel) zero (o ∷ l) w f price less more =
      (w, match_loop-filled (suc fuel) w more f.best, Eaten-zero side a o l w f)
  sweep (suc fuel) (suc n) (o ∷ []) w f price less more =
      match_loop-partial fuel n o [] w f price (omega arith) (omega arith)
  sweep (suc fuel) (suc n) (o ∷ o2 ∷ l) w f price less more =
      elim (dec_lt (suc n) (orders w o).quantity) [
        | yes part ↦ match_loop-partial fuel n o (o2 ∷ l) w f price part (omega arith)
        | no whole ↦
            let enough : (orders w o).quantity ≤ suc n = omega arith in
            let k = suc n - (orders w o).quantity in
            let (w1, done, used) =
              match_at-UsedUp order_id client_id side (suc n) o w a (o2 ∷ l) enough f.mapped.0
                f.ring (let r = f.room in omega arith) in
            let f1 = UsedUp-Front order_id client_id side (suc n) o w w1 a (o2 ∷ l) used f in
            let same =
              UsedUp-quantities order_id client_id side (suc n) o w w1 a (o2 ∷ l) used f.ring.2.0 in
            let price1 = ap (λ (p : ℕ). crosses (is_buy side) limit_price p) used.price ∙ price in
            let p = f.positive.0 in
            let (w', rest, e) =
              sweep fuel k (o2 ∷ l) w1 f1 price1
                (subst (λ (qs : List ℕ). k < total qs) (sym same) (omega arith)) (omega arith) in
            (
              w',
              match_loop-goes order_id client_id side fuel (suc n) limit_price a k w w1 f.best
                    (not_filled (suc n) (omega arith) price)
                    (match_best-stays order_id client_id side (suc n) a a o o2 k w w1 f.ring.0 done
                      f1.best f1.ring.0)
                  ∙ rest,
              Eaten-UsedUp order_id client_id side (suc n) o a (o2 ∷ l) w w1 w' f enough used e,
            )
      ]

  -- An incoming order for less than the orders of a well-formed best level of the other side offer
  -- together, at a limit that accepts that level's price, is filled whole: `checkForMatch` returns
  -- 0. It has taken its quantity from those orders in the order of their times, and has left the
  -- other orders and levels, the map and both best levels as they were.
  pub check_for_match-Eaten :
      (quantity : ℕ) (l : List ℕ) (w : World)
      → Front side w a l
      → Acceptable w
      → quantity < total (quantities (orders w) l)
      → (w' : World) × (check_for_match order_id client_id side quantity limit_price w ≡ ok (0, w'))
        × Eaten quantity a l w w'
  unfolding check_for_match
  check_for_match-Eaten quantity l w f price less =
      sweep (suc quantity) quantity l w f price less (omega arith)
