-- ===== src/OrderBook/AddOrder.antt =====
-- cppexchange/orderbook.h: `add` on a whole book.
use native.Mathlib.Decide.{ℕ_discrete}
use cpp_exchange.Prelude.{
  ℕ, ◌+◌, ◌≤◌, ◌<◌, ◌≡◌, refl, sym, ap, ◌∙◌, subst, List, All, Bool, true, false, not, Fresh, arith,
  ◌==◌, if◌then◌else◌,
}
use cpp_exchange.Outcome.{ok}
use cpp_exchange.ObjectPool.Laws.{free_count}
use cpp_exchange.LfQueue.{push}
use cpp_exchange.Order.{OrderSide, is_buy}
use cpp_exchange.Messages.{ResponseType, make_response}
use cpp_exchange.OrderBook.State.{Cmd, World, now, respond}
use cpp_exchange.OrderBook.Matching.{crosses, check_for_match}
use cpp_exchange.OrderBook.Levels.{goes_behind}
use cpp_exchange.OrderBook.Entry.{add, rest_order}
use cpp_exchange.OrderBook.Pools.{orders_room}
use cpp_exchange.OrderBook.Ladder.{Ranked, prices}
use cpp_exchange.OrderBook.Priority.{offers, offers_left, unfilled}
use cpp_exchange.OrderBook.Matched.{ladder_left}
use cpp_exchange.OrderBook.PriceTime.{check_for_match-Matched}
use cpp_exchange.OrderBook.Offers.{offered_prices-offers, offers_joined, offers_left-refused}
use cpp_exchange.OrderBook.Sides.{Book}
use cpp_exchange.OrderBook.MatchedBook.{Book-book, Book-Matched, prices_left}
use cpp_exchange.OrderBook.RestOrder.{Settles, rest_order-Settles}

if_at :
    (b : Bool) (f g : Cmd (Unit {0})) (w : World)
    → (if b then f else g) w ≡ (if b then f w else g w)
if_at true f g w = refl
if_at false f g w = refl

module _ (order_id client_id : ℕ) (side : OrderSide) (quantity limit_price : ℕ) where
  -- The state after the client is told that the order is accepted.
  abbrev accepted : World → World
  accepted w = record w {
    client_response_queue = push w.client_response_queue (
        make_response ResponseType.accepted w.book.ticker_id client_id order_id side quantity
          limit_price (w.clock w.clock_reads));
    clock_reads = w.clock_reads + 1;
  }

  add-steps :
      (remaining : ℕ) (w w1 : World)
      → check_for_match order_id client_id side quantity limit_price (accepted w)
        ≡ ok (remaining, w1)
      → add order_id client_id side quantity limit_price w ≡ (
          if remaining == 0
          then ok (tt, w1)
          else rest_order order_id client_id side remaining limit_price w1)
  unfolding add now respond
  add-steps remaining w w1 done = rw done (
      if_at (remaining == 0) (λ (k : World). ok (tt, k))
        (rest_order order_id client_id side remaining limit_price) w1)

  -- On a book whose two sides are well formed, with two blocks to spare in each pool, and where a
  -- rest of the order would find a level at its price or be better than all prices of its side:
  -- `add` returns. Both sides are well formed again and no bid is as high as an ask. The other
  -- side offers what price-time priority leaves of it; the order's own side offers what it did, and
  -- if the order is not filled whole also its rest, behind the orders at its price or at a price of
  -- its own.
  pub add-Settles :
      (w : World) (own met : List (ℕ × List ℕ))
      → Book side w own met
      → 2 ≤ free_count w.book.order_pool
      → 2 ≤ free_count w.book.price_level_pool
      → (0 < unfilled (is_buy side) limit_price quantity (offers w met)
          → Fresh limit_price (prices w own)
          → All (λ q. goes_behind (is_buy side) q limit_price ≡ true) (prices w own))
      → let buy = is_buy side in
        let remaining = unfilled buy limit_price quantity (offers w met) in
        (w' : World) × (add order_id client_id side quantity limit_price w ≡ ok (tt, w'))
        × Settles side
            (if remaining == 0
              then offers w own
              else offers_joined buy limit_price remaining (offers w own))
            (offers_left buy limit_price quantity (offers w met))
            w'
  add-Settles w own met book room level_room place =
      let buy = is_buy side in
      let os = offers w met in
      let remaining = unfilled buy limit_price quantity os in
      let w0 = accepted w in
      let b0 = Book-book side w w0 own met refl book in
      let (w1, done, m) =
        check_for_match-Matched order_id client_id side limit_price quantity met w0 b0.met_ladder in
      let met1 = ladder_left buy limit_price quantity os met in
      let (b1, own_same, prices_same) = Book-Matched side limit_price quantity met w0 w1 m own b0 in
      let steps = add-steps remaining w w1 done in
      elim (ℕ_discrete remaining 0) [
        | yes filled ↦
            let none_left : (remaining == 0) ≡ true = ground arith in
            (w1, steps ∙ rw none_left refl, (own, met1, b1, rw none_left own_same, m.offered))
        | no more ↦
            let some_left : (remaining == 0) ≡ false = ground arith in
            let refused =
              subst (All (λ q. crosses buy limit_price q ≡ false))
                (sym (prices_left side limit_price quantity met w0 w1 m))
                (offers_left-refused buy limit_price quantity os
                  (subst (Ranked (not buy)) (sym (offered_prices-offers w met))
                    book.met_ladder.ranked)
                  (omega arith)) in
            let (w2, rested, (own2, met2, b2, own_offers, met_offers)) =
              rest_order-Settles order_id client_id side remaining limit_price w1 own met1 b1
                (λ f.
                  subst (All (λ q. goes_behind buy q limit_price ≡ true)) (sym prices_same)
                    (place (omega arith) (subst (Fresh limit_price) prices_same f)))
                refused (omega arith) (omega (arith, orders_room w0 w1 m.pools))
                (let k = m.pools.level_room in omega arith) in
            (
              w2,
              steps ∙ rw some_left rested,
              (
                own2,
                met2,
                b2,
                rw some_left (own_offers ∙ ap (offers_joined buy limit_price remaining) own_same),
                met_offers ∙ m.offered,
              ),
            )
      ]
