-- ===== src/Tests/Sides.antt =====
-- A side of the book at concrete inputs: two sells at price 10 are all that is offered.
use cpp_exchange.Prelude.{◌≡◌, refl, [], ◌∷◌, arith}
use cpp_exchange.Outcome.{ok}
use cpp_exchange.Order.{OrderSide}
use cpp_exchange.OrderBook.State.{World}
use cpp_exchange.OrderBook.Matching.{check_for_match, crosses}
use cpp_exchange.OrderBook.Front.{Front}
use cpp_exchange.OrderBook.Eaten.{Eaten}
use cpp_exchange.OrderBook.Sweep.{check_for_match-Eaten}
use cpp_exchange.OrderBook.Drain.{Housed}
use cpp_exchange.OrderBook.Ladder.{Ladder}
use cpp_exchange.OrderBook.Matched.{Matched}
use cpp_exchange.OrderBook.PriceTime.{check_for_match-Matched}
use cpp_exchange.Tests.Levels.{world, level-Ring}

world-Front : Front OrderSide.buy world 0 (0 ∷ 1 ∷ [])
world-Front = record {
  best = refl;
  ring = level-Ring;
  mapped = (refl, (refl, tt));
  positive = (omega arith, (omega arith, tt));
  room = omega arith;
}

world-Housed : Housed OrderSide.buy world 0
world-Housed = record { level_side = refl; below = omega arith; taken = refl }

world-Ladder : Ladder OrderSide.buy world ((0, 0 ∷ 1 ∷ []) ∷ [])
world-Ladder = record {
  chain = (refl, refl);
  rungs = (
    record {
      ring = level-Ring;
      priced = (refl, (refl, tt));
      listed = refl;
      positive = (omega arith, (omega arith, tt));
      stocked = omega arith;
      room = omega arith;
      in_use = (refl, (refl, tt));
      in_pool = (omega arith, (omega arith, tt));
      housed = world-Housed;
    },
    tt,
  );
  ranked = (tt, tt);
}

-- A buy of 8 takes the 5 of the first order and 3 of the second.
check_for_match-Eaten_example :
    (w' : World) × (check_for_match 200 30 OrderSide.buy 8 11 world ≡ ok (0, w'))
    × Eaten 8 0 (0 ∷ 1 ∷ []) world w'
unfolding crosses
check_for_match-Eaten_example =
    check_for_match-Eaten 200 30 OrderSide.buy 11 0 8 (0 ∷ 1 ∷ []) world world-Front refl
      (omega arith)

-- A buy of 20 takes all 12, and 8 stay unfilled.
check_for_match-Matched_example :
    (w' : World) × (check_for_match 200 30 OrderSide.buy 20 11 world ≡ ok (8, w'))
    × Matched OrderSide.buy 11 20 ((0, 0 ∷ 1 ∷ []) ∷ []) world w'
unfolding crosses
check_for_match-Matched_example =
    check_for_match-Matched 200 30 OrderSide.buy 11 20 ((0, 0 ∷ 1 ∷ []) ∷ []) world world-Ladder
