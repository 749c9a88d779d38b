-- ===== src/Tests/Whole.antt =====
-- A whole book at concrete inputs: the sells at price 10 and nothing else.
use cpp_exchange.Prelude.{
  ℕ, zero, suc, ◌≡◌, refl, some, none, true, false, [], ◌∷◌, arith, ◌==◌, if◌then◌else◌, Fresh,
}
use cpp_exchange.Outcome.{ok}
use cpp_exchange.Order.{OrderSide, default_order}
use cpp_exchange.Types.{max_order_ids, max_price_levels}
use cpp_exchange.ObjectPool.Laws.{free_count}
use cpp_exchange.OrderBook.Empty.{create-Book}
use cpp_exchange.OrderBook.State
use cpp_exchange.OrderBook.State.{World}
use cpp_exchange.OrderBook.Matching.{crosses}
use cpp_exchange.OrderBook.Levels.{goes_behind}
use cpp_exchange.OrderBook.Entry.{add, cancel, rest_order}
use cpp_exchange.OrderBook.Ladder.{Rung, Ladder}
use cpp_exchange.OrderBook.Priority.{offers}
use cpp_exchange.OrderBook.Sides.{Book}
use cpp_exchange.OrderBook.RestOrder.{Settles}
use cpp_exchange.OrderBook.AddOrder.{add-Settles}
use cpp_exchange.OrderBook.Rest.{Rested}
use cpp_exchange.OrderBook.RestAt.{rest_order-at_level}
use cpp_exchange.OrderBook.RestBest.{rest_order-at_best}
use cpp_exchange.OrderBook.CancelOrder.{Cancelled, cancel-keeps_level}
use cpp_exchange.OrderBook.Reject.{rejected}
use cpp_exchange.OrderBook.CancelUnknown.{cancel-missing}
use cpp_exchange.OrderBook.CancelBest.{cancel-drops_best}
use cpp_exchange.Tests.Levels.{world, level-Ring, resting, pool_of}

abbrev market : World
market = record world {
  book = record (world.book) { price_levels = λ p. if p == 10 then some 0 else none };
}

market-Rung : Rung OrderSide.buy market 0 (0 ∷ 1 ∷ [])
market-Rung = record {
  ring = level-Ring;
  priced = (refl, (refl, tt));
  listed = refl;
  positive = (omega arith, (omega arith, tt));
  stocked = omega arith;
  room = omega arith;
  in_use = (refl, (refl, tt));
  in_pool = (omega arith, (omega arith, tt));
  housed = record { level_side = refl; below = omega arith; taken = refl };
}

asks : Ladder OrderSide.buy market ((0, 0 ∷ 1 ∷ []) ∷ [])
asks = record { chain = (refl, refl); rungs = (market-Rung, tt); ranked = (tt, tt) }

bids : Ladder OrderSide.sell market []
bids = record { chain = refl; rungs = tt; ranked = tt }

unlisted : (p : ℕ) → Fresh p (10 ∷ []) → market.book.price_levels p ≡ none
unlisted p f = ground (arith, f.0)

-- The book as an incoming buy sees it, and as an incoming sell does.
buyer-Book : Book OrderSide.buy market [] ((0, 0 ∷ 1 ∷ []) ∷ [])
buyer-Book = record {
  own_ladder = bids;
  met_ladder = asks;
  uncrossed = tt;
  unlisted = λ p f g. unlisted p g;
  orders_valid = record { next_in = omega arith; next_available = refl };
  levels_valid = record { next_in = omega arith; next_available = refl };
}

seller-Book : Book OrderSide.sell market ((0, 0 ∷ 1 ∷ []) ∷ []) []
seller-Book = record {
  own_ladder = asks;
  met_ladder = bids;
  uncrossed = (tt, tt);
  unlisted = λ p f g. unlisted p f;
  orders_valid = record { next_in = omega arith; next_available = refl };
  levels_valid = record { next_in = omega arith; next_available = refl };
}

-- A buy of 20 at 11 takes the 12 that are offered, and 8 rest at 11.
add-Settles_example :
    (w' : World) × (add 200 30 OrderSide.buy 20 11 market ≡ ok (tt, w'))
    × Settles OrderSide.buy ((11, 8 ∷ []) ∷ []) [] w'
unfolding crosses
add-Settles_example =
    add-Settles 200 30 OrderSide.buy 20 11 market [] ((0, 0 ∷ 1 ∷ []) ∷ []) buyer-Book (omega arith)
      (omega arith) (λ more new. tt)

-- A sell of 4 at 10 rests behind the two that are there.
rest_order-at_level_example :
    (w' : World) × (rest_order 200 30 OrderSide.sell 4 10 market ≡ ok (tt, w'))
    × Book OrderSide.sell w' ((0, 0 ∷ 1 ∷ 2 ∷ []) ∷ []) []
    × (offers w' ((0, 0 ∷ 1 ∷ 2 ∷ []) ∷ []) ≡ (10, 5 ∷ 7 ∷ 4 ∷ []) ∷ [])
    × (offers w' [] ≡ [])
    × Rested 200 30 OrderSide.sell 4 10 market 2 w'
rest_order-at_level_example =
    rest_order-at_level 200 30 OrderSide.sell 4 10 [] 0 (0 ∷ 1 ∷ []) [] [] market seller-Book refl
      (omega arith) (omega arith)

-- A sell of 4 at 9 is the new best.
rest_order-at_best_example :
    (w' : World) × (rest_order 200 30 OrderSide.sell 4 9 market ≡ ok (tt, w'))
    × Book OrderSide.sell w' ((1, 2 ∷ []) ∷ (0, 0 ∷ 1 ∷ []) ∷ []) []
    × (offers w' ((1, 2 ∷ []) ∷ (0, 0 ∷ 1 ∷ []) ∷ []) ≡ (9, 4 ∷ []) ∷ (10, 5 ∷ 7 ∷ []) ∷ [])
    × (offers w' [] ≡ [])
unfolding goes_behind
rest_order-at_best_example =
    rest_order-at_best 200 30 OrderSide.sell 4 9 ((0, 0 ∷ 1 ∷ []) ∷ []) [] market seller-Book
      (refl, tt) tt (omega arith) (omega arith) (omega arith)

-- The second order goes.
cancel-keeps_level_example :
    (w' : World) × (cancel 30 102 OrderSide.sell 10 market ≡ ok (tt, w'))
    × Book OrderSide.sell w' ((0, 0 ∷ []) ∷ []) []
    × (offers w' ((0, 0 ∷ []) ∷ []) ≡ (10, 5 ∷ []) ∷ [])
    × (offers w' [] ≡ [])
    × Cancelled 30 102 OrderSide.sell 10 1 market w'
cancel-keeps_level_example =
    cancel-keeps_level 30 102 OrderSide.sell 10 OrderSide.sell 0 1 (0 ∷ 1 ∷ []) [] [] [] market 0 []
      seller-Book refl refl refl

-- No order at 10 has the ID 103, though the price has a level.
cancel-missing_example : cancel 30 103 OrderSide.sell 10 market ≡ ok (tt, rejected 30 103 market)
cancel-missing_example =
    cancel-missing 30 103 OrderSide.sell 10 market OrderSide.sell ((0, 0 ∷ 1 ∷ []) ∷ []) []
      seller-Book (λ price. refl, tt) tt

-- The book with one order of 5 in its only level.
abbrev lone : World
lone = record market {
  book = record (market.book) {
    order_pool =
        pool_of (λ i. elim i [ zero ↦ resting 101 5 0 0 | suc j ↦ default_order ])
          (λ i. elim i [ zero ↦ false | suc j ↦ true ]) 1;
  };
}

lone-Book : Book OrderSide.sell lone ((0, 0 ∷ []) ∷ []) []
lone-Book = record {
  own_ladder = record {
    chain = (refl, refl);
    rungs = (
      record {
        ring = (refl, (refl, refl, tt), (tt, tt));
        priced = (refl, tt);
        listed = refl;
        positive = (omega arith, tt);
        stocked = omega arith;
        room = omega arith;
        in_use = (refl, tt);
        in_pool = (omega arith, tt);
        housed = record { level_side = refl; below = omega arith; taken = refl };
      },
      tt,
    );
    ranked = (tt, tt);
  };
  met_ladder = record { chain = refl; rungs = tt; ranked = tt };
  uncrossed = (tt, tt);
  unlisted = λ p f g. unlisted p f;
  orders_valid = record { next_in = omega arith; next_available = refl };
  levels_valid = record { next_in = omega arith; next_available = refl };
}

cancel-drops_best_example :
    (w' : World) × (cancel 30 101 OrderSide.sell 10 lone ≡ ok (tt, w'))
    × Book OrderSide.sell w' [] []
    × (offers w' [] ≡ [])
    × (offers w' [] ≡ [])
    × Cancelled 30 101 OrderSide.sell 10 0 lone w'
cancel-drops_best_example =
    cancel-drops_best OrderSide.sell 0 (0 ∷ []) [] [] 30 101 OrderSide.sell 10 0 lone lone-Book refl
      refl refl

abbrev new_world : World
new_world = record world { book = State.create 7 }

create-Book_example :
    Book OrderSide.buy new_world [] []
    × (free_count new_world.book.order_pool ≡ max_order_ids)
    × (free_count new_world.book.price_level_pool ≡ max_price_levels)
create-Book_example = create-Book OrderSide.buy new_world 7 refl
