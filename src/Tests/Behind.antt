-- ===== src/Tests/Behind.antt =====
-- A whole book at concrete inputs: a sell at 10, and one at 12 behind it.
use cpp_exchange.Prelude.{
  ℕ, zero, suc, Bool, ◌≡◌, refl, some, none, true, false, [], ◌∷◌, arith, ◌==◌, if◌then◌else◌,
}
use cpp_exchange.Outcome.{ok}
use cpp_exchange.Order.{OrderSide, default_order}
use cpp_exchange.PriceLevel.{make_price_level, default_price_level}
use cpp_exchange.OrderBook.State.{World}
use cpp_exchange.OrderBook.Levels.{goes_behind}
use cpp_exchange.OrderBook.Entry.{cancel}
use cpp_exchange.OrderBook.Priority.{offers}
use cpp_exchange.OrderBook.Sides.{Book}
use cpp_exchange.OrderBook.CancelOrder.{Cancelled}
use cpp_exchange.OrderBook.CancelDrops.{cancel-drops_behind}
use cpp_exchange.Tests.Levels.{world, resting, pool_of}

abbrev first_two : ℕ → Bool
first_two i = elim i [ zero ↦ false | suc j ↦ elim j [ zero ↦ false | suc k ↦ true ] ]

abbrev two_levels : World
two_levels = record world {
  book = record (world.book) {
    order_pool =
        pool_of
          (λ i. elim i [
            | zero ↦ resting 101 5 0 0
            | suc j ↦ elim j [
              | zero ↦ record (resting 102 7 1 1) { limit_price = 12 }
              | suc k ↦ default_order
            ]
          ])
          first_two 2;
    price_level_pool =
        pool_of
          (λ i. elim i [
            | zero ↦ record (make_price_level OrderSide.sell 10 (some 1)) { top_order = some 0 }
            | suc j ↦ elim j [
              | zero ↦ record (make_price_level OrderSide.sell 12 none) { top_order = some 1 }
              | suc k ↦ default_price_level
            ]
          ])
          first_two 2;
    price_levels = λ p. if p == 10 then some 0 else (if p == 12 then some 1 else none);
  };
}

two_levels-Book : Book OrderSide.sell two_levels ((0, 0 ∷ []) ∷ (1, 1 ∷ []) ∷ []) []
unfolding goes_behind
two_levels-Book = record {
  own_ladder = record {
    chain = (refl, (refl, refl));
    rungs = (
      record {
        ring = (refl, (refl, refl, tt), (tt, tt));
        priced = (refl, tt);
        listed = refl;
        positive = (omega arith, tt);
        stocked = omega arith;
        room = omega arith;
        in_use = (refl, tt);
        in_pool = (omega arith, tt);
        housed = record { level_side = refl; below = omega arith; taken = refl };
      },
      (
        record {
          ring = (refl, (refl, refl, tt), (tt, tt));
          priced = (refl, tt);
          listed = refl;
          positive = (omega arith, tt);
          stocked = omega arith;
          room = omega arith;
          in_use = (refl, tt);
          in_pool = (omega arith, tt);
          housed = record { level_side = refl; below = omega arith; taken = refl };
        },
        tt,
      ),
    );
    ranked = ((refl, tt), (tt, tt));
  };
  met_ladder = record { chain = refl; rungs = tt; ranked = tt };
  uncrossed = (tt, (tt, tt));
  unlisted = λ p f g. (let a = f.0 in let b = f.1.0 in ground arith);
  orders_valid = record { next_in = omega arith; next_available = refl };
  levels_valid = record { next_in = omega arith; next_available = refl };
}

-- The sell at 12 is cancelled, and its level goes.
cancel-drops_behind_example :
    (w' : World) × (cancel 30 102 OrderSide.sell 12 two_levels ≡ ok (tt, w'))
    × Book OrderSide.sell w' ((0, 0 ∷ []) ∷ []) []
    × (offers w' ((0, 0 ∷ []) ∷ []) ≡ (10, 5 ∷ []) ∷ [])
    × (offers w' [] ≡ [])
    × Cancelled 30 102 OrderSide.sell 12 1 two_levels w'
cancel-drops_behind_example =
    cancel-drops_behind OrderSide.sell 1 1 (1 ∷ []) [] 0 (0 ∷ []) [] [] 30 102 OrderSide.sell 12
      two_levels two_levels-Book refl refl refl
