-- ===== src/Tests/Levels.antt =====
-- Price levels and the order book at concrete inputs: two sells at price 10 rest in one level.
use cpp_exchange.Prelude.{
  ℕ, zero, suc, ◌≡◌, refl, some, none, true, false, Bool, [], ◌∷◌, arith, Fresh,
}
use cpp_exchange.Outcome.{ok}
use cpp_exchange.ObjectPool.{ObjectPool}
use cpp_exchange.ObjectPool.Laws
use cpp_exchange.Order.{Order, Orders, OrderSide, make_order, Ptr, default_order}
use cpp_exchange.PriceLevel
use cpp_exchange.PriceLevel.{PriceLevel, make_price_level, default_price_level}
use cpp_exchange.PriceLevel.Ring.{Ring}
use cpp_exchange.PriceLevel.Add.{Added, add-Added}
use cpp_exchange.PriceLevel.Unlink.{Removed}
use cpp_exchange.PriceLevel.Cancel.{cancel-Removed, cancel-none}
use cpp_exchange.Messages.{ResponseType, UpdateType, make_response, make_update}
use cpp_exchange.OrderBook.State.{World, levels, best_of}
use cpp_exchange.OrderBook.Levels.{insert_price_level, goes_behind, find_next_level}
use cpp_exchange.OrderBook.Matching.{match_at}
use cpp_exchange.OrderBook.LevelChain.{LevelChain, find_next_level-not_before}
use cpp_exchange.OrderBook.Insert.{Inserted, insert_price_level-best, insert_price_level-behind}
use cpp_exchange.OrderBook.Fill.{PartlyFilled, match_at-partial}
use cpp_exchange.OrderBook.UsedUp.{UsedUp, match_at-UsedUp}

-- The order with an ID and a quantity, between two others.
abbrev pub resting : (id quantity before behind : ℕ) → Order
resting id quantity before behind = record (make_order 7 id 20 0 OrderSide.sell quantity 10) {
  previous = some before;
  next = some behind;
}

-- Orders 101 and 102 rest at the addresses 0 and 1.
abbrev pub heap : Orders
heap i = elim i [
  | zero ↦ resting 101 5 1 1
  | suc j ↦ elim j [ zero ↦ resting 102 7 0 0 | suc k ↦ default_order ]
]

abbrev pub level : PriceLevel
level = record (make_price_level OrderSide.sell 10 none) { top_order = some 0 }

pub level-Ring : Ring heap level.top_order (0 ∷ 1 ∷ [])
level-Ring = (refl, (refl, refl, (refl, refl, tt)), ((omega arith, tt), (tt, tt)))

add-Added_example :
    (lv' : PriceLevel) × (g : Orders) × (PriceLevel.add level 2 heap ≡ ok (lv', g))
    × Added level 2 (0 ∷ 1 ∷ []) heap lv' g
add-Added_example = add-Added level 2 (0 ∷ 1 ∷ []) heap level-Ring (omega arith, (omega arith, tt))

cancel-Removed_example :
    (lv' : PriceLevel) × (g : Orders) × (PriceLevel.cancel 4 level 102 heap ≡ ok (some 1, lv', g))
    × Removed level 1 (0 ∷ 1 ∷ []) (0 ∷ []) heap lv' g
cancel-Removed_example = cancel-Removed 4 level 102 heap 0 1 (1 ∷ []) level-Ring refl (omega arith)

cancel-none_example : PriceLevel.cancel 4 level 103 heap ≡ ok (none, level, heap)
cancel-none_example = cancel-none 4 level 103 heap 0 (1 ∷ []) level-Ring refl (omega arith)

-- Four blocks, those below `n` handed out.
abbrev pub pool_of : {T : Type 0} → (ℕ → T) → (ℕ → Bool) → ℕ → ObjectPool T
pool_of f free next = record {
  store = λ i. record { object = f i; available = free i };
  size = 4;
  next_free = next;
}

abbrev pub world : World
world = record {
  book = record {
    ticker_id = 7;
    order_pool =
        pool_of heap (λ i. elim i [ zero ↦ false | suc j ↦ elim j [ zero ↦ false | suc k ↦ true ] ])
          2;
    price_level_pool = pool_of (λ _. level) (λ i. elim i [ zero ↦ false | suc j ↦ true ]) 1;
    price_levels = λ _. some 0;
    best_bids = none;
    best_asks = some 0;
  };
  client_response_queue = record {
    slots = λ _. make_response ResponseType.invalid 0 0 0 OrderSide.invalid 0 0 0;
    size = 8;
    next_write_index = 0;
    next_read_index = 0;
  };
  market_update_queue = record {
    slots = λ _. make_update UpdateType.invalid 0 0 0 OrderSide.invalid 0 0 0;
    size = 8;
    next_write_index = 0;
    next_read_index = 0;
  };
  next_trade_id = 1;
  clock = λ n. n;
  clock_reads = 0;
}

-- A buy of 3 meets the 5 of the first order.
match_at-partial_example :
    (w' : World) × (match_at 200 30 OrderSide.buy 3 0 world ≡ ok (0, w'))
    × PartlyFilled 200 30 OrderSide.buy 3 0 world w'
match_at-partial_example = match_at-partial 200 30 OrderSide.buy 3 0 world (omega arith)

-- A buy of 8 uses the first order up, and has 3 left.
match_at-UsedUp_example :
    (w' : World) × (match_at 200 30 OrderSide.buy 8 0 world ≡ ok (3, w'))
    × UsedUp 200 30 OrderSide.buy 8 0 world 0 (1 ∷ []) w'
match_at-UsedUp_example =
    match_at-UsedUp 200 30 OrderSide.buy 8 0 world 0 (1 ∷ []) (omega arith) refl level-Ring
      (omega arith)

pool-IsValid : Laws.IsValid world.book.price_level_pool
pool-IsValid = record { next_in = omega arith; next_available = refl }

-- A sell at 9 makes a new best level; one at 11 makes a level that the chain lacks.
insert_price_level-best_example :
    (w' : World) × (insert_price_level 9 OrderSide.sell 9 world ≡ ok (some 1, w'))
    × (best_of false w'.book ≡ some 1)
    × LevelChain (levels w') (some 1) (1 ∷ 0 ∷ [])
    × Inserted world 9 OrderSide.sell 9 1 (some 0) w'
unfolding goes_behind
insert_price_level-best_example =
    insert_price_level-best 9 OrderSide.sell 9 world (0 ∷ []) pool-IsValid (omega arith)
      (refl, refl) (refl, tt) (omega arith) refl

insert_price_level-behind_example :
    (next : Ptr) × (w' : World) × (insert_price_level 11 OrderSide.sell 11 world ≡ ok (some 1, w'))
    × (best_of false w'.book ≡ some 0)
    × LevelChain (levels w') (best_of false w'.book) (0 ∷ [])
    × Fresh 1 (0 ∷ [])
    × Inserted world 11 OrderSide.sell 11 1 next w'
unfolding goes_behind
insert_price_level-behind_example =
    insert_price_level-behind 11 OrderSide.sell 11 world (0 ∷ []) pool-IsValid (omega arith)
      (refl, refl) (refl, tt) (omega arith) 0 [] refl tt refl

find_next_level-not_before_example :
    (find_next_level 2 (λ _. level) false 9 (some 0) ≡ ok (some 0))
    × LevelChain (λ _. level) (some 0) (0 ∷ [])
unfolding goes_behind
find_next_level-not_before_example =
    find_next_level-not_before 2 (λ _. level) false 9 (some 0) (0 ∷ []) (refl, refl) (omega arith)
