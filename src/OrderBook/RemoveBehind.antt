-- ===== src/OrderBook/RemoveBehind.antt =====
-- cppexchange/orderbook.h: `removePriceLevel` of a level behind the best of its side.
use cpp_exchange.Prelude.{
  ℕ, zero, suc, ◌<◌, ◌≡◌, ◌≢◌, refl, sym, ap, ◌∙◌, subst, some, none, true, false, ltb, arith,
  update, update_self, update_ne, List, [], ◌∷◌, ◌++◌, All, length, ◌==◌,
}
use cpp_exchange.Outcome.{ok}
use cpp_exchange.ObjectPool.{ObjectBlock, release_object}
use cpp_exchange.Order.{OrderSide, is_buy, Ptr}
use cpp_exchange.PriceLevel.{
  PriceLevel, get_price, get_next_price_level, get_side, set_next_price_level,
}
use cpp_exchange.PriceLevel.Ring.{Ring}
use cpp_exchange.OrderBook.State.{World, levels, orders, best_of, with_book, set_level}
use cpp_exchange.OrderBook.Levels.{
  remove_price_level, unchain_level, find_previous_level, get_price_level_index,
}
use cpp_exchange.OrderBook.LevelChain.{Levels, LevelChain}
use cpp_exchange.OrderBook.Pools.{Pools-same, freed-IsValid, freed-room}
use cpp_exchange.OrderBook.Quiet.{Quiet}
use cpp_exchange.OrderBook.Ladder.{Rung, All-map}
use cpp_exchange.OrderBook.Frame.{Kept}

-- A chain that goes on begins with a level, one at another price if all of its first levels are.
pub chain_begins :
    (m : Levels) (price b : ℕ) (fs cs : List ℕ) (q : Ptr)
    → LevelChain m q (fs ++ b ∷ cs)
    → All (λ c. (m c).price_level ≢ price) (fs ++ b ∷ [])
    → (h : ℕ) × (q ≡ some h) × ((m h).price_level ≢ price)
chain_begins m price b [] cs q c ne = (b, c.0, ne.0)
chain_begins m price b (f ∷ fs) cs q c ne = (f, c.0, ne.0)

-- The walk of `removePriceLevel` ends, with fuel for the levels that it passes, at the level before
-- the one at the price.
pub find_previous_level-before :
    (fuel : ℕ) (m : Levels) (price a b : ℕ) (fs cs : List ℕ) (p : ℕ)
    → LevelChain m (some p) (fs ++ b ∷ a ∷ cs)
    → All (λ c. (m c).price_level ≢ price) (fs ++ b ∷ [])
    → (m a).price_level ≡ price
    → length fs < fuel
    → find_previous_level fuel m price p ≡ ok b
unfolding find_previous_level get_price get_next_price_level
find_previous_level-before zero m price a b fs cs p c ne e more = absurd (omega arith)
find_previous_level-before (suc fuel) m price a b [] cs p c ne e more =
    let same : p ≡ b = cc (c.0) in
    let hit : ((m a).price_level == price) ≡ true = ground arith in rw same (rw (c.1.0, hit))
find_previous_level-before (suc fuel) m price a b (f ∷ fs) cs p c ne e more =
    let same : p ≡ f = cc (c.0) in
    let (h, next, other) = chain_begins m price b fs (a ∷ cs) (m f).next_price_level c.1 ne.1 in
    let miss : ((m h).price_level == price) ≡ false = ground arith in
    rw same (
      rw (next, miss)
        (find_previous_level-before fuel m price a b fs cs h
          (subst (λ q. LevelChain m q (fs ++ b ∷ a ∷ cs)) next c.1) ne.1 e (omega arith)))

-- The state after the level at `b` is linked past the one at `a`.
abbrev pub relinked : (a b : ℕ) → World → World
relinked a b w =
    set_level w b (record (levels w b) { next_price_level = (levels w a).next_price_level })

-- The state after the price of the level at `a` is erased and its block is freed.
abbrev pub freed : (a : ℕ) → World → World
freed a w =
    let b = w.book in
    with_book w (record b {
      price_levels = update b.price_levels (levels w a).price_level none;
      price_level_pool = record (b.price_level_pool) {
        store =
            update b.price_level_pool.store a (record { object = levels w a; available = true });
      };
    })

-- A removal of a level behind the best, after the level before it has been found.
pub remove_price_level-behind :
    (w : World) (a b p : ℕ)
    → best_of (is_buy (levels w a).side) w.book ≡ some p
    → a ≢ p
    → a ≢ b
    → find_previous_level (suc w.book.price_level_pool.size) (levels w) (levels w a).price_level p
      ≡ ok b
    → a < w.book.price_level_pool.size
    → (w.book.price_level_pool.store a).available ≡ false
    → remove_price_level a w ≡ ok (tt, freed a (relinked a b w))
unfolding remove_price_level unchain_level get_price get_next_price_level get_side
    get_price_level_index release_object set_next_price_level
remove_price_level-behind w a b p best ne nb found below taken =
    let t : ltb a w.book.price_level_pool.size ≡ true = ground arith in
    let other : (a == p) ≡ false = ground arith in
    let apart : (a == b) ≡ false = ground arith in rw (best, other, found, t, taken, apart) refl

-- What the two writes leave to the other levels.
pub relinked-Kept : (a b : ℕ) (w : World) → Kept b [] w (relinked a b w)
relinked-Kept a b w = record {
  outside = λ o f. refl;
  other_levels = λ c n. update_ne (levels w) b c _ n;
  other_prices = λ p n. refl;
  pools = Pools-same w (relinked a b w) refl refl;
  order_slots_same = refl;
  level_slots_same = refl;
  other_blocks = λ c n. refl;
}

pub freed-Kept : (a : ℕ) (w : World) → a < w.book.price_level_pool.size → Kept a [] w (freed a w)
freed-Kept a w below = record {
  outside = λ o f. refl;
  other_levels = λ c n. ap ObjectBlock.object (update_ne w.book.price_level_pool.store a c _ n);
  other_prices = λ p n. update_ne w.book.price_levels (levels w a).price_level p none n;
  pools = record {
    order_pool_same = refl;
    level_valid = freed-IsValid w.book.price_level_pool a (levels w a);
    level_room = freed-room w.book.price_level_pool a (levels w a) below;
  };
  order_slots_same = refl;
  level_slots_same = refl;
  other_blocks = λ c n. ap ObjectBlock.available (update_ne w.book.price_level_pool.store a c _ n);
}

-- The level that is linked anew is as well formed as before.
pub Rung-relinked :
    (side : OrderSide) (a b : ℕ) (k : List ℕ) (w : World)
    → Rung side w b k
    → Rung side (relinked a b w) b k
Rung-relinked side a b k w r =
    let l = record (levels w b) { next_price_level = (levels w a).next_price_level } in
    let here = update_self (levels w) b l in
    let price = ap PriceLevel.price_level here in
    record {
      ring = subst (λ (q : PriceLevel). Ring (orders w) q.top_order k) (sym here) r.ring;
      priced = All-map k (λ o e. e ∙ sym price) r.priced;
      listed = ap w.book.price_levels price ∙ r.listed;
      positive = r.positive;
      stocked = r.stocked;
      room = r.room;
      in_use = r.in_use;
      in_pool = r.in_pool;
      housed = record {
        level_side = ap (λ (q : PriceLevel). is_buy q.side) here ∙ r.housed.level_side;
        below = r.housed.below;
        taken = r.housed.taken;
      };
    }

pub removed_behind-Quiet : (a b : ℕ) (w : World) → Quiet w (freed a (relinked a b w))
removed_behind-Quiet a b w = record {
  ticker_same = refl;
  responses_same = refl;
  updates_same = refl;
  trades_same = refl;
  clock_same = refl;
  reads_same = refl;
}
