-- ===== src/OrderBook/Drain.antt =====
-- cppexchange/orderbook.h: the loops of `checkForMatch` at a best level that they use up.
use cpp_exchange.Prelude.{
  ℕ, zero, suc, ◌-◌, ◌≤◌, ◌<◌, ◌≡◌, ◌≢◌, refl, sym, ap, ◌∙◌, subst, none, List, [], ◌∷◌, arith,
  true, false, not, Bool, update_self, update_ne,
}
use cpp_exchange.ObjectPool.{ObjectBlock, ObjectPool}
use cpp_exchange.Order.{Order, OrderSide, is_buy, Ptr}
use cpp_exchange.PriceLevel.{PriceLevel}
use cpp_exchange.PriceLevel.Ring.{SameOutside}
use cpp_exchange.OrderBook.Pools.{Pools, Pools-trans, freed-IsValid, freed-room}
use cpp_exchange.OrderBook.State.{
  objects, with_objects, OrderBook, World, levels, orders, best_of, with_best,
}
use cpp_exchange.OrderBook.Matching.{match_loop, crosses}
use cpp_exchange.OrderBook.Loop.{
  opposite_best, match_best-stays, match_best-empties, match_loop-goes, not_filled,
}
use cpp_exchange.OrderBook.UsedUp.{UsedUp, match_at-UsedUp}
use cpp_exchange.OrderBook.Front.{
  Front, quantities, total, identity, UsedUp-Front, UsedUp-quantities, UsedUp-identity,
}
use cpp_exchange.OrderBook.Remove.{removed_best, remove_price_level-removed_best}

-- The level at `a` is one of the other side of `side`, and its block is handed out.
pub record Housed (side : OrderSide) (w : World) (a : ℕ) : Type 0 where
  pub level_side : is_buy (levels w a).side ≡ not (is_buy side)
  pub below : a < w.book.price_level_pool.size
  pub taken : (w.book.price_level_pool.store a).available ≡ false

-- The level at `a`, which held the orders `l`, is gone from the book: its block is free, the map has
-- nothing at its price, and the best level is the one that stood behind it.
pub record Drained (side : OrderSide) (a : ℕ) (l : List ℕ) (w w' : World) : Type 0 where
  pub best : opposite_best side w' ≡ (levels w a).next_price_level
  pub own_best : best_of (is_buy side) w'.book ≡ best_of (is_buy side) w.book
  pub identities : (b : ℕ) → identity (orders w' b) ≡ identity (orders w b)
  pub outside : SameOutside l (orders w) (orders w')
  pub other_levels : (b : ℕ) → b ≢ a → levels w' b ≡ levels w b
  pub other_prices :
      (p : ℕ) → p ≢ (levels w a).price_level → w'.book.price_levels p ≡ w.book.price_levels p
  pub erased : w'.book.price_levels (levels w a).price_level ≡ none
  pub pools : Pools w w'
  pub order_slots_same : w'.book.order_pool.size ≡ w.book.order_pool.size
  pub level_slots_same : w'.book.price_level_pool.size ≡ w.book.price_level_pool.size
  pub other_blocks :
      (b : ℕ)
      → b ≢ a
      → (w'.book.price_level_pool.store b).available ≡ (w.book.price_level_pool.store b).available
  pub freed : (w'.book.price_level_pool.store a).available ≡ true

module _ (order_id client_id : ℕ) (side : OrderSide) (quantity o a : ℕ) (l : List ℕ) (w w1 : World)
    (used : UsedUp order_id client_id side quantity o w a l w1) where
  UsedUp-Housed : Housed side w a → Housed side w1 a
  UsedUp-Housed h = record {
    level_side = ap is_buy used.level_side ∙ h.level_side;
    below = (let e = used.told.level_slots_same in let b = h.below in omega arith);
    taken = used.told.level_blocks_same a ∙ h.taken;
  }

  own_best-same : best_of (is_buy side) w1.book ≡ best_of (is_buy side) w.book
  own_best-same = elim (is_buy side) as (λ k. best_of k w1.book ≡ best_of k w.book) [
    | true ↦ used.told.bids_same
    | false ↦ used.told.asks_same
  ]

  -- An order is used up, and then the rest of the level.
  UsedUp-Drained : (w' : World) → Drained side a l w1 w' → Drained side a (o ∷ l) w w'
  UsedUp-Drained w' d = record {
    best = d.best ∙ used.next_level;
    own_best = d.own_best ∙ own_best-same;
    identities =
        λ b. d.identities b ∙ UsedUp-identity order_id client_id side quantity o w w1 a l used b;
    outside = λ b f. d.outside b f.1 ∙ used.outside b f;
    other_levels = λ b n. d.other_levels b n ∙ used.other_levels b n;
    other_prices = λ p n.
        d.other_prices p (λ e. n (e ∙ used.price)) ∙ ap (λ (m : ℕ → Ptr). m p) used.told.map_same;
    erased = subst (λ (p : ℕ). w'.book.price_levels p ≡ none) used.price d.erased;
    pools = Pools-trans w w1 w' used.told.pools d.pools;
    order_slots_same = d.order_slots_same ∙ used.told.order_slots_same;
    level_slots_same = d.level_slots_same ∙ used.told.level_slots_same;
    other_blocks = λ b n. d.other_blocks b n ∙ used.told.level_blocks_same b;
    freed = d.freed;
  }

pub removed_best-own :
    (k : Bool) (w : World) (a : ℕ)
    → is_buy (levels w a).side ≡ k
    → best_of k (removed_best w a).book ≡ (levels w a).next_price_level
removed_best-own true w a e = rw e refl
removed_best-own false w a e = rw e refl

removed_best-other :
    (k : Bool) (w : World) (a : ℕ)
    → is_buy (levels w a).side ≡ not k
    → best_of k (removed_best w a).book ≡ best_of k w.book
removed_best-other true w a e = rw e refl
removed_best-other false w a e = rw e refl

order_pool-with_best :
    (k : Bool) (b : OrderBook) (p : Ptr) → (with_best k b p).order_pool ≡ b.order_pool
order_pool-with_best true b p = refl
order_pool-with_best false b p = refl

pub removed_best-Drained :
    (side : OrderSide) (w : World) (a : ℕ)
    → Housed side w a
    → Drained side a [] w (removed_best w a)
removed_best-Drained side w a h =
    let e = h.level_side in
    let l = levels w a in
    let pool = order_pool-with_best (is_buy l.side) w.book l.next_price_level in
    let block : ObjectBlock PriceLevel = record { object = l; available = true } in
    let store = w.book.price_level_pool.store in
    record {
      best = removed_best-own (not (is_buy side)) w a e;
      own_best = removed_best-other (is_buy side) w a e;
      identities = λ b. ap (λ (p : ObjectPool Order). identity (p.store b).object) pool;
      outside = λ b f. ap (λ (p : ObjectPool Order). (p.store b).object) pool;
      other_levels = λ b n. ap ObjectBlock.object (update_ne store a b block n);
      other_prices = λ p n. update_ne w.book.price_levels l.price_level p none n;
      erased = update_self w.book.price_levels l.price_level none;
      pools = record {
        order_pool_same =
            pool
            ∙ ap (λ (q : ObjectPool Order). with_objects w.book.order_pool (objects q)) (sym pool);
        level_valid = freed-IsValid w.book.price_level_pool a l;
        level_room = freed-room w.book.price_level_pool a l h.below;
      };
      order_slots_same = ap ObjectPool.size pool;
      level_slots_same = refl;
      other_blocks = λ b n. ap ObjectBlock.available (update_ne store a b block n);
      freed = ap ObjectBlock.available (update_self store a block);
    }

module _ (order_id client_id : ℕ) (side : OrderSide) (limit_price a : ℕ) where
  -- The state after rounds that used up the level, and the rounds that are left then.
  abbrev pub Drains : (fuel n : ℕ) (l : List ℕ) → World → Type 0
  Drains fuel n l w =
      let rest = n - total (quantities (orders w) l) in
      (w' : World) × (fuel' : ℕ) × (rest < fuel')
      × (match_loop fuel order_id client_id side n limit_price w
          ≡ match_loop fuel' order_id client_id side rest limit_price w')
      × Drained side a l w w'

  -- The last order of a level leaves, and the level with it.
  drain-last :
      (fuel n o : ℕ) (w : World)
      → Front side w a (o ∷ [])
      → Housed side w a
      → crosses (is_buy side) limit_price (levels w a).price_level ≡ true
      → (orders w o).quantity ≤ n
      → n ≤ fuel
      → Drains (suc fuel) n (o ∷ []) w
  drain-last fuel n o w f h price enough more =
      let k = n - (orders w o).quantity in
      let positive = f.positive.0 in
      let (w1, done, used) =
        match_at-UsedUp order_id client_id side n o w a [] enough f.mapped.0 f.ring
          (let r = f.room in omega arith) in
      let f1 = UsedUp-Front order_id client_id side n o w w1 a [] used f in
      let h1 = UsedUp-Housed order_id client_id side n o a [] w w1 used h in
      let w2 = removed_best w1 a in
      (
        w2,
        fuel,
        omega arith,
        match_loop-goes order_id client_id side fuel n limit_price a k w w2 f.best
              (not_filled n (omega arith) price)
              (match_best-empties order_id client_id side n a o k w w1 w2 f.ring.0 done f1.best
                f1.ring
                (remove_price_level-removed_best w1 a (not (is_buy side)) h1.level_side f1.best
                  h1.below h1.taken))
            ∙ ap (λ (m : ℕ). match_loop fuel order_id client_id side m limit_price w2)
                (omega arith),
        UsedUp-Drained order_id client_id side n o a [] w w1 used w2
            (removed_best-Drained side w1 a h1),
      )

  -- A price level whose orders offer together no more than `n` is used up and removed.
  pub drain :
      (fuel n o : ℕ) (l : List ℕ) (w : World)
      → Front side w a (o ∷ l)
      → Housed side w a
      → crosses (is_buy side) limit_price (levels w a).price_level ≡ true
      → total (quantities (orders w) (o ∷ l)) ≤ n
      → n < fuel
      → Drains fuel n (o ∷ l) w
  drain zero n o l w f h price enough more = absurd (omega arith)
  drain (suc fuel) n o [] w f h price enough more =
      drain-last fuel n o w f h price (omega arith) (omega arith)
  drain (suc fuel) n o (o2 ∷ l) w f h price enough more =
      let k = n - (orders w o).quantity in
      let positive = f.positive.0 in
      let (w1, done, used) =
        match_at-UsedUp order_id client_id side n o w a (o2 ∷ l) (omega arith) f.mapped.0 f.ring
          (let r = f.room in omega arith) in
      let f1 = UsedUp-Front order_id client_id side n o w w1 a (o2 ∷ l) used f in
      let h1 = UsedUp-Housed order_id client_id side n o a (o2 ∷ l) w w1 used h in
      let same = UsedUp-quantities order_id client_id side n o w w1 a (o2 ∷ l) used f.ring.2.0 in
      let price1 = ap (λ (p : ℕ). crosses (is_buy side) limit_price p) used.price ∙ price in
      let total_same = ap total same in
      let (w', fuel', left, loop, d) =
        drain fuel k o2 l w1 f1 h1 price1 (omega arith) (omega arith) in
      (
        w',
        fuel',
        omega arith,
        match_loop-goes order_id client_id side fuel n limit_price a k w w1 f.best
              (not_filled n (omega arith) price)
              (match_best-stays order_id client_id side n a a o o2 k w w1 f.ring.0 done f1.best
                f1.ring.0)
            ∙ loop
            ∙ ap (λ (m : ℕ). match_loop fuel' order_id client_id side m limit_price w')
                (omega arith),
        UsedUp-Drained order_id client_id side n o a (o2 ∷ l) w w1 used w' d,
      )
