-- ===== src/OrderBook/Crown.antt =====
-- cppexchange/orderbook.h: `insertPriceLevel` of the best price of a side, and the levels it leaves.
use cpp_exchange.Prelude.{
  ℕ, ◌≤◌, ◌<◌, ◌≡◌, ◌≢◌, refl, sym, ap, ◌∙◌, subst, some, none, List, [], ◌∷◌, arith, Fresh,
  Distinct, All, update, update_self, update_ne, Bool, true, false, not, if◌then◌else◌,
}
use cpp_exchange.Outcome.{ok}
use cpp_exchange.ObjectPool.{ObjectPool, ObjectBlock}
use cpp_exchange.ObjectPool.Laws.{IsValid, free_count, Taken}
use cpp_exchange.Order.{OrderSide, is_buy, Ptr}
use cpp_exchange.PriceLevel.{PriceLevel, make_price_level}
use cpp_exchange.OrderBook.State.{World, levels, with_book, best_of, with_best}
use cpp_exchange.OrderBook.Levels.{goes_behind, get_price_level, get_price_level_index}
use cpp_exchange.OrderBook.Pools.{InUse, length-InUse}
use cpp_exchange.OrderBook.LevelChain.{LevelChain, head_ptr, not_before}
use cpp_exchange.OrderBook.Insert.{crowned, chain_head, insert_price_level-crowned}
use cpp_exchange.OrderBook.Ladder.{Rung, Ladder, Ranked, Ranked-Fresh, prices, All-map}
use cpp_exchange.OrderBook.Frame.{StillRung, Rung-SameFor}
use cpp_exchange.OrderBook.Change.{addresses}
use cpp_exchange.OrderBook.Quiet.{Quiet}
use cpp_exchange.OrderBook.Sides.{opposite, opposite_best-own}

-- A level for `price` has been put at `a`, a block that was free, and is the best of the side that
-- `buy` names; every level at another price is as it was.
pub record Crowned (buy : Bool) (price a : ℕ) (l : PriceLevel) (w w' : World) : Type 0 where
  pub level : levels w' a ≡ l
  pub listed : w'.book.price_levels price ≡ some a
  pub other_prices : (p : ℕ) → p ≢ price → w'.book.price_levels p ≡ w.book.price_levels p
  pub best : best_of buy w'.book ≡ some a
  pub other_best : best_of (not buy) w'.book ≡ best_of (not buy) w.book
  pub order_pool_same : w'.book.order_pool ≡ w.book.order_pool
  pub taken : (w'.book.price_level_pool.store a).available ≡ false
  pub below : a < w'.book.price_level_pool.size
  pub still :
      (s : OrderSide) (b : ℕ) (m : List ℕ)
      → (levels w b).price_level ≢ price
      → Rung s w b m
      → StillRung s b m w w'
  pub levels_valid : IsValid w'.book.price_level_pool
  pub quiet : Quiet w w'

module _ (price a : ℕ) (w : World) (l : PriceLevel) (p' : ObjectPool PriceLevel) where
  still_crowned :
      (w' : World)
      → Taken w.book.price_level_pool l a p'
      → w'.book.order_pool ≡ w.book.order_pool
      → w'.book.price_level_pool ≡ p'
      → w'.book.price_levels ≡ update w.book.price_levels price (some a)
      → (s : OrderSide) (b : ℕ) (m : List ℕ) → (levels w b).price_level ≢ price
      → Rung s w b m
      → StillRung s b m w w'
  still_crowned w' t same pool mapped s b m ne r =
      let n : b ≢ a = λ e. cc (
        sym r.housed.taken
        ∙ ap (λ (k : ℕ). (w.book.price_level_pool.store k).available) e
        ∙ t.was_free) in
      let block : w'.book.price_level_pool.store b ≡ w.book.price_level_pool.store b =
        ap (λ (q : ObjectPool PriceLevel). q.store b) pool ∙ t.others b n in
      Rung-SameFor s b m w w'
        (record {
          orders_same = All-map m (λ o u. ap (λ k. (k.store o).object) same) r.in_use;
          order_blocks_same = All-map m (λ o u. ap (λ k. (k.store o).available) same) r.in_use;
          order_slots_same = ap ObjectPool.size same;
          level_same = ap ObjectBlock.object block;
          level_block_same = ap ObjectBlock.available block;
          level_slots_same = ap ObjectPool.size pool ∙ t.size_same;
          mapped_same =
              ap (λ (f : ℕ → Ptr). f (levels w b).price_level) mapped
              ∙ update_ne w.book.price_levels price (levels w b).price_level (some a) ne;
        })
        r

  crowned_world : Bool → World
  crowned_world buy =
      let b = w.book in
      with_book w (
        with_best buy
          (record b { price_level_pool = p'; price_levels = update b.price_levels price (some a) })
          (some a))

  crowned_world-Crowned :
      (buy : Bool)
      → IsValid w.book.price_level_pool
      → a ≡ w.book.price_level_pool.next_free
      → Taken w.book.price_level_pool l a p'
      → Crowned buy price a l w (crowned_world buy)
  unfolding crowned_world
  crowned_world-Crowned true valid e t = record {
    level = ap ObjectBlock.object t.holds;
    listed = update_self w.book.price_levels price (some a);
    other_prices = λ p ne. update_ne w.book.price_levels price p (some a) ne;
    best = refl;
    other_best = refl;
    order_pool_same = refl;
    taken = ap ObjectBlock.available t.holds;
    below = (let k = t.size_same in let v = valid.next_in in omega arith);
    still = still_crowned (crowned_world true) t refl refl refl;
    levels_valid = t.valid;
    quiet = record {
      ticker_same = refl;
      responses_same = refl;
      updates_same = refl;
      trades_same = refl;
      clock_same = refl;
      reads_same = refl;
    };
  }
  crowned_world-Crowned false valid e t = record {
    level = ap ObjectBlock.object t.holds;
    listed = update_self w.book.price_levels price (some a);
    other_prices = λ p ne. update_ne w.book.price_levels price p (some a) ne;
    best = refl;
    other_best = refl;
    order_pool_same = refl;
    taken = ap ObjectBlock.available t.holds;
    below = (let k = t.size_same in let v = valid.next_in in omega arith);
    still = still_crowned (crowned_world false) t refl refl refl;
    levels_valid = t.valid;
    quiet = record {
      ticker_same = refl;
      responses_same = refl;
      updates_same = refl;
      trades_same = refl;
      clock_same = refl;
      reads_same = refl;
    };
  }

-- A price that stands before another does not stand behind it.
goes_behind-flip : (buy : Bool) (p q : ℕ) → goes_behind buy q p ≡ true → goes_behind buy p q ≡ false
unfolding goes_behind
goes_behind-flip true p q h = ground arith
goes_behind-flip false p q h = ground arith

-- A price that is better than all of a side's goes before its first level.
not_before-better :
    (buy : Bool) (price : ℕ) (w : World) (ls : List (ℕ × List ℕ))
    → All (λ q. goes_behind buy q price ≡ true) (prices w ls)
    → not_before (levels w) buy price (addresses ls) ≡ addresses ls
not_before-better buy price w [] better = refl
not_before-better buy price w (lv ∷ ls) better =
    ap
      (λ (k : Bool).
        if k then not_before (levels w) buy price (addresses ls) else lv.0 ∷ addresses ls)
      (goes_behind-flip buy price (levels w lv.0).price_level better.0)

Fresh-addresses :
    (w : World) (a : ℕ) (ls : List (ℕ × List ℕ))
    → Fresh (levels w a).price_level (prices w ls)
    → Fresh a (addresses ls)
Fresh-addresses w a [] f = tt
Fresh-addresses w a (lv ∷ ls) f =
    (λ e. f.0 (ap (λ (k : ℕ). (levels w k).price_level) e), Fresh-addresses w a ls f.1)

pub Distinct-addresses :
    (buy : Bool) (w : World) (ls : List (ℕ × List ℕ))
    → Ranked buy (prices w ls)
    → Distinct (addresses ls)
Distinct-addresses buy w [] r = tt
Distinct-addresses buy w (lv ∷ ls) r = (
  Fresh-addresses w lv.0 ls (Ranked-Fresh buy (levels w lv.0).price_level (prices w ls) r.0),
  Distinct-addresses buy w ls r.1,
)

pub addresses-InUse :
    (side : OrderSide) (w : World) (ls : List (ℕ × List ℕ))
    → All (λ lv. Rung side w lv.0 lv.1) ls
    → InUse w.book.price_level_pool (addresses ls)
      × All (λ a. a < w.book.price_level_pool.size) (addresses ls)
addresses-InUse side w [] rs = (tt, tt)
addresses-InUse side w (lv ∷ ls) rs =
    let (used, below) = addresses-InUse side w ls rs.1 in
    ((rs.0.housed.taken, used), (rs.0.housed.below, below))

-- `getPriceLevel` with `create_if_missing`, at a price that the map lacks and that is better than
-- all prices of the side, makes a level for it, the best of the side.
pub get_price_level-Crowned :
    (price : ℕ) (side : OrderSide) (w : World) (own : List (ℕ × List ℕ))
    → Ladder (opposite side) w own
    → IsValid w.book.price_level_pool
    → 2 ≤ free_count w.book.price_level_pool
    → w.book.price_levels price ≡ none
    → All (λ q. goes_behind (is_buy side) q price ≡ true) (prices w own)
    → let a = w.book.price_level_pool.next_free in
      (w' : World) × (get_price_level price side true w ≡ ok (some a, w'))
      × Crowned
          (is_buy side)
          price
          a
          (make_price_level side price (best_of (is_buy side) w.book))
          w
          w'
unfolding get_price_level get_price_level_index crowned_world
get_price_level-Crowned price side w own ladder valid room missing better =
    let cs = addresses own in
    let a = w.book.price_level_pool.next_free in
    let chain : LevelChain (levels w) (best_of (is_buy side) w.book) cs =
      subst (λ (p : Ptr). LevelChain (levels w) p cs) (opposite_best-own side w) ladder.chain in
    let (used, below) = addresses-InUse (opposite side) w own ladder.rungs in
    let few =
      length-InUse w.book.price_level_pool.store w.book.price_level_pool.size cs
        (Distinct-addresses (not (is_buy (opposite side))) w own ladder.ranked) below used in
    let (p', done, t) =
      insert_price_level-crowned price side price w cs valid room chain used (omega arith)
        (not_before-better (is_buy side) price w own better) in
    let next = chain_head (levels w) (best_of (is_buy side) w.book) cs chain in
    (
      crowned w side price a p',
      rw missing done,
      subst
          (λ (q : Ptr).
            Crowned (is_buy side) price a (make_price_level side price q) w
              (crowned w side price a p'))
          (sym next)
          (crowned_world-Crowned price a w (make_price_level side price (head_ptr cs)) p'
            (is_buy side) valid refl t),
    )
