-- ===== src/OrderBook/Remove.antt =====
-- cppexchange/orderbook.h: `removePriceLevel` of the best level of a side.
use cpp_exchange.Prelude.{ℕ, ◌<◌, ◌≡◌, some, none, true, false, Bool, ltb, arith, update, eq_self}
use cpp_exchange.Outcome.{ok}
use cpp_exchange.ObjectPool.{release_object}
use cpp_exchange.Order.{is_buy, Ptr, ptr_eq}
use cpp_exchange.PriceLevel.{get_price, get_next_price_level, get_side}
use cpp_exchange.OrderBook.State.{World, levels, best_of, with_best, with_book}
use cpp_exchange.OrderBook.Levels.{remove_price_level, unchain_level, get_price_level_index}

ptr_eq_best : (a : ℕ) (best : Ptr) → best ≡ some a → ptr_eq (some a) best ≡ true
ptr_eq_best a best e = rw e (eq_self a)

-- The state after the level at `a`, the best of its side, is removed.
abbrev pub removed_best : World → ℕ → World
removed_best w a =
    let l = levels w a in
    let b = with_best (is_buy l.side) w.book l.next_price_level in
    with_book w (record b {
      price_levels = update w.book.price_levels l.price_level none;
      price_level_pool = record (w.book.price_level_pool) {
        store = update w.book.price_level_pool.store a (record { object = l; available = true });
      };
    })

-- `removePriceLevel` of a level that is the best of its side, and whose block is handed out, makes
-- the level behind it the best, erases its price from the map and frees its block, with the level
-- in it left as it was; it changes nothing else.
pub remove_price_level-removed_best :
    (w : World) (a : ℕ) (buy : Bool)
    → is_buy (levels w a).side ≡ buy
    → best_of buy w.book ≡ some a
    → a < w.book.price_level_pool.size
    → (w.book.price_level_pool.store a).available ≡ false
    → remove_price_level a w ≡ ok (tt, removed_best w a)
unfolding remove_price_level unchain_level get_price get_next_price_level get_side
    get_price_level_index release_object
remove_price_level-removed_best w a true side best below taken =
    let t : ltb a w.book.price_level_pool.size ≡ true = ground arith in
    rw (side, ptr_eq_best a (best_of true w.book) best, side, t, taken)
remove_price_level-removed_best w a false side best below taken =
    let t : ltb a w.book.price_level_pool.size ≡ true = ground arith in
    rw (side, ptr_eq_best a (best_of false w.book) best, side, t, taken)
