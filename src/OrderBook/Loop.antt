-- ===== src/OrderBook/Loop.antt =====
-- cppexchange/orderbook.h: one round of the loops of `checkForMatch`, and their end.
use cpp_exchange.Prelude.{ℕ, suc, ◌<◌, arith, ◌≡◌, some, none, true, false, not, Bool, ◌==◌, ◌&&◌}
use cpp_exchange.Outcome.{ok}
use cpp_exchange.Order.{OrderSide, is_buy, Ptr}
use cpp_exchange.PriceLevel.{top, get_price}
use cpp_exchange.OrderBook.State.{World, levels, best_of}
use cpp_exchange.OrderBook.Levels.{remove_price_level}
use cpp_exchange.OrderBook.Matching.{match_at, match_best, match_loop, crosses}

-- The best level that an incoming order on `side` meets.
abbrev pub opposite_best : OrderSide → World → Ptr
opposite_best side w = best_of (not (is_buy side)) w.book

-- An order that is not filled yet goes on at an acceptable price.
pub not_filled :
    (n : ℕ) {acceptable : Bool} → 0 < n → acceptable ≡ true → (not (n == 0) && acceptable) ≡ true
not_filled n more h = ground arith

pub not_acceptable :
    (n : ℕ) {acceptable : Bool} → acceptable ≡ false → (not (n == 0) && acceptable) ≡ false
not_acceptable n h = ground arith

module _ (order_id client_id : ℕ) (side : OrderSide) where
  -- A round in which the best level keeps an order is one `match`.
  pub match_best-stays :
      (quantity a b o o' left : ℕ) (w w1 : World)
      → (levels w a).top_order ≡ some o
      → match_at order_id client_id side quantity o w ≡ ok (left, w1)
      → opposite_best side w1 ≡ some b
      → (levels w1 b).top_order ≡ some o'
      → match_best order_id client_id side quantity a w ≡ ok (left, w1)
  unfolding match_best top
  match_best-stays quantity a b o o' left w w1 first done best second =
      rw (first, done, best, second)

  pub match_loop-stops :
      (fuel quantity limit_price a : ℕ) (w : World)
      → opposite_best side w ≡ some a
      → (not (quantity == 0) && crosses (is_buy side) limit_price (levels w a).price_level) ≡ false
      → match_loop (suc fuel) order_id client_id side quantity limit_price w ≡ ok (quantity, w)
  unfolding match_loop get_price
  match_loop-stops fuel quantity limit_price a w best stop = rw (best, stop)

  pub match_loop-goes :
      (fuel quantity limit_price a left : ℕ) (w w1 : World)
      → opposite_best side w ≡ some a
      → (not (quantity == 0) && crosses (is_buy side) limit_price (levels w a).price_level) ≡ true
      → match_best order_id client_id side quantity a w ≡ ok (left, w1)
      → match_loop (suc fuel) order_id client_id side quantity limit_price w
        ≡ match_loop fuel order_id client_id side left limit_price w1
  unfolding match_loop get_price
  match_loop-goes fuel quantity limit_price a left w w1 best go done = rw (best, go, done)

  -- A round that empties the best level removes it.
  pub match_best-empties :
      (quantity a o left : ℕ) (w w1 w2 : World)
      → (levels w a).top_order ≡ some o
      → match_at order_id client_id side quantity o w ≡ ok (left, w1)
      → opposite_best side w1 ≡ some a
      → (levels w1 a).top_order ≡ none
      → remove_price_level a w1 ≡ ok (tt, w2)
      → match_best order_id client_id side quantity a w ≡ ok (left, w2)
  unfolding match_best top
  match_best-empties quantity a o left w w1 w2 first done best empty removed =
      rw (first, done, best, empty, removed)

  pub match_loop-ends :
      (fuel quantity limit_price : ℕ) (w : World)
      → opposite_best side w ≡ none
      → match_loop (suc fuel) order_id client_id side quantity limit_price w ≡ ok (quantity, w)
  unfolding match_loop
  match_loop-ends fuel quantity limit_price w best = rw best
