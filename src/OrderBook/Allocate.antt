-- ===== src/OrderBook/Allocate.antt =====
-- cppexchange/orderbook.h: a new order from the order pool.
use cpp_exchange.Prelude.{
  ℕ, ◌+◌, ◌≤◌, ◌<◌, ◌≡◌, ◌≢◌, refl, sym, ap, List, arith, Fresh, All, [], ◌∷◌, true, false,
}
use cpp_exchange.Outcome.{ok}
use cpp_exchange.ObjectPool.{ObjectPool, ObjectBlock}
use cpp_exchange.ObjectPool.Laws.{IsValid, free_count, Taken, get_object-Taken}
use cpp_exchange.Order.{OrderSide, Order}
use cpp_exchange.OrderBook.Quiet.{Quiet}
use cpp_exchange.OrderBook.State.{World, with_book, orders}
use cpp_exchange.OrderBook.Entry.{allocate_order}
use cpp_exchange.OrderBook.Pools.{Fresh-of_free}
use cpp_exchange.OrderBook.Ladder.{Rung, All-map}
use cpp_exchange.OrderBook.Frame.{StillRung, Rung-SameFor}

-- The order `o` has been put at `x`, a block that was free; every level of the book is as it was.
pub record Allocated (o : Order) (x : ℕ) (w w' : World) : Type 0 where
  pub was_free : (w.book.order_pool.store x).available ≡ true
  pub holds : orders w' x ≡ o
  pub taken : (w'.book.order_pool.store x).available ≡ false
  pub below : x < w'.book.order_pool.size
  pub still : (s : OrderSide) (b : ℕ) (m : List ℕ) → Rung s w b m → StillRung s b m w w'
  pub bids_same : w'.book.best_bids ≡ w.book.best_bids
  pub asks_same : w'.book.best_asks ≡ w.book.best_asks
  pub map_same : w'.book.price_levels ≡ w.book.price_levels
  pub level_pool_same : w'.book.price_level_pool ≡ w.book.price_level_pool
  pub valid : IsValid w'.book.order_pool
  pub one_less : free_count w'.book.order_pool + 1 ≡ free_count w.book.order_pool
  pub quiet : Quiet w w'
  pub other_orders : (b : ℕ) → b ≢ x → orders w' b ≡ orders w b

same_blocks :
    (p p' : ObjectPool Order) (o : Order) (x : ℕ) (m : List ℕ)
    → Taken p o x p'
    → Fresh x m
    → All (λ b. p'.store b ≡ p.store b) m
same_blocks p p' o x [] t f = tt
same_blocks p p' o x (b ∷ m) t f = (t.others b (λ e. f.0 (sym e)), same_blocks p p' o x m t f.1)

-- Where two blocks are to spare, an order can be had from the pool.
pub allocate_order-Allocated :
    (o : Order) (w : World)
    → IsValid w.book.order_pool
    → 2 ≤ free_count w.book.order_pool
    → let x = w.book.order_pool.next_free in
      (w' : World) × (allocate_order o w ≡ ok (x, w')) × Allocated o x w w'
unfolding allocate_order
allocate_order-Allocated o w valid room =
    let b = w.book in
    let x = b.order_pool.next_free in
    let (p', got, t) = get_object-Taken b.order_pool o valid room in
    let w' = with_book w (record b { order_pool = p' }) in
    (
      w',
      rw got refl,
      record {
        was_free = t.was_free;
        holds = ap ObjectBlock.object t.holds;
        taken = ap ObjectBlock.available t.holds;
        below = (let e = t.size_same in let k = valid.next_in in omega arith);
        still = λ s a m r.
            let same =
              same_blocks b.order_pool p' o x m t
                (Fresh-of_free b.order_pool x m t.was_free r.in_use) in
            Rung-SameFor s a m w w'
              (record {
                orders_same = All-map m (λ c e. ap ObjectBlock.object e) same;
                order_blocks_same = All-map m (λ c e. ap ObjectBlock.available e) same;
                order_slots_same = t.size_same;
                level_same = refl;
                level_block_same = refl;
                level_slots_same = refl;
                mapped_same = refl;
              })
              r;
        bids_same = refl;
        asks_same = refl;
        map_same = refl;
        level_pool_same = refl;
        valid = t.valid;
        one_less = t.one_less;
        quiet = record {
          ticker_same = refl;
          responses_same = refl;
          updates_same = refl;
          trades_same = refl;
          clock_same = refl;
          reads_same = refl;
        };
        other_orders = λ c ne. ap ObjectBlock.object (t.others c ne);
      },
    )
