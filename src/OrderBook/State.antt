-- ===== src/OrderBook/State.antt =====
-- cppexchange/orderbook.h: the members of an order book, what its methods reach beside them, and
-- the methods' way of running: on a state, to a value and a new state, or to an end of the process.
use cpp_exchange.Prelude.{ℕ, ◌+◌, ◌%◌, none, update, Bool, true, false}
use cpp_exchange.Outcome
use cpp_exchange.Outcome.{Outcome, ok, undefined}
use cpp_exchange.Types.{u32_mod, max_order_ids, max_price_levels}
use cpp_exchange.LfQueue
use cpp_exchange.LfQueue.{LfQueue}
use cpp_exchange.ObjectPool
use cpp_exchange.ObjectPool.{ObjectPool, ObjectBlock}
use cpp_exchange.Order.{Ptr, Order, Orders, default_order}
use cpp_exchange.PriceLevel.{PriceLevel, default_price_level}
use cpp_exchange.Messages.{ClientResponse, MarketUpdate}

-- `price_levels` maps a price to a level, nullptr for a price that is missing.
pub record OrderBook : Type 0 where
  pub ticker_id : ℕ
  pub order_pool : ObjectPool Order
  pub price_level_pool : ObjectPool PriceLevel
  pub price_levels : ℕ → Ptr
  pub best_bids : Ptr
  pub best_asks : Ptr

-- The constructor.
unfoldable pub create : ℕ → OrderBook
create ticker_id = record {
  ticker_id = ticker_id;
  order_pool = ObjectPool.create max_order_ids default_order;
  price_level_pool = ObjectPool.create max_price_levels default_price_level;
  price_levels = λ _. none;
  best_bids = none;
  best_asks = none;
}

-- A book with the queues, the caller's counter of trades, and the clock: `clock n` is what the
-- reading of `getCurrentNsTimestamp` after `n` others returns.
pub record World : Type 0 where
  pub book : OrderBook
  pub client_response_queue : LfQueue ClientResponse
  pub market_update_queue : LfQueue MarketUpdate
  pub next_trade_id : ℕ
  pub clock : ℕ → ℕ
  pub clock_reads : ℕ

abbrev pub Cmd : Type 0 → Type 0
Cmd A = World → Outcome (A × World)

abbrev pub pure : {A : Type 0} → A → Cmd A
pure a w = ok (a, w)

infixl 5 ◌>>=◌ ◌>>◌
abbrev pub ◌>>=◌ : {A B : Type 0} → Cmd A → (A → Cmd B) → Cmd B
◌>>=◌ m f w = Outcome.◌>>=◌ (m w) (λ r. f r.0 r.1)

abbrev pub ◌>>◌ : {B : Type 0} → Cmd (Unit {0}) → Cmd B → Cmd B
m >> k = m >>= λ _. k

-- A step that can fail and touches no state.
abbrev pub lift : {A : Type 0} → Outcome A → Cmd A
lift o w = Outcome.◌>>=◌ o (λ a. ok (a, w))

-- A step that reads the state.
abbrev pub gets : {A : Type 0} → (World → A) → Cmd A
gets f w = ok (f w, w)

abbrev pub modify : (World → World) → Cmd (Unit {0})
modify f w = ok (tt, f w)

-- getCurrentNsTimestamp()
unfoldable pub now : Cmd ℕ
now w = ok (w.clock w.clock_reads, record w { clock_reads = w.clock_reads + 1 })

-- client_response_queue->push and market_update_queue->push
unfoldable pub respond : ClientResponse → Cmd (Unit {0})
respond m w = ok (tt, record w { client_response_queue = LfQueue.push w.client_response_queue m })

unfoldable pub publish : MarketUpdate → Cmd (Unit {0})
publish m w = ok (tt, record w { market_update_queue = LfQueue.push w.market_update_queue m })

-- next_trade_id++
unfoldable pub take_trade_id : Cmd ℕ
take_trade_id w = ok (w.next_trade_id, record w { next_trade_id = (w.next_trade_id + 1) % u32_mod })

-- The objects that a pool's memory holds, and that memory after a write to the objects.
abbrev pub objects : {T : Type 0} → ObjectPool T → ℕ → T
objects p i = (p.store i).object

abbrev pub with_objects : {T : Type 0} → ObjectPool T → (ℕ → T) → ObjectPool T
with_objects p f = record p { store = λ i. record (p.store i) { object = f i } }

abbrev pub orders : World → Orders
orders w = objects w.book.order_pool

abbrev pub levels : World → ℕ → PriceLevel
levels w = objects w.book.price_level_pool

abbrev pub with_book : World → OrderBook → World
with_book w b = record w { book = b }

abbrev pub set_orders : World → Orders → World
set_orders w h =
    let b = w.book in with_book w (record b { order_pool = with_objects b.order_pool h })

abbrev pub set_level : World → ℕ → PriceLevel → World
set_level w a l =
    let b = w.book in
    with_book w
      (record b { price_level_pool = with_objects b.price_level_pool (update (levels w) a l) })

-- The best level of the side that `side` names.
abbrev pub best_of : Bool → OrderBook → Ptr
best_of true b = b.best_bids
best_of false b = b.best_asks

abbrev pub with_best : Bool → OrderBook → Ptr → OrderBook
with_best true b p = record b { best_bids = p }
with_best false b p = record b { best_asks = p }
