-- ===== src/OrderBook/Fill.antt =====
-- cppexchange/orderbook.h: the two outcomes of `match`, an order filled in part and an order that
-- is used up.
use cpp_exchange.Prelude.{
  ℕ, ◌+◌, ◌-◌, ◌%◌, ◌<◌, ◌≡◌, refl, ap, ◌∙◌, List, [], ◌∷◌, arith, false, update_self, update_ne,
  ◌≢◌,
}
use cpp_exchange.Outcome.{ok}
use cpp_exchange.Types.{u32_mod, trade_id_invalid}
use cpp_exchange.LfQueue.{push_all}
use cpp_exchange.Order.{OrderSide, Order}
use cpp_exchange.Messages.{
  ResponseType, make_response, UpdateType, make_update, MarketUpdate, ClientResponse,
}
use cpp_exchange.OrderBook.Pools.{Pools, Pools-same}
use cpp_exchange.OrderBook.State.{World, levels, orders}
use cpp_exchange.OrderBook.Matching.{match_at}
use cpp_exchange.OrderBook.Match.{
  reduced, traded, confirmed, kept, confirm_fill-confirmed, keep-kept, match_at-settle_fill,
  trade_of,
}

module _ (order_id client_id : ℕ) (side : OrderSide) (quantity o : ℕ) (w : World) where
  -- What `match` tells the two clients about a fill with the resting order `m`, in this order and
  -- at these readings of the clock.
  abbrev pub fill_responses : Order → (fill n : ℕ) → List ClientResponse
  fill_responses m fill n =
      make_response ResponseType.filled w.book.ticker_id m.client_id m.order_id m.side fill
        m.limit_price (w.clock n)
      ∷ make_response ResponseType.filled w.book.ticker_id client_id order_id side fill
          m.limit_price (w.clock (n + 1))
      ∷ []

  -- What `match` tells the market: the trade, then what became of the resting order `m`.
  abbrev pub fill_updates : UpdateType → Order → (fill told : ℕ) → List MarketUpdate
  fill_updates type m fill told =
      trade_of w side o fill
      ∷ make_update type w.book.ticker_id m.order_id trade_id_invalid m.side told m.limit_price
          (w.clock (w.clock_reads + 1))
      ∷ []

  -- The parts of the state that a fill changes in the same way whatever becomes of the order.
  pub record Told (fill : ℕ) (type : UpdateType) (told : ℕ) (w' : World) : Type 0 where
    pub updates :
        w'.market_update_queue
        ≡ push_all w.market_update_queue (fill_updates type (orders w o) fill told)
    pub responses :
        w'.client_response_queue
        ≡ push_all w.client_response_queue
            (fill_responses (orders w o) fill (w.clock_reads + 1 + 1))
    pub trade_counted : w'.next_trade_id ≡ (w.next_trade_id + 1) % u32_mod
    pub bids_same : w'.book.best_bids ≡ w.book.best_bids
    pub asks_same : w'.book.best_asks ≡ w.book.best_asks
    pub map_same : w'.book.price_levels ≡ w.book.price_levels
    pub pools : Pools w w'
    pub order_slots_same : w'.book.order_pool.size ≡ w.book.order_pool.size
    pub level_slots_same : w'.book.price_level_pool.size ≡ w.book.price_level_pool.size
    pub level_blocks_same :
        (b : ℕ)
        → (w'.book.price_level_pool.store b).available ≡ (w.book.price_level_pool.store b).available

  -- After a fill in part the order keeps its place, less `quantity`.
  pub record PartlyFilled (w' : World) : Type 0 where
    pub told : Told quantity UpdateType.modify ((orders w o).quantity - quantity) w'
    pub order_left : orders w' o ≡ reduced w o quantity
    pub others : (b : ℕ) → b ≢ o → orders w' b ≡ orders w b
    pub levels_same : levels w' ≡ levels w

  -- A call of `match` for less than the quantity of the resting order fills the incoming order
  -- whole, and leaves the resting order with the difference.
  pub match_at-partial :
      quantity < (orders w o).quantity
      → (w' : World) × (match_at order_id client_id side quantity o w ≡ ok (0, w'))
        × PartlyFilled w'
  unfolding push_all
  match_at-partial h =
      let w1 = traded w side o quantity in
      let w2 = kept w1 o in
      let w3 = confirmed w2 order_id client_id side o quantity in
      let m = update_self (orders w) o (reduced w o quantity) in
      (
        w3,
        match_at-settle_fill order_id client_id side quantity o w quantity false (omega arith)
              (ground arith)
            ∙ rw (keep-kept o w1, confirm_fill-confirmed order_id client_id side o quantity w2)
                (ap (λ (n : ℕ). ok (n, w3)) (omega arith)),
        record {
          told = record {
            updates =
                ap
                  (λ (x : Order).
                    push_all w.market_update_queue
                      (fill_updates UpdateType.modify x quantity x.quantity))
                  m;
            responses =
                ap
                  (λ (x : Order).
                    push_all w.client_response_queue
                      (fill_responses x quantity (w.clock_reads + 1 + 1)))
                  m;
            trade_counted = refl;
            bids_same = refl;
            asks_same = refl;
            map_same = refl;
            pools = Pools-same w w3 refl refl;
            order_slots_same = refl;
            level_slots_same = refl;
            level_blocks_same = λ b. refl;
          };
          order_left = m;
          others = λ b ne. update_ne (orders w) o b (reduced w o quantity) ne;
          levels_same = refl;
        },
      )
