-- ===== src/OrderBook/Match.antt =====
-- cppexchange/orderbook.h: what one call of `match` does to the order that it meets and what it
-- tells the clients and the market.
use cpp_exchange.Prelude.{
  ℕ, ◌+◌, ◌-◌, ◌%◌, ◌≡◌, refl, ap, ◌∙◌, [], ◌∷◌, update, min, Bool, ◌==◌, if◌then◌else◌,
  update_self,
}
use cpp_exchange.Outcome.{Outcome, ok}
use cpp_exchange.Types.{u32_mod, order_id_invalid, trade_id_invalid}
use cpp_exchange.LfQueue.{push, push_all}
use cpp_exchange.Order.{OrderSide, Order}
use cpp_exchange.Messages.{ResponseType, make_response, UpdateType, make_update, MarketUpdate}
use cpp_exchange.OrderBook.State.{
  World, pure, ◌>>◌, orders, set_orders, now, respond, publish, take_trade_id,
}
use cpp_exchange.OrderBook.Matching.{
  retire, keep, confirm_fill, take_quantity, publish_trade, match_at,
}

-- The order at `o` after a fill of `fill`.
abbrev pub reduced : World → (o fill : ℕ) → Order
reduced w o fill = record (orders w o) { quantity = (orders w o).quantity - fill }

-- The trade that `match` publishes in the state `w`.
abbrev pub trade_of : World → OrderSide → (o fill : ℕ) → MarketUpdate
trade_of w side o fill =
    make_update UpdateType.trade w.book.ticker_id order_id_invalid w.next_trade_id side fill
      (orders w o).limit_price (w.clock w.clock_reads)

-- The state after the trade is published and the fill is taken from the order at `o`.
abbrev pub traded : World → OrderSide → (o fill : ℕ) → World
traded w side o fill =
    set_orders
      (record w {
        market_update_queue = push w.market_update_queue (trade_of w side o fill);
        next_trade_id = (w.next_trade_id + 1) % u32_mod;
        clock_reads = w.clock_reads + 1;
      })
      (update (orders w) o (reduced w o fill))

-- The state after both clients are told of the fill.
abbrev pub confirmed : World → (order_id client_id : ℕ) → OrderSide → (o fill : ℕ) → World
confirmed w order_id client_id side o fill =
    let m = orders w o in
    record w {
      client_response_queue = push_all w.client_response_queue (
          make_response ResponseType.filled w.book.ticker_id m.client_id m.order_id m.side fill
            m.limit_price (w.clock w.clock_reads)
          ∷ make_response ResponseType.filled w.book.ticker_id client_id order_id side fill
              m.limit_price (w.clock (w.clock_reads + 1))
          ∷ []);
      clock_reads = w.clock_reads + 1 + 1;
    }

-- The state after the market is told what is left of the order at `o`.
abbrev pub kept : World → ℕ → World
kept w o =
    let m = orders w o in
    record w {
      market_update_queue = push w.market_update_queue (
          make_update UpdateType.modify w.book.ticker_id m.order_id trade_id_invalid m.side
            m.quantity m.limit_price (w.clock w.clock_reads));
      clock_reads = w.clock_reads + 1;
    }

pub confirm_fill-confirmed :
    (order_id client_id : ℕ) (side : OrderSide) (o fill : ℕ) (w : World)
    → confirm_fill order_id client_id side o fill w
      ≡ ok (tt, confirmed w order_id client_id side o fill)
unfolding confirm_fill now respond push_all
confirm_fill-confirmed order_id client_id side o fill w = refl

pub keep-kept : (o : ℕ) (w : World) → keep o w ≡ ok (tt, kept w o)
unfolding keep now publish
keep-kept o w = refl

module _ (order_id client_id : ℕ) (side : OrderSide) (quantity o : ℕ) (w : World) where
  abbrev pub fill_of : ℕ
  fill_of = min quantity (orders w o).quantity

  pub orders-traded : orders (traded w side o fill_of) o ≡ reduced w o fill_of
  orders-traded = update_self (orders w) o (reduced w o fill_of)

  -- The rest of `match`, once the fill is taken and it is known whether the order is used up.
  abbrev pub settle : ℕ → Bool → World → Outcome (ℕ × World)
  settle fill used_up =
      (if used_up then retire o side fill else keep o)
      >> (confirm_fill order_id client_id side o fill >> pure (quantity - fill))

  pub match_at-settle :
      match_at order_id client_id side quantity o w
      ≡ settle fill_of ((orders w o).quantity - fill_of == 0) (traded w side o fill_of)
  unfolding match_at publish_trade take_quantity take_trade_id now publish
  match_at-settle =
      ap (λ (m : Order). settle fill_of (m.quantity == 0) (traded w side o fill_of)) orders-traded

  -- `match` of a fill whose size is known.
  pub match_at-settle_fill :
      (fill : ℕ) (used_up : Bool)
      → fill_of ≡ fill
      → ((orders w o).quantity - fill == 0) ≡ used_up
      → match_at order_id client_id side quantity o w ≡ settle fill used_up (traded w side o fill)
  match_at-settle_fill fill used_up e t =
      match_at-settle
      ∙ ap (λ (f : ℕ). settle f ((orders w o).quantity - f == 0) (traded w side o f)) e
      ∙ ap (λ (b : Bool). settle fill b (traded w side o fill)) t
