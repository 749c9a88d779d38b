-- ===== src/OrderBook/UsedUp.antt =====
-- cppexchange/orderbook.h: `match` against an order that is filled up.
use cpp_exchange.Prelude.{
  ℕ, ◌+◌, ◌-◌, ◌≤◌, ◌≡◌, refl, ap, ◌∙◌, some, List, ◌∷◌, arith, true, update_self, update_ne, ◌≢◌,
  length,
}
use cpp_exchange.Outcome.{ok}
use cpp_exchange.LfQueue.{push_all}
use cpp_exchange.Order.{OrderSide, Order}
use cpp_exchange.PriceLevel.Ring.{Ring, detach, SamePointers, Ring-of_pointers, SameOutside}
use cpp_exchange.Messages.{UpdateType}
use cpp_exchange.OrderBook.Pools.{Pools-same}
use cpp_exchange.OrderBook.State.{World, levels, orders, set_orders, set_level}
use cpp_exchange.OrderBook.Matching.{match_at}
use cpp_exchange.OrderBook.Match.{
  reduced, traded, confirmed, confirm_fill-confirmed, match_at-settle_fill,
}
use cpp_exchange.OrderBook.Fill.{Told, fill_responses, fill_updates}
use cpp_exchange.OrderBook.Retire.{told_removal, retire-Retired}

traded-SamePointers :
    (w : World) (side : OrderSide) (o fill : ℕ)
    → SamePointers (orders w) (orders (traded w side o fill))
traded-SamePointers w side o fill = record {
  next_same = λ b. ground arith;
  previous_same = λ b. ground arith;
}

module _ (order_id client_id : ℕ) (side : OrderSide) (quantity o : ℕ) (w : World) where
  -- After a fill of all that the order at `o` offers: it has left the level at `a`, whose other
  -- orders `l` keep their places, nothing is left of it, and no other order or level has changed
  -- but in the pointers of that ring.
  pub record UsedUp (a : ℕ) (l : List ℕ) (w' : World) : Type 0 where
    pub told :
        let q = (orders w o).quantity in
        Told order_id client_id side quantity o w q UpdateType.remove q w'
    pub ring : Ring (orders w') (levels w' a).top_order l
    pub gone : orders w' o ≡ detach (record (orders w o) { quantity = 0 })
    pub payload : (b : ℕ) → b ≢ o → detach (orders w' b) ≡ detach (orders w b)
    pub outside : SameOutside (o ∷ l) (orders w) (orders w')
    pub price : (levels w' a).price_level ≡ (levels w a).price_level
    pub next_level : (levels w' a).next_price_level ≡ (levels w a).next_price_level
    pub level_side : (levels w' a).side ≡ (levels w a).side
    pub other_levels : (b : ℕ) → b ≢ a → levels w' b ≡ levels w b

  -- A call of `match` for at least the quantity of the resting order, which is first in the level
  -- that the map has at its price, uses the resting order up and returns the difference.
  pub match_at-UsedUp :
      (a : ℕ) (l : List ℕ)
      → (orders w o).quantity ≤ quantity
      → w.book.price_levels (orders w o).limit_price ≡ some a
      → Ring (orders w) (levels w a).top_order (o ∷ l)
      → length l ≤ w.book.order_pool.size
      → (w' : World) × (match_at order_id client_id side quantity o w
          ≡ ok (quantity - (orders w o).quantity, w'))
        × UsedUp a l w'
  unfolding push_all
  match_at-UsedUp a l enough found r small =
      let q = (orders w o).quantity in
      let w1 = traded w side o q in
      let m = update_self (orders w) o (reduced w o q) in
      let (lv, g, done, retired) =
        retire-Retired w1 side q a o l
          (ap (λ (x : Order). w.book.price_levels x.limit_price) m ∙ found)
          (Ring-of_pointers (traded-SamePointers w side o q) (levels w a).top_order (o ∷ l) r)
          small in
      let w2 = set_level (set_orders (told_removal w1 o q) g) a lv in
      let w3 = confirmed w2 order_id client_id side o q in
      let gone = retired.detached ∙ ap detach m in
      (
        w3,
        match_at-settle_fill order_id client_id side quantity o w q true (omega arith)
              (ground arith)
            ∙ rw (done, confirm_fill-confirmed order_id client_id side o q w2),
        record {
          told = record {
            updates =
                ap
                  (λ (x : Order).
                    push_all w.market_update_queue
                      (fill_updates order_id client_id side quantity o w UpdateType.remove x q q))
                  m;
            responses =
                ap
                  (λ (x : Order). push_all w.client_response_queue (
                    fill_responses order_id client_id side quantity o w x q
                      (w.clock_reads + 1 + 1)))
                  gone;
            trade_counted = refl;
            bids_same = refl;
            asks_same = refl;
            map_same = refl;
            pools = Pools-same w w3 refl refl;
            order_slots_same = refl;
            level_slots_same = refl;
            level_blocks_same = λ b. refl;
          };
          ring = retired.ring;
          gone = gone ∙ ap (λ (n : ℕ). detach (record (orders w o) { quantity = n })) (omega arith);
          payload =
              λ b ne. retired.payload b ∙ ap detach (update_ne (orders w) o b (reduced w o q) ne);
          outside = λ b f. retired.outside b f ∙ update_ne (orders w) o b (reduced w o q) f.0;
          price = retired.price;
          next_level = retired.next_level;
          level_side = retired.level_side;
          other_levels = retired.other_levels;
        },
      )
