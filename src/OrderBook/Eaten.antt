-- ===== src/OrderBook/Eaten.antt =====
-- cppexchange/orderbook.h: the best level after an incoming order has been filled from it.
use native.Mathlib.Decide.{ℕ_discrete}
use cpp_exchange.Prelude.{
  ℕ, ◌-◌, ◌≤◌, ◌<◌, ◌≡◌, refl, sym, ap, ◌∙◌, subst, List, ◌∷◌, arith, ltb, true, false, ap₂, ◌≢◌,
}
use cpp_exchange.Order.{OrderSide, Order}
use cpp_exchange.PriceLevel.{PriceLevel}
use cpp_exchange.PriceLevel.Ring.{Ring, SamePointers, Ring-of_pointers, SameOutside}
use cpp_exchange.OrderBook.Pools.{Pools, Pools-same, Pools-trans}
use cpp_exchange.OrderBook.State.{World, levels, orders}
use cpp_exchange.OrderBook.Fill.{PartlyFilled}
use cpp_exchange.OrderBook.Match.{reduced}
use cpp_exchange.OrderBook.UsedUp.{UsedUp}
use cpp_exchange.OrderBook.Front.{
  Front, quantities, eat, standing, identity, UsedUp-identity, UsedUp-quantities, map-except,
}

-- `n` has been taken from the orders `l` of the level at `a`, in the order of their times: the
-- orders that are left stand in the ring in the same order with what is left of their quantities,
-- and nothing else has changed but the pointers of the orders that left.
pub record Eaten (n a : ℕ) (l : List ℕ) (w w' : World) : Type 0 where
  pub ring : Ring (orders w') (levels w' a).top_order (standing n (quantities (orders w) l) l)
  pub quantities_left :
      quantities (orders w') (standing n (quantities (orders w) l) l)
      ≡ eat n (quantities (orders w) l)
  pub identities : (b : ℕ) → identity (orders w' b) ≡ identity (orders w b)
  pub others : SameOutside l (orders w) (orders w')
  pub price : (levels w' a).price_level ≡ (levels w a).price_level
  pub next_level : (levels w' a).next_price_level ≡ (levels w a).next_price_level
  pub other_levels : (b : ℕ) → b ≢ a → levels w' b ≡ levels w b
  pub bids_same : w'.book.best_bids ≡ w.book.best_bids
  pub asks_same : w'.book.best_asks ≡ w.book.best_asks
  pub map_same : w'.book.price_levels ≡ w.book.price_levels
  pub level_side : (levels w' a).side ≡ (levels w a).side
  pub pools : Pools w w'
  pub order_slots_same : w'.book.order_pool.size ≡ w.book.order_pool.size
  pub level_slots_same : w'.book.price_level_pool.size ≡ w.book.price_level_pool.size
  pub level_blocks_same :
      (b : ℕ)
      → (w'.book.price_level_pool.store b).available ≡ (w.book.price_level_pool.store b).available

-- Nothing taken.
pub Eaten-zero :
    (side : OrderSide) (a o : ℕ) (l : List ℕ) (w : World)
    → Front side w a (o ∷ l)
    → Eaten 0 a (o ∷ l) w w
Eaten-zero side a o l w f =
    let t : ltb 0 (orders w o).quantity ≡ true = (let p = f.positive.0 in ground arith) in
    record {
      ring = rw t f.ring;
      quantities_left = rw t (ap (λ q. q ∷ quantities (orders w) l) (omega arith));
      identities = λ b. refl;
      others = λ b n. refl;
      price = refl;
      next_level = refl;
      other_levels = λ b n. refl;
      bids_same = refl;
      asks_same = refl;
      map_same = refl;
      level_side = refl;
      pools = Pools-same w w refl refl;
      order_slots_same = refl;
      level_slots_same = refl;
      level_blocks_same = λ b. refl;
    }

module _ (order_id client_id : ℕ) (side : OrderSide) (quantity o a : ℕ) (l : List ℕ) (w w' : World)
    (f : Front side w a (o ∷ l)) where
  -- A part of an order that its quantity is no part of is the same for all orders.
  PartlyFilled-same :
      {T : Type 0} (part : Order → T)
      → PartlyFilled order_id client_id side quantity o w w'
      → part (reduced w o quantity) ≡ part (orders w o)
      → (b : ℕ) → part (orders w' b) ≡ part (orders w b)
  PartlyFilled-same part p same b = elim (ℕ_discrete b o) [
    | yes e ↦
        subst (λ (k : ℕ). part (orders w' k) ≡ part (orders w k)) (sym e)
          (ap part p.order_left ∙ same)
    | no ne ↦ ap part (p.others b ne)
  ]

  -- A fill in part is the end of the sweep.
  pub Eaten-partial :
      quantity < (orders w o).quantity
      → PartlyFilled order_id client_id side quantity o w w'
      → Eaten quantity a (o ∷ l) w w'
  Eaten-partial less p =
      let t : ltb quantity (orders w o).quantity ≡ true = ground arith in
      let pointers : SamePointers (orders w) (orders w') = record {
        next_same = PartlyFilled-same Order.next p refl;
        previous_same = PartlyFilled-same Order.previous p refl;
      } in
      let r = Ring-of_pointers pointers (levels w a).top_order (o ∷ l) f.ring in
      record {
        ring = rw t (ap (λ (m : ℕ → PriceLevel). (m a).top_order) p.levels_same ∙ r.0, r.1, r.2);
        quantities_left = rw t (
            ap₂ (λ q qs. q ∷ qs) (ap Order.quantity p.order_left)
              (map-except o l f.ring.2.0 (λ b ne. ap Order.quantity (p.others b ne))));
        identities = PartlyFilled-same identity p refl;
        others = λ b n. p.others b n.0;
        price = ap (λ (m : ℕ → PriceLevel). (m a).price_level) p.levels_same;
        next_level = ap (λ (m : ℕ → PriceLevel). (m a).next_price_level) p.levels_same;
        other_levels = λ b n. ap (λ (m : ℕ → PriceLevel). m b) p.levels_same;
        bids_same = p.told.bids_same;
        asks_same = p.told.asks_same;
        map_same = p.told.map_same;
        level_side = ap (λ (m : ℕ → PriceLevel). (m a).side) p.levels_same;
        pools = p.told.pools;
        order_slots_same = p.told.order_slots_same;
        level_slots_same = p.told.level_slots_same;
        level_blocks_same = p.told.level_blocks_same;
      }

-- An order is used up, and then the rest of `quantity` is taken from the others.
pub Eaten-UsedUp :
    (order_id client_id : ℕ) (side : OrderSide) (quantity o a : ℕ) (l : List ℕ) (w w1 w' : World)
    → Front side w a (o ∷ l)
    → (orders w o).quantity ≤ quantity
    → UsedUp order_id client_id side quantity o w a l w1
    → Eaten (quantity - (orders w o).quantity) a l w1 w'
    → Eaten quantity a (o ∷ l) w w'
Eaten-UsedUp order_id client_id side quantity o a l w w1 w' f enough used e =
    let t : ltb quantity (orders w o).quantity ≡ false = ground arith in
    let q = quantity - (orders w o).quantity in
    let same = UsedUp-quantities order_id client_id side quantity o w w1 a l used f.ring.2.0 in
    record {
      ring = rw t (
          subst (λ (qs : List ℕ). Ring (orders w') (levels w' a).top_order (standing q qs l)) same
            e.ring);
      quantities_left = rw t (
          subst (λ (qs : List ℕ). quantities (orders w') (standing q qs l) ≡ eat q qs) same
            e.quantities_left);
      identities =
          λ b. e.identities b ∙ UsedUp-identity order_id client_id side quantity o w w1 a l used b;
      others = λ b n. e.others b n.1 ∙ used.outside b n;
      price = e.price ∙ used.price;
      next_level = e.next_level ∙ used.next_level;
      other_levels = λ b n. e.other_levels b n ∙ used.other_levels b n;
      bids_same = e.bids_same ∙ used.told.bids_same;
      asks_same = e.asks_same ∙ used.told.asks_same;
      map_same = e.map_same ∙ used.told.map_same;
      level_side = e.level_side ∙ used.level_side;
      pools = Pools-trans w w1 w' used.told.pools e.pools;
      order_slots_same = e.order_slots_same ∙ used.told.order_slots_same;
      level_slots_same = e.level_slots_same ∙ used.told.level_slots_same;
      level_blocks_same = λ b. e.level_blocks_same b ∙ used.told.level_blocks_same b;
    }
