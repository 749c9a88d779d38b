-- ===== src/OrderBook/Frame.antt =====
-- cppexchange/orderbook.h: what a level needs to stay as it is, whatever else changes.
use cpp_exchange.Prelude.{
  ℕ, ◌<◌, ◌≡◌, ◌≢◌, refl, sym, ap, ◌∙◌, ap₂, subst, List, [], ◌∷◌, arith, Fresh, All,
}
use cpp_exchange.Order.{OrderSide, is_buy, Order, Orders, Ptr}
use cpp_exchange.PriceLevel.{PriceLevel}
use cpp_exchange.PriceLevel.Ring.{Ring, Ring-of_All, SameOutside}
use cpp_exchange.OrderBook.State.{OrderBook, World, levels, orders}
use cpp_exchange.OrderBook.Pools.{Pools, order_block_same}
use cpp_exchange.OrderBook.Front.{quantities, total}
use cpp_exchange.OrderBook.Eaten.{Eaten}
use cpp_exchange.OrderBook.Drain.{Drained}
use cpp_exchange.OrderBook.Ladder.{Rung, All-map, All-both}

-- What a change of the level at `a`, which holds the orders `l`, leaves to the other levels.
pub record Kept (a : ℕ) (l : List ℕ) (w w' : World) : Type 0 where
  pub outside : SameOutside l (orders w) (orders w')
  pub other_levels : (b : ℕ) → b ≢ a → levels w' b ≡ levels w b
  pub other_prices :
      (p : ℕ) → p ≢ (levels w a).price_level → w'.book.price_levels p ≡ w.book.price_levels p
  pub pools : Pools w w'
  pub order_slots_same : w'.book.order_pool.size ≡ w.book.order_pool.size
  pub level_slots_same : w'.book.price_level_pool.size ≡ w.book.price_level_pool.size
  pub other_blocks :
      (b : ℕ)
      → b ≢ a
      → (w'.book.price_level_pool.store b).available ≡ (w.book.price_level_pool.store b).available

pub Drained-Kept :
    (side : OrderSide) (a : ℕ) (l : List ℕ) (w w' : World) → Drained side a l w w' → Kept a l w w'
Drained-Kept side a l w w' d = record {
  outside = d.outside;
  other_levels = d.other_levels;
  other_prices = d.other_prices;
  pools = d.pools;
  order_slots_same = d.order_slots_same;
  level_slots_same = d.level_slots_same;
  other_blocks = d.other_blocks;
}

pub Eaten-Kept : (n a : ℕ) (l : List ℕ) (w w' : World) → Eaten n a l w w' → Kept a l w w'
Eaten-Kept n a l w w' e = record {
  outside = e.others;
  other_levels = e.other_levels;
  other_prices = λ p n'. ap (λ (m : ℕ → Ptr). m p) e.map_same;
  pools = e.pools;
  order_slots_same = e.order_slots_same;
  level_slots_same = e.level_slots_same;
  other_blocks = λ b n'. e.level_blocks_same b;
}

-- An order at another price is none of a level's.
Fresh-price :
    (w : World) (p b : ℕ) (l : List ℕ)
    → (orders w b).limit_price ≢ p
    → All (λ o. (orders w o).limit_price ≡ p) l
    → Fresh b l
Fresh-price w p b [] n ps = tt
Fresh-price w p b (o ∷ l) n ps =
    (λ e. n (ap (λ (k : ℕ). (orders w k).limit_price) e ∙ ps.0), Fresh-price w p b l n ps.1)

pub quantities-same :
    (h g : Orders) (l : List ℕ) → All (λ b. g b ≡ h b) l → quantities g l ≡ quantities h l
quantities-same h g [] s = refl
quantities-same h g (b ∷ l) s =
    ap₂ (λ q qs. q ∷ qs) (ap Order.quantity s.0) (quantities-same h g l s.1)

-- From `w` to `w'` nothing has changed that the level at `b` with the orders `m` rests on.
pub record SameFor (b : ℕ) (m : List ℕ) (w w' : World) : Type 0 where
  pub orders_same : All (λ o. orders w' o ≡ orders w o) m
  pub order_blocks_same :
      All (λ o. (w'.book.order_pool.store o).available ≡ (w.book.order_pool.store o).available) m
  pub order_slots_same : w'.book.order_pool.size ≡ w.book.order_pool.size
  pub level_same : levels w' b ≡ levels w b
  pub level_block_same :
      (w'.book.price_level_pool.store b).available ≡ (w.book.price_level_pool.store b).available
  pub level_slots_same : w'.book.price_level_pool.size ≡ w.book.price_level_pool.size
  pub mapped_same :
      w'.book.price_levels (levels w b).price_level ≡ w.book.price_levels (levels w b).price_level

-- The level at `b` with the orders `m` is as well formed in `w'` as it was in `w`, and the same.
pub record StillRung (side : OrderSide) (b : ℕ) (m : List ℕ) (w w' : World) : Type 0 where
  pub rung : Rung side w' b m
  pub quantities_same : quantities (orders w') m ≡ quantities (orders w) m
  pub level_same : levels w' b ≡ levels w b

pub Rung-SameFor :
    (side : OrderSide) (b : ℕ) (m : List ℕ) (w w' : World)
    → SameFor b m w w'
    → Rung side w b m
    → StillRung side b m w w'
Rung-SameFor side b m w w' s r =
    let lev = s.level_same in
    let same = s.orders_same in
    let qs = quantities-same (orders w) (orders w') m same in
    record {
      rung = record {
        ring =
            subst (λ (k : PriceLevel). Ring (orders w') k.top_order m) (sym lev)
              (Ring-of_All (orders w) (orders w') (levels w b).top_order m same r.ring);
        priced =
            All-both m (λ o e p. ap Order.limit_price e ∙ p ∙ sym (ap PriceLevel.price_level lev))
              same r.priced;
        listed =
            ap (λ (k : PriceLevel). w'.book.price_levels k.price_level) lev
            ∙ s.mapped_same
            ∙ r.listed;
        positive =
            All-both m (λ o e p. subst (λ (k : Order). 0 < k.quantity) (sym e) p) same r.positive;
        stocked = subst (λ (k : List ℕ). 0 < total k) (sym qs) r.stocked;
        room = (let e = s.order_slots_same in let k = r.room in omega arith);
        in_use = All-both m (λ o e u. e ∙ u) s.order_blocks_same r.in_use;
        in_pool = All-map m (λ o k. (let e = s.order_slots_same in omega arith)) r.in_pool;
        housed = record {
          level_side = ap (λ (k : PriceLevel). is_buy k.side) lev ∙ r.housed.level_side;
          below = (let e = s.level_slots_same in let k = r.housed.below in omega arith);
          taken = s.level_block_same ∙ r.housed.taken;
        };
      };
      quantities_same = qs;
      level_same = lev;
    }

pub StillRung-trans :
    (side : OrderSide) (b : ℕ) (m : List ℕ) (w w1 w2 : World)
    → StillRung side b m w w1
    → StillRung side b m w1 w2
    → StillRung side b m w w2
StillRung-trans side b m w w1 w2 r s = record {
  rung = s.rung;
  quantities_same = s.quantities_same ∙ r.quantities_same;
  level_same = s.level_same ∙ r.level_same;
}

-- A level rests on nothing but the book.
pub StillRung-book :
    (side : OrderSide) (b : ℕ) (m : List ℕ) (w w' : World)
    → w'.book ≡ w.book
    → Rung side w b m
    → StillRung side b m w w'
StillRung-book side b m w w' e r =
    Rung-SameFor side b m w w'
      (record {
        orders_same =
            All-map m (λ o u. ap (λ (k : OrderBook). (k.order_pool.store o).object) e) r.in_use;
        order_blocks_same =
            All-map m (λ o u. ap (λ (k : OrderBook). (k.order_pool.store o).available) e) r.in_use;
        order_slots_same = ap (λ (k : OrderBook). k.order_pool.size) e;
        level_same = ap (λ (k : OrderBook). (k.price_level_pool.store b).object) e;
        level_block_same = ap (λ (k : OrderBook). (k.price_level_pool.store b).available) e;
        level_slots_same = ap (λ (k : OrderBook). k.price_level_pool.size) e;
        mapped_same = ap (λ (k : OrderBook). k.price_levels (levels w b).price_level) e;
      })
      r

module _ (side : OrderSide) (a : ℕ) (l : List ℕ) (w w' : World) (kept : Kept a l w w')
    (priced : All (λ o. (orders w o).limit_price ≡ (levels w a).price_level) l) where
  -- A level at another price is as well formed as before.
  pub Rung-Kept :
      (b : ℕ) (m : List ℕ)
      → (levels w b).price_level ≢ (levels w a).price_level
      → Rung side w b m
      → StillRung side b m w w'
  Rung-Kept b m n r =
      let ne : b ≢ a = λ e. n (ap (λ (k : ℕ). (levels w k).price_level) e) in
      Rung-SameFor side b m w w'
        (record {
          orders_same =
              All-map m
                (λ o e.
                  kept.outside o
                    (Fresh-price w (levels w a).price_level o l (λ e'. n (sym e ∙ e')) priced))
                r.priced;
          order_blocks_same = All-map m (λ o u. order_block_same w w' kept.pools o) r.in_use;
          order_slots_same = kept.order_slots_same;
          level_same = kept.other_levels b ne;
          level_block_same = kept.other_blocks b ne;
          level_slots_same = kept.level_slots_same;
          mapped_same = kept.other_prices (levels w b).price_level n;
        })
        r
