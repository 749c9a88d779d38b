-- ===== src/OrderBook/Place.antt =====
-- cppexchange/orderbook.h: an order takes its place at the end of a price level.
use cpp_exchange.Prelude.{
  ℕ, ◌<◌, ◌≡◌, refl, sym, ap, ap₂, ◌∙◌, subst, some, List, [], ◌∷◌, ◌++◌, arith, Fresh, Distinct,
  All, not, false, ◌⊎◌, inl, inr, update_self, update_ne, update,
}
use cpp_exchange.Outcome
use cpp_exchange.Outcome.{Outcome, ok}
use cpp_exchange.Order.{OrderSide, is_buy, Order, Orders, Ptr}
use cpp_exchange.PriceLevel.{PriceLevel}
use cpp_exchange.PriceLevel.Ring.{Ring, SamePayload}
use cpp_exchange.PriceLevel.Add.{Added, add-Added}
use cpp_exchange.OrderBook.Quiet.{Quiet}
use cpp_exchange.OrderBook.State.{World, levels, orders, set_orders, set_level}
use cpp_exchange.OrderBook.Entry.{add_at}
use cpp_exchange.OrderBook.Pools.{Pools-same, InUse, length-InUse}
use cpp_exchange.OrderBook.Front.{quantities, total}
use cpp_exchange.OrderBook.Drain.{Housed}
use cpp_exchange.OrderBook.Ladder.{Rung, All-map}
use cpp_exchange.OrderBook.Frame.{Kept}

-- A level that is well formed but may hold no orders yet.
pub record Shelf (side : OrderSide) (w : World) (a : ℕ) (l : List ℕ) : Type 0 where
  pub ring : Ring (orders w) (levels w a).top_order l
  pub priced : All (λ o. (orders w o).limit_price ≡ (levels w a).price_level) l
  pub listed : w.book.price_levels (levels w a).price_level ≡ some a
  pub positive : All (λ o. 0 < (orders w o).quantity) l
  pub in_use : InUse w.book.order_pool l
  pub in_pool : All (λ o. o < w.book.order_pool.size) l
  pub housed : Housed side w a

pub Rung-Shelf :
    (side : OrderSide) (w : World) (a : ℕ) (l : List ℕ) → Rung side w a l → Shelf side w a l
Rung-Shelf side w a l r = record {
  ring = r.ring;
  priced = r.priced;
  listed = r.listed;
  positive = r.positive;
  in_use = r.in_use;
  in_pool = r.in_pool;
  housed = r.housed;
}

Ring-Distinct : (h : Orders) (t : Ptr) (l : List ℕ) → Ring h t l → Distinct l
Ring-Distinct h t [] r = tt
Ring-Distinct h t (a ∷ l) r = r.2

total-positive :
    (h : Orders) (l : List ℕ) (x : ℕ) → 0 < (h x).quantity → 0 < total (quantities h (l ++ x ∷ []))
total-positive h [] x p = omega arith
total-positive h (o ∷ l) x p = omega (arith, total-positive h l x p)

-- A shelf that holds an order is a rung: there are no more orders than blocks.
pub Shelf-Rung :
    (side : OrderSide) (w : World) (a : ℕ) (l : List ℕ)
    → 0 < total (quantities (orders w) l)
    → Shelf side w a l
    → Rung side w a l
Shelf-Rung side w a l more s = record {
  ring = s.ring;
  priced = s.priced;
  listed = s.listed;
  positive = s.positive;
  stocked = more;
  room = omega (
    arith,
    length-InUse w.book.order_pool.store w.book.order_pool.size l
        (Ring-Distinct (orders w) (levels w a).top_order l s.ring) s.in_pool s.in_use,
  );
  in_use = s.in_use;
  in_pool = s.in_pool;
  housed = s.housed;
}

-- The order at `x` is handed out, open and on the level's side and price, and rests nowhere yet.
pub record Waiting (side : OrderSide) (w : World) (a x : ℕ) (l : List ℕ) : Type 0 where
  pub apart : Fresh x l
  pub at_price : (orders w x).limit_price ≡ (levels w a).price_level
  pub open_quantity : 0 < (orders w x).quantity
  pub on_side : is_buy (orders w x).side ≡ not (is_buy side)
  pub taken : (w.book.order_pool.store x).available ≡ false
  pub below : x < w.book.order_pool.size

-- The order at `x` has joined the level at `a`, behind the orders `l`; no order has changed but in
-- its pointers.
pub record Placed (side : OrderSide) (a x : ℕ) (l : List ℕ) (w w' : World) : Type 0 where
  pub rung : Rung side w' a (l ++ x ∷ [])
  pub payload : SamePayload (orders w) (orders w')
  pub kept : Kept a (x ∷ l) w w'
  pub price : (levels w' a).price_level ≡ (levels w a).price_level
  pub next_level : (levels w' a).next_price_level ≡ (levels w a).next_price_level
  pub bids_same : w'.book.best_bids ≡ w.book.best_bids
  pub asks_same : w'.book.best_asks ≡ w.book.best_asks
  pub map_same : w'.book.price_levels ≡ w.book.price_levels
  pub quiet : Quiet w w'

pub quantities-payload :
    (h g : Orders) (l : List ℕ) → SamePayload h g → quantities g l ≡ quantities h l
quantities-payload h g [] s = refl
quantities-payload h g (b ∷ l) s =
    ap₂ (λ q qs. q ∷ qs) (ap Order.quantity (s b)) (quantities-payload h g l s)

All-end {κ} : (P : ℕ → Type κ) (l : List ℕ) (x : ℕ) → All P l → P x → All P (l ++ x ∷ [])
All-end P [] x ps p = (p, tt)
All-end P (b ∷ l) x ps p = (ps.0, All-end P l x ps.1 p)

module _ (side : OrderSide) (w : World) (a x : ℕ) (l : List ℕ) where
  -- The level after `add`, on the memory `g` of orders.
  add_at-Shelf :
      (lv : PriceLevel) (g : Orders)
      → Shelf side w a l
      → Waiting side w a x l
      → Added (levels w a) x l (orders w) lv g
      → Shelf side (set_level (set_orders w g) a lv) a (l ++ x ∷ [])
  add_at-Shelf lv g s t added =
      let here = update_self (levels w) a lv in
      let price = ap PriceLevel.price_level here ∙ added.price in
      record {
        ring = subst (λ (k : PriceLevel). Ring g k.top_order (l ++ x ∷ [])) (sym here) added.ring;
        priced =
            All-end (λ o. (g o).limit_price ≡ (update (levels w) a lv a).price_level) l x
              (All-map l (λ o p. ap Order.limit_price (added.payload o) ∙ p ∙ sym price) s.priced)
              (ap Order.limit_price (added.payload x) ∙ t.at_price ∙ sym price);
        listed = ap w.book.price_levels price ∙ s.listed;
        positive =
            All-end (λ o. 0 < (g o).quantity) l x
              (All-map l (λ o p. subst (λ (k : Order). 0 < k.quantity) (sym (added.payload o)) p)
                s.positive)
              (subst (λ (k : Order). 0 < k.quantity) (sym (added.payload x)) t.open_quantity);
        in_use = All-end (λ o. (w.book.order_pool.store o).available ≡ false) l x s.in_use t.taken;
        in_pool = All-end (λ o. o < w.book.order_pool.size) l x s.in_pool t.below;
        housed = record {
          level_side = ap (λ (k : PriceLevel). is_buy k.side) here ∙ level_side added.side_kept;
          below = s.housed.below;
          taken = s.housed.taken;
        };
      }
    where
      level_side :
          (lv.side ≡ (levels w a).side) ⊎ (lv.side ≡ (orders w x).side)
          → is_buy lv.side ≡ not (is_buy side)
      level_side (inl e) = ap is_buy e ∙ s.housed.level_side
      level_side (inr e) = ap is_buy e ∙ t.on_side

  -- An order that waits joins its level.
  pub add_at-Placed :
      Shelf side w a l
      → Waiting side w a x l
      → (w' : World) × (add_at a x w ≡ ok (tt, w')) × Placed side a x l w w'
  unfolding add_at
  add_at-Placed s t =
      let (lv, g, done, added) = add-Added (levels w a) x l (orders w) s.ring t.apart in
      let w' = set_level (set_orders w g) a lv in
      let here = update_self (levels w) a lv in
      (
        w',
        ap
            (λ (r : Outcome (PriceLevel × Orders)).
              Outcome.◌>>=◌ r (λ k. ok (tt, set_level (set_orders w k.1) a k.0)))
            done,
        record {
          rung =
              Shelf-Rung side w' a (l ++ x ∷ [])
                (subst (λ (qs : List ℕ). 0 < total qs)
                  (sym (quantities-payload (orders w) g (l ++ x ∷ []) added.payload))
                  (total-positive (orders w) l x t.open_quantity))
                (add_at-Shelf lv g s t added);
          payload = added.payload;
          kept = record {
            outside = added.outside;
            other_levels = λ b ne. update_ne (levels w) a b lv ne;
            other_prices = λ p ne. refl;
            pools = Pools-same w w' refl refl;
            order_slots_same = refl;
            level_slots_same = refl;
            other_blocks = λ b ne. refl;
          };
          price = ap PriceLevel.price_level here ∙ added.price;
          next_level = ap PriceLevel.next_price_level here ∙ added.next_level;
          bids_same = refl;
          asks_same = refl;
          map_same = refl;
          quiet = record {
            ticker_same = refl;
            responses_same = refl;
            updates_same = refl;
            trades_same = refl;
            clock_same = refl;
            reads_same = refl;
          };
        },
      )
