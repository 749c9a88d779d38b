-- ===== src/OrderBook/Empty.antt =====
-- cppexchange/orderbook.h: a book that was just made.
use cpp_exchange.Prelude.{
  ℕ, zero, suc, ◌≡◌, refl, sym, ap, ◌∙◌, subst, none, [], arith, Bool, true, false, not,
}
use cpp_exchange.Types.{max_order_ids, max_price_levels}
use cpp_exchange.ObjectPool
use cpp_exchange.ObjectPool.Blocks.{free_below}
use cpp_exchange.ObjectPool.Laws.{IsValid, free_count, create-IsValid}
use cpp_exchange.Order.{OrderSide, is_buy, default_order}
use cpp_exchange.PriceLevel.{default_price_level}
use cpp_exchange.OrderBook.State
use cpp_exchange.OrderBook.State.{OrderBook, World, best_of}
use cpp_exchange.OrderBook.Ladder.{Ladder}
use cpp_exchange.OrderBook.Sides.{opposite, Book}

free_below-all :
    {T : Type 0} (object : T) (n : ℕ)
    → free_below (λ _. record { object = object; available = true }) n ≡ n
free_below-all object zero = refl
free_below-all object (suc n) = omega (arith, free_below-all object n)

free_count-create : {T : Type 0} (n : ℕ) (d : T) → free_count (ObjectPool.create n d) ≡ n
unfolding ObjectPool.create
free_count-create n d = free_below-all d n

best_of-create : (buy : Bool) (t : ℕ) → best_of buy (State.create t) ≡ none
unfolding State.create
best_of-create true t = refl
best_of-create false t = refl

empty-Ladder : (side : OrderSide) (w : World) (t : ℕ) → w.book ≡ State.create t → Ladder side w []
empty-Ladder side w t e = record {
  chain = ap (best_of (not (is_buy side))) e ∙ best_of-create (not (is_buy side)) t;
  rungs = tt;
  ranked = tt;
}

-- A book that the constructor has just made is well formed, with no level on either side, and its
-- pools have all of their blocks to hand out.
pub create-Book :
    (side : OrderSide) (w : World) (t : ℕ)
    → w.book ≡ State.create t
    → Book side w [] []
      × (free_count w.book.order_pool ≡ max_order_ids)
      × (free_count w.book.price_level_pool ≡ max_price_levels)
unfolding State.create
create-Book side w t e = (
  record {
    own_ladder = empty-Ladder (opposite side) w t e;
    met_ladder = empty-Ladder side w t e;
    uncrossed = tt;
    unlisted = λ p f g. ap (λ (b : OrderBook). b.price_levels p) e;
    orders_valid =
        subst (λ (b : OrderBook). IsValid b.order_pool) (sym e)
          (create-IsValid max_order_ids default_order (omega arith));
    levels_valid =
        subst (λ (b : OrderBook). IsValid b.price_level_pool) (sym e)
          (create-IsValid max_price_levels default_price_level (omega arith));
  },
  ap (λ (b : OrderBook). free_count b.order_pool) e ∙ free_count-create max_order_ids default_order,
  ap (λ (b : OrderBook). free_count b.price_level_pool) e
      ∙ free_count-create max_price_levels default_price_level,
)
