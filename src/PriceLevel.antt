-- ===== src/PriceLevel.antt =====
-- The class `OrdersPriceLevel` of include/cppexchange/order.h: the orders at one price, in a
-- circular list through their `previous` and `next` pointers.
pub mod Add
pub mod Unlink
pub mod Cancel
pub mod Ring
use cpp_exchange.Prelude.{ℕ, zero, suc, Bool, not, ◌&&◌, Option, none, some, ◌==◌, if◌then◌else◌}
use cpp_exchange.Outcome.{Outcome, ok, out_of_fuel, ◌>>=◌, ◌>>◌, assert}
use cpp_exchange.Types.{price_invalid}
use cpp_exchange.Order.{
  OrderSide, Ptr, ptr_eq, is_null, Order, Orders, address, set_next, set_previous,
}

pub record PriceLevel : Type 0 where
  pub next_price_level : Ptr
  pub price_level : ℕ
  pub top_order : Ptr
  pub side : OrderSide

abbrev pub default_price_level : PriceLevel
default_price_level = record {
  next_price_level = none;
  price_level = price_invalid;
  top_order = none;
  side = OrderSide.invalid;
}

abbrev pub make_price_level : OrderSide → ℕ → Ptr → PriceLevel
make_price_level side price next = record default_price_level {
  next_price_level = next;
  price_level = price;
  side = side;
}

unfoldable pub set_price_level : PriceLevel → ℕ → Outcome PriceLevel
set_price_level l price = do assert (is_null l.top_order); ok (record l { price_level = price })

unfoldable pub get_price : PriceLevel → ℕ
get_price l = l.price_level

unfoldable pub set_next_price_level : PriceLevel → Ptr → PriceLevel
set_next_price_level l next = record l { next_price_level = next }

unfoldable pub get_next_price_level : PriceLevel → Ptr
get_next_price_level l = l.next_price_level

unfoldable pub get_side : PriceLevel → OrderSide
get_side l = l.side

unfoldable pub top : PriceLevel → Ptr
top l = l.top_order

-- `add` by what `top_order` is. The order is at the address `order`.
unfoldable pub add_behind : Ptr → PriceLevel → ℕ → Orders → Outcome (PriceLevel × Orders)
add_behind none l order h =
    let h' = set_previous (set_next h order (some order)) order (some order) in
    ok (record l { top_order = some order; side = (h order).side }, h')
add_behind (some first) l order h = do
  let h1 = set_next h order (some first)
  let h2 = set_previous h1 order (h1 first).previous
  last ← address (h2 order).previous
  let h3 = set_next h2 last (some order)
  ok (l, set_previous h3 first (some order))

unfoldable pub add : PriceLevel → ℕ → Orders → Outcome (PriceLevel × Orders)
unfolding add_behind
add l order h = add_behind l.top_order l order h

-- The loop of `cancel`, at the order `order`. `last` reads `top_order->previous`.
unfoldable pub find_order : ℕ → Orders → (top : ℕ) → (order_id : ℕ) → (order : ℕ) → Outcome ℕ
find_order zero h top order_id order = out_of_fuel
find_order (suc fuel) h top order_id order =
    let rest = (do next ← address (h order).next; find_order fuel h top order_id next) in
    if not ((h order).order_id == order_id) && not (ptr_eq (some order) (h top).previous)
    then rest
    else ok order

-- The level after `order` has left the ring of `top`.
unfoldable pub new_top : PriceLevel → (top order : ℕ) → Orders → PriceLevel
new_top l top order h =
    if top == order
    then (if ptr_eq (h top).next (some top)
        then record l { top_order = none }
        else record l { top_order = (h top).next })
    else l

-- The writes of `cancel` that take `order` out of the ring.
unfoldable pub unlink : PriceLevel → (top order : ℕ) → Orders → Outcome (PriceLevel × Orders)
unlink l top order h = do
  before ← address (h order).previous
  let h1 = set_next h before (h order).next
  after ← address (h1 order).next
  let h2 = set_previous h1 after (h1 order).previous
  ok (new_top l top order h2, set_previous (set_next h2 order none) order none)

-- The result is the pointer that `cancel` returns, with the level and the orders after it.
unfoldable pub cancel : ℕ → PriceLevel → ℕ → Orders → Outcome (Ptr × PriceLevel × Orders)
cancel fuel l order_id h = do
  top ← address l.top_order
  order ← find_order fuel h top order_id top
  let found = (do (l', h') ← unlink l top order h; ok (some order, l', h'))
  if (h order).order_id == order_id then found else ok (none, l, h)
