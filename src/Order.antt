-- ===== src/Order.antt =====
-- The struct `Order` of include/cppexchange/order.h and the memory that orders live in.
use cpp_exchange.Prelude.{ℕ, Bool, true, false, Option, none, some, ◌==◌, update}
use cpp_exchange.Outcome.{Outcome, ok, undefined}
use cpp_exchange.Types.{
  ticker_id_invalid, order_id_invalid, client_id_invalid, quantity_invalid, ns_timestamp_invalid,
  price_invalid,
}

pub data OrderSide : Type 0 where
  invalid buy sell : OrderSide

abbrev pub is_buy : OrderSide → Bool
is_buy OrderSide.buy = true
is_buy OrderSide.sell = false
is_buy OrderSide.invalid = false

-- `none` is nullptr; any other pointer is the index of a block in a pool.
abbrev pub Ptr : Type 0
Ptr = Option ℕ

abbrev pub ptr_eq : Ptr → Ptr → Bool
ptr_eq none none = true
ptr_eq none (some b) = false
ptr_eq (some a) none = false
ptr_eq (some a) (some b) = a == b

abbrev pub is_null : Ptr → Bool
is_null none = true
is_null (some a) = false

pub record Order : Type 0 where
  pub previous : Ptr
  pub next : Ptr
  pub ticker_id : ℕ
  pub order_id : ℕ
  pub client_id : ℕ
  pub quantity : ℕ
  pub executed : ℕ
  pub ns_timestamp : ℕ
  pub limit_price : ℕ
  pub side : OrderSide

-- The default constructor.
abbrev pub default_order : Order
default_order = record {
  previous = none;
  next = none;
  ticker_id = ticker_id_invalid;
  order_id = order_id_invalid;
  client_id = client_id_invalid;
  quantity = quantity_invalid;
  executed = 0;
  ns_timestamp = ns_timestamp_invalid;
  limit_price = price_invalid;
  side = OrderSide.invalid;
}

-- The constructor with arguments.
abbrev pub make_order :
    (ticker_id order_id client_id ns_timestamp : ℕ) → OrderSide → (quantity limit_price : ℕ) → Order
make_order ticker_id order_id client_id ns_timestamp side quantity limit_price =
    record default_order {
      ticker_id = ticker_id;
      order_id = order_id;
      client_id = client_id;
      quantity = quantity;
      ns_timestamp = ns_timestamp;
      limit_price = limit_price;
      side = side;
    }

-- The objects of the order pool, by address.
abbrev pub Orders : Type 0
Orders = ℕ → Order

-- `*p`
abbrev pub deref_order : Orders → Ptr → Outcome Order
deref_order h none = undefined
deref_order h (some a) = ok (h a)

-- The address that a pointer holds; to use that of nullptr is undefined.
abbrev pub address : Ptr → Outcome ℕ
address none = undefined
address (some a) = ok a

-- `a->next = p` and `a->previous = p`
abbrev pub set_next : Orders → ℕ → Ptr → Orders
set_next h a p = update h a (record (h a) { next = p })

abbrev pub set_previous : Orders → ℕ → Ptr → Orders
set_previous h a p = update h a (record (h a) { previous = p })
