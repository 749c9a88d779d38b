-- ===== src/Types.antt =====
-- include/cppexchange/typedefs.h and include/cppexchange/constants.h: the widths of the numbers
-- that orders and messages hold, the values that stand for "none", and the sizes of the stores.
use cpp_exchange.Prelude.{ℕ, ◌-◌, ◌*◌, ◌^◌}

-- TickerIdT, OrderIdT, TradeIdT, ClientIdT and QuantityT are uint32_t, PriceT is uint64_t, and
-- NsTimestampT is a signed 64-bit number. Values are numbers below the modulus.
abbrev pub u32_mod : ℕ
u32_mod = 2 ^ 32

abbrev pub u64_mod : ℕ
u64_mod = 2 ^ 64

abbrev pub ticker_id_invalid : ℕ
ticker_id_invalid = u32_mod - 1

abbrev pub order_id_invalid : ℕ
order_id_invalid = u32_mod - 1

abbrev pub trade_id_invalid : ℕ
trade_id_invalid = u32_mod - 1

abbrev pub client_id_invalid : ℕ
client_id_invalid = u32_mod - 1

abbrev pub ns_timestamp_invalid : ℕ
ns_timestamp_invalid = 2 ^ 63 - 1

abbrev pub quantity_invalid : ℕ
quantity_invalid = u32_mod - 1

abbrev pub price_invalid : ℕ
price_invalid = u64_mod - 1

abbrev pub max_tickers : ℕ
max_tickers = 16

abbrev pub max_order_ids : ℕ
max_order_ids = 2 ^ 23

abbrev pub max_price_levels : ℕ
max_price_levels = 128 * 1024
