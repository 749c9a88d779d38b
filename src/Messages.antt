-- ===== src/Messages.antt =====
-- include/cppexchange/messages.h: requests of the clients, responses to them, and market updates.
-- Packing is not modelled.
use cpp_exchange.Prelude.{ℕ}
use cpp_exchange.Order.{OrderSide}

pub data RequestType : Type 0 where
  invalid add cancel : RequestType

pub record ClientRequest : Type 0 where
  pub type : RequestType
  pub ticker_id : ℕ
  pub client_id : ℕ
  pub order_id : ℕ
  pub side : OrderSide
  pub quantity : ℕ
  pub limit_price : ℕ

pub data ResponseType : Type 0 where
  invalid accepted filled canceled cancel_rejected error : ResponseType

pub record ClientResponse : Type 0 where
  pub type : ResponseType
  pub ticker_id : ℕ
  pub client_id : ℕ
  pub order_id : ℕ
  pub side : OrderSide
  pub quantity : ℕ
  pub price : ℕ
  pub ns_timestamp : ℕ

pub data UpdateType : Type 0 where
  invalid add modify remove trade : UpdateType

pub record MarketUpdate : Type 0 where
  pub type : UpdateType
  pub ticker_id : ℕ
  pub order_id : ℕ
  pub trade_id : ℕ
  pub side : OrderSide
  pub quantity : ℕ
  pub price : ℕ
  pub ns_timestamp : ℕ

abbrev pub make_response :
    ResponseType
    → (ticker_id client_id order_id : ℕ) → OrderSide
    → (quantity price ns_timestamp : ℕ) → ClientResponse
make_response type ticker_id client_id order_id side quantity price ns_timestamp = record {
  type = type;
  ticker_id = ticker_id;
  client_id = client_id;
  order_id = order_id;
  side = side;
  quantity = quantity;
  price = price;
  ns_timestamp = ns_timestamp;
}

abbrev pub make_update :
    UpdateType
    → (ticker_id order_id trade_id : ℕ) → OrderSide
    → (quantity price ns_timestamp : ℕ) → MarketUpdate
make_update type ticker_id order_id trade_id side quantity price ns_timestamp = record {
  type = type;
  ticker_id = ticker_id;
  order_id = order_id;
  trade_id = trade_id;
  side = side;
  quantity = quantity;
  price = price;
  ns_timestamp = ns_timestamp;
}

-- The messages with the number that orders them.
pub record MdpClientRequest : Type 0 where
  pub sequence_number : ℕ
  pub client_request : ClientRequest

pub record MdpMarketUpdate : Type 0 where
  pub sequence_number : ℕ
  pub market_update : MarketUpdate
