-- ===== src/Trigger.antt =====
-- crates/rtt-core/src/trigger.rs: the messages between feed, strategy and executor.
use rtt.Prelude.{ℕ, Bool, true, false, Option}
use rtt.Order.{Text}

pub data Side : Type 0 where
  buy sell : Side

pub data OrderType : Type 0 where
  gtc gtd fok fak : OrderType

-- The derived `==` of the two enumerations.
abbrev pub side_eq : Side → Side → Bool
side_eq buy buy = true
side_eq sell sell = true
side_eq _ _ = false

abbrev pub order_type_eq : OrderType → OrderType → Bool
order_type_eq gtc gtc = true
order_type_eq gtd gtd = true
order_type_eq fok fok = true
order_type_eq fak fak = true
order_type_eq _ _ = false

pub record TriggerMessage : Type 0 where
  pub trigger_id : ℕ
  pub token_id : Text
  pub side : Side
  pub price : Text
  pub size : Text
  pub order_type : OrderType
  pub timestamp_ns : ℕ

pub record PriceLevel : Type 0 where
  pub price : Text
  pub size : Text

pub record OrderBookSnapshot : Type 0 where
  pub asset_id : Text
  pub best_bid : Option PriceLevel
  pub best_ask : Option PriceLevel
  pub timestamp_ms : ℕ
  pub hash : Text
