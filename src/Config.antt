-- ===== src/Config.antt =====
-- crates/pm-executor/src/config.rs: the configuration, what the environment overrides in it, and the
-- assets that are subscribed to. Reading the file is left out, and an amount in dollars is a number of a
-- type that stands for `f64`.
pub mod Assets
use rtt.Prelude.{
  ℕ, Bool, true, false, Option, none, some, List, [], ◌∷◌, ◌++◌, unwrap_or, any, if◌then◌else◌,
}
use rtt.Order.{Text, text, text_ord, same}
use rtt.Market.{AssetId, MarketId}
use rtt.Events.{SourceKind, polymarket_ws}
use rtt.Strategies.{StrategyConfig}

pub record HealthConfig : Type 0 where
  pub enabled : Bool
  pub port : ℕ

abbrev pub default_health : HealthConfig
default_health = record { enabled = true; port = 9090 }

pub record CredentialsConfig : Type 0 where
  pub api_key : Text
  pub api_secret : Text
  pub passphrase : Text
  pub private_key : Text
  pub maker_address : Text
  pub signer_address : Text

pub record ConnectionConfig : Type 0 where
  pub pool_size : ℕ
  pub address_family : Text

pub data MarketUniverseMode : Type 0 where
  static discovery : MarketUniverseMode

pub record MarketUniverseConfig : Type 0 where
  pub mode : MarketUniverseMode
  pub source_id : Option Text
  pub market_ids : List MarketId

pub record SourceBindingConfig : Type 0 where
  pub source_id : Text
  pub source_kind : SourceKind
  pub asset_ids : List AssetId
  pub market_ids : List MarketId
  pub instrument_ids : List Text

pub record WebSocketConfig : Type 0 where
  pub asset_ids : List AssetId
  pub market_universe : Option MarketUniverseConfig
  pub source_bindings : List SourceBindingConfig
  pub ws_channel_capacity : ℕ
  pub snapshot_channel_capacity : ℕ

pub record ExecutionConfig : Type 0 where
  pub presign_count : ℕ
  pub is_neg_risk : Bool
  pub fee_rate_bps : ℕ
  pub dry_run : Bool
  pub state_file : Text

pub record LoggingConfig : Type 0 where
  pub level : Text

pub record SafetyConfig (F64 : Type 0) : Type 0 where
  pub max_orders : ℕ
  pub max_usd_exposure : F64
  pub max_triggers_per_second : ℕ
  pub require_confirmation : Bool
  pub alert_webhook_url : Option Text

-- The argument is 10.0.
abbrev pub default_safety : {F64 : Type 0} → F64 → SafetyConfig F64
default_safety ten = record {
  max_orders = 5;
  max_usd_exposure = ten;
  max_triggers_per_second = 2;
  require_confirmation = true;
  alert_webhook_url = none;
}

pub record ExecutorConfig (F64 : Type 0) : Type 0 where
  pub credentials : CredentialsConfig
  pub connection : ConnectionConfig
  pub websocket : WebSocketConfig
  pub strategy : StrategyConfig F64
  pub execution : ExecutionConfig
  pub logging : LoggingConfig
  pub safety : SafetyConfig F64
  pub health : HealthConfig

-- `if let Some`, on an optional value.
abbrev or_kept : Option Text → Option Text → Option Text
or_kept none kept = kept
or_kept (some value) kept = some value

-- `var` is `std::env::var`, with what is not set or no text as `none`.
unfoldable pub apply_env_overrides :
    {F64 : Type 0} → (Text → Option Text) → ExecutorConfig F64 → ExecutorConfig F64
apply_env_overrides var config =
    let old = config.credentials in
    record config {
      credentials = record {
        api_key = unwrap_or (var (text "POLY_API_KEY")) old.api_key;
        api_secret = unwrap_or (var (text "POLY_API_SECRET")) old.api_secret;
        passphrase = unwrap_or (var (text "POLY_PASSPHRASE")) old.passphrase;
        private_key = unwrap_or (var (text "POLY_PRIVATE_KEY")) old.private_key;
        maker_address = unwrap_or (var (text "POLY_MAKER_ADDRESS")) old.maker_address;
        signer_address = unwrap_or (var (text "POLY_SIGNER_ADDRESS")) old.signer_address;
      };
      safety = record config.safety {
        alert_webhook_url =
            or_kept (var (text "POLY_ALERT_WEBHOOK_URL")) config.safety.alert_webhook_url;
      };
    }

unfoldable pub push_unique_asset_id : List AssetId → AssetId → List AssetId
push_unique_asset_id asset_ids candidate =
    if any (λ existing. same existing candidate) asset_ids
    then asset_ids
    else asset_ids ++ candidate ∷ []

abbrev pub push_asset_ids : List AssetId → List AssetId → List AssetId
push_asset_ids asset_ids [] = asset_ids
push_asset_ids asset_ids (asset_id ∷ more) =
    push_asset_ids (push_unique_asset_id asset_ids asset_id) more

-- `source_kind == SourceKind::PolymarketWs`.
abbrev pub is_polymarket_ws : SourceKind → Bool
is_polymarket_ws polymarket_ws = true
is_polymarket_ws _ = false

abbrev pub push_bindings : List AssetId → List SourceBindingConfig → List AssetId
push_bindings asset_ids [] = asset_ids
push_bindings asset_ids (binding ∷ bindings) =
    push_bindings
      (if is_polymarket_ws binding.source_kind
        then push_asset_ids asset_ids binding.asset_ids
        else asset_ids)
      bindings

abbrev pub push_token : List AssetId → Text → List AssetId
push_token asset_ids [] = asset_ids
push_token asset_ids (c ∷ token_id) = push_unique_asset_id asset_ids (c ∷ token_id)

unfoldable pub resolved_subscription_asset_ids : {F64 : Type 0} → ExecutorConfig F64 → List Text
resolved_subscription_asset_ids config =
    push_token (push_bindings config.websocket.asset_ids config.websocket.source_bindings)
      config.strategy.token_id
