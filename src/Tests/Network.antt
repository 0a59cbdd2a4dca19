-- ===== src/Tests/Network.antt =====
-- Runs and witnesses for crates/rtt-core/src/connection.rs and crates/pm-executor/src/config.rs.
use rtt.Prelude.{
  ℕ, ◌≡◌, ◌⊎◌, refl, true, false, none, some, List, [], ◌∷◌, get_elem?, Option, if◌then◌else◌, ◌||◌,
  ok, err, Result, arith,
}
use rtt.Order.{Text, text, text_ord, same}
use rtt.Trigger.{buy, fok}
use rtt.Market.{AssetId}
use rtt.Events.{polymarket_ws}
use rtt.Runtime.Views.{Distinct}
use rtt.Config.{
  ExecutorConfig, default_safety, default_health, resolved_subscription_asset_ids,
  apply_env_overrides, push_unique_asset_id,
}
use rtt.Config.Assets.{has, bound, is_token, resolved_subscription_asset_ids-exact}
use rtt.ClobExecutor.{ConnectionError, connect}
use rtt.Connection.{
  ConnectionPool, H2Connection, extract_pop, send_start, collect_response, ConnectionHealth,
  health_check, warmup, connect_h2, ipv4, ipv6, v6, Address,
}
use rtt.Connection.Pool.{PoolCall, starting, collecting, starts, TakesTurns, starts-TakesTurns}
use rtt.Connection.Broken.{failed_sender_replaced}

code_after_dash : extract_pop (text "abc-123def-EWR") ≡ text "EWR"
unfolding extract_pop
code_after_dash = refl

no_dash : extract_pop (text "abc") ≡ []
unfolding extract_pop
no_dash = refl

-- Two connections, of which the second is next.
abbrev pool : ConnectionPool ℕ
pool = record {
  connections =
      record { sender = 10; healthy = true } ∷ record { sender = 11; healthy = true } ∷ [];
  next_index = 1;
}

abbrev refused : Result ConnectionError ℕ
refused = err (connect none (text "refused"))

abbrev calls : List (PoolCall ℕ)
calls =
    starting refused
    ∷ collecting 1 (err (text "reset")) refused
    ∷ starting refused
    ∷ starting (ok 12)
    ∷ []

starts-TakesTurns_example : TakesTurns 2 1 (starts calls pool)
starts-TakesTurns_example = starts-TakesTurns calls pool (omega arith) (omega arith)

abbrev broken : ConnectionPool ℕ
broken = (collect_response pool 1 (err (text "reset")) refused).1

is_started : (send_start broken (ok 12)).0 ≡ ok 1
unfolding send_start rtt.Connection.acquire collect_response rtt.Connection.report_failure
    rtt.Connection.reconnect_at rtt.Connection.ensure_healthy
is_started = refl

is_dialled :
    get_elem? (send_start broken (ok 12)).1.connections 1
    ≡ some (record { sender = 12; healthy = true })
unfolding send_start rtt.Connection.acquire collect_response rtt.Connection.report_failure
    rtt.Connection.reconnect_at rtt.Connection.ensure_healthy
is_dialled = refl

abbrev redialled : Result ConnectionError ℕ
redialled = ok 12

failed_sender_replaced_example : (refused ≡ redialled) ⊎ (redialled ≡ redialled)
failed_sender_replaced_example =
    failed_sender_replaced pool 1 (text "reset") refused redialled
      (record { sender = 12; healthy = true }) (omega arith) (omega arith) is_started is_dialled

abbrev executor_config : ExecutorConfig ℕ
executor_config = record {
  credentials = record {
    api_key = text "from_file";
    api_secret = [];
    passphrase = [];
    private_key = [];
    maker_address = [];
    signer_address = [];
  };
  connection = record { pool_size = 2; address_family = text "auto" };
  websocket = record {
    asset_ids = text "a" ∷ [];
    market_universe = none;
    source_bindings =
        record {
          source_id = text "polymarket-public";
          source_kind = polymarket_ws;
          asset_ids = text "b" ∷ text "a" ∷ [];
          market_ids = [];
          instrument_ids = [];
        }
        ∷ [];
    ws_channel_capacity = 1024;
    snapshot_channel_capacity = 256;
  };
  strategy = record {
    strategy = text "spread";
    token_id = text "c";
    side = buy;
    size = text "1";
    order_type = fok;
    params = record { threshold = none; max_spread = some 1 };
  };
  execution = record {
    presign_count = 100;
    is_neg_risk = false;
    fee_rate_bps = 0;
    dry_run = true;
    state_file = text "state.json";
  };
  logging = record { level = text "info" };
  safety = default_safety 1_000;
  health = default_health;
}

three_assets : resolved_subscription_asset_ids executor_config ≡ text "a" ∷ text "b" ∷ text "c" ∷ []
unfolding resolved_subscription_asset_ids push_unique_asset_id same text_ord
three_assets = refl

resolved_subscription_asset_ids-exact_example :
    Distinct (λ a b. same a b) (resolved_subscription_asset_ids executor_config)
    × ((a : AssetId)
        → has a (resolved_subscription_asset_ids executor_config) ≡ (
            has a executor_config.websocket.asset_ids
            || (bound a executor_config.websocket.source_bindings
                || is_token a executor_config.strategy.token_id)))
resolved_subscription_asset_ids-exact_example =
    resolved_subscription_asset_ids-exact executor_config (tt, tt)

-- The environment goes before the file.
abbrev from_env : Text → Option Text
from_env name = if same name (text "POLY_API_KEY") then some (text "from_env") else none

overridden : (apply_env_overrides from_env executor_config).credentials.api_key ≡ text "from_env"
unfolding apply_env_overrides same text_ord
overridden = refl
