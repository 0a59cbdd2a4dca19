-- ===== src/Market.antt =====
-- crates/rtt-core/src/market.rs: what the registry knows of a market. The wrappers of strings
-- (`MarketId`, `AssetId`, `Price`, `TickSize` and the like) are their text.
use rtt.Prelude.{ℕ, Bool, true, false, Option, none, some, if◌then◌else◌}
use rtt.Order.{Text, text_ord, same}

abbrev pub MarketId : Type 0
MarketId = Text

abbrev pub AssetId : Type 0
AssetId = Text

pub data OutcomeSide : Type 0 where
  yes_side no_side : OutcomeSide

pub record OutcomeToken : Type 0 where
  pub asset_id : AssetId
  pub side : OutcomeSide

pub data MarketStatus : Type 0 where
  active closed suspended unknown : MarketStatus

pub data RewardFreshness : Type 0 where
  fresh stale_but_usable unknown : RewardFreshness

pub record RewardParams : Type 0 where
  pub rate_bps : Option ℕ
  pub max_spread : Option Text
  pub min_size : Option Text
  pub min_notional : Option Text
  pub updated_at_ms : Option ℕ
  pub freshness : RewardFreshness

pub record MarketMeta : Type 0 where
  pub market_id : MarketId
  pub yes_asset : OutcomeToken
  pub no_asset : OutcomeToken
  pub condition_id : Option Text
  pub tick_size : Text
  pub min_order_size : Option Text
  pub status : MarketStatus
  pub reward : Option RewardParams

abbrev pub asset_for_side : MarketMeta → OutcomeSide → AssetId
asset_for_side market yes_side = market.yes_asset.asset_id
asset_for_side market no_side = market.no_asset.asset_id

unfoldable pub side_for_asset : MarketMeta → AssetId → Option OutcomeSide
side_for_asset market asset_id =
    if same market.yes_asset.asset_id asset_id
    then some yes_side
    else if same market.no_asset.asset_id asset_id
    then some no_side
    else none

-- `status == MarketStatus::Active`.
abbrev is_active : MarketStatus → Bool
is_active MarketStatus.active = true
is_active _ = false

abbrev pub is_tradable : MarketMeta → Bool
is_tradable market = is_active market.status
