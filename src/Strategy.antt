-- ===== src/Strategy.antt =====
-- crates/pm-strategy/src/strategy.rs: what a strategy asks for, and what it is shown. A trait is a record
-- of its methods over the state of the strategy; the `name` of a strategy is left out.
use rtt.Prelude.{
  ℕ, Bool, Option, none, some, List, [], ◌∷◌, ◌&&◌, if◌then◌else◌, map_some, or_else, unwrap_or,
}
use rtt.Order.{Text, text_ord, same}
use rtt.Trigger.{Side, side_eq, TriggerMessage, OrderBookSnapshot}
use rtt.Quote.{DesiredQuotes}
use rtt.Events.{UpdateNotice}
use rtt.HotState.{option_then}
use rtt.HotState.Store.{HotBookState, HotReferenceState}
use rtt.HotState.Facade.{book_level_to_snapshot_level}

pub data ExecutionMode : Type 0 where
  trigger_mode quote_mode : ExecutionMode

pub data IsolationPolicy : Type 0 where
  shared_feed_acceptable dedicated_preferred dedicated_required : IsolationPolicy

pub data StrategyDataRequirementKind : Type 0 where
  polymarket_bbo external_reference_price recent_trades reward_metadata inventory_data
        live_order_state :
      StrategyDataRequirementKind
  polymarket_depth_top_n : ℕ → StrategyDataRequirementKind

pub data RequirementSelector : Type 0 where
  of_asset of_symbol of_market of_source : Text → RequirementSelector

pub record StrategyDataRequirement : Type 0 where
  pub kind : StrategyDataRequirementKind
  pub selector : RequirementSelector

pub record StrategyRequirements : Type 0 where
  pub execution_mode : ExecutionMode
  pub isolation_policy : IsolationPolicy
  pub data_needed : List StrategyDataRequirement

pub record InventoryPosition : Type 0 where
  pub asset_id : Text
  pub side : Side
  pub filled_size : Text
  pub net_notional : Text
  pub updated_at_ms : ℕ

pub record InventoryDelta : Type 0 where
  pub asset_id : Text
  pub side : Side
  pub filled_size_delta : Text
  pub notional_delta : Text
  pub observed_at_ms : ℕ

pub record StrategyRuntimeView : Type 0 where
  pub notice : UpdateNotice
  pub books : List HotBookState
  pub references : List HotReferenceState
  pub inventory : List InventoryPosition

abbrev pub bbo_requirement : Text → StrategyDataRequirement
bbo_requirement asset_id = record { kind = polymarket_bbo; selector = of_asset asset_id }

abbrev pub trigger_requirements :
    List StrategyDataRequirement → IsolationPolicy → StrategyRequirements
trigger_requirements needed policy = record {
  execution_mode = trigger_mode;
  isolation_policy = policy;
  data_needed = needed;
}

-- `iter().find(p)`.
abbrev pub find {ℓ} : {A : Type ℓ} → (A → Bool) → List A → Option A
find p [] = none
find p (x ∷ xs) = if p x then some x else find p xs

unfoldable pub view_book : StrategyRuntimeView → Text → Option HotBookState
view_book view asset_id = find (λ b. same b.asset_id asset_id) view.books

unfoldable pub view_reference : StrategyRuntimeView → Text → Option HotReferenceState
view_reference view instrument_id =
    find (λ r. same r.notice.subject.instrument_id instrument_id) view.references

unfoldable pub view_inventory : StrategyRuntimeView → Text → Side → Option InventoryPosition
view_inventory view asset_id side =
    find (λ p. same p.asset_id asset_id && side_eq p.side side) view.inventory

abbrev pub snapshot_of : HotBookState → OrderBookSnapshot
snapshot_of state = record {
  asset_id = state.asset_id;
  best_bid = map_some book_level_to_snapshot_level state.best_bid;
  best_ask = map_some book_level_to_snapshot_level state.best_ask;
  timestamp_ms = state.timestamp_ms;
  hash = unwrap_or (or_else state.source_hash state.notice.source_hash) [];
}

unfoldable pub view_snapshot : StrategyRuntimeView → Text → Option OrderBookSnapshot
view_snapshot view asset_id = map_some snapshot_of (view_book view asset_id)

abbrev first_of {ℓ} : {A : Type ℓ} → List A → Option A
first_of [] = none
first_of (x ∷ xs) = some x

unfoldable pub primary_snapshot : StrategyRuntimeView → Option OrderBookSnapshot
primary_snapshot view =
    option_then (first_of view.books) (λ state. view_snapshot view state.asset_id)

-- The three traits. A method is given the time since the strategy was made, which it may read.
pub record Strategy (S : Type 0) : Type 0 where
  pub on_book_update : S → ℕ → OrderBookSnapshot → Option TriggerMessage × S

pub record TriggerStrategy (S : Type 0) : Type 0 where
  pub requirements : S → StrategyRequirements
  pub on_update : S → ℕ → StrategyRuntimeView → Option TriggerMessage × S

pub record QuoteStrategy (S : Type 0) : Type 0 where
  pub requirements : S → StrategyRequirements
  pub on_update : S → ℕ → StrategyRuntimeView → Option DesiredQuotes × S
