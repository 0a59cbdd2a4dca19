-- ===== src/Universe.antt =====
-- crates/pm-data/src/snapshot.rs: which markets of the registry are traded. Reading and writing
-- snapshots as JSON is left out.
pub mod Selection
use rtt.Prelude.{
  ℕ, Bool, true, false, not, ◌&&◌, Option, none, some, List, [], ◌∷◌, is_some, if◌then◌else◌,
}
use rtt.Order.{Text, text_ord}
use rtt.BTreeMap.{BTreeMap, BTreeSet, contains}
use rtt.Market.{MarketId, MarketMeta, is_tradable}

pub record QuarantinedMarketRecord : Type 0 where
  pub record_id : Option Text
  pub reason : Text

pub record RegistrySnapshot : Type 0 where
  pub provider : Text
  pub sequence : ℕ
  pub refreshed_at_ms : ℕ
  pub markets : BTreeMap MarketId MarketMeta
  pub quarantined : List QuarantinedMarketRecord

pub record UniverseSelectionPolicy : Type 0 where
  pub active_only : Bool
  pub require_reward : Bool
  pub include_markets : BTreeSet MarketId
  pub exclude_markets : BTreeSet MarketId
  pub bypass_registry : Bool

pub data UniverseDecisionKind : Type 0 where
  included excluded : UniverseDecisionKind

pub data UniverseSelectionReason : Type 0 where
  active explicit_include explicit_exclude inactive_status missing_reward : UniverseSelectionReason

pub data UniverseBypassReason : Type 0 where
  explicit_source_bindings : UniverseBypassReason

pub record UniverseDecision : Type 0 where
  pub market_id : MarketId
  pub decision : UniverseDecisionKind
  pub reason : UniverseSelectionReason

pub record SelectedUniverse : Type 0 where
  pub selected_market_ids : List MarketId
  pub decisions : List UniverseDecision
  pub bypassed : Bool
  pub bypass_reason : Option UniverseBypassReason

-- `push` to the selected identifiers, for a market that is included.
abbrev pub select : UniverseDecisionKind → MarketId → List MarketId → List MarketId
select included market_id ids = market_id ∷ ids
select excluded market_id ids = ids

abbrev markets_of : Option RegistrySnapshot → BTreeMap MarketId MarketMeta
markets_of none = []
markets_of (some snapshot) = snapshot.markets

module _ (policy : UniverseSelectionPolicy) where
  unfoldable pub decide : MarketId → MarketMeta → UniverseDecisionKind × UniverseSelectionReason
  decide market_id market =
      if contains market_id policy.exclude_markets
      then (excluded, explicit_exclude)
      else if contains market_id policy.include_markets
      then (included, explicit_include)
      else if policy.active_only && not (is_tradable market)
      then (excluded, inactive_status)
      else if policy.require_reward && not (is_some market.reward)
      then (excluded, missing_reward)
      else (included, UniverseSelectionReason.active)

  -- The loop over the markets, with what it pushes to both vectors.
  unfoldable pub decide_all : BTreeMap MarketId MarketMeta → List MarketId × List UniverseDecision
  decide_all [] = ([], [])
  decide_all ((market_id, market) ∷ markets) =
      let (decision, reason) = decide market_id market in
      let (ids, decisions) = decide_all markets in
      (
        select decision market_id ids,
        record { market_id = market_id; decision = decision; reason = reason } ∷ decisions,
      )

  unfoldable pub resolve : Option RegistrySnapshot → SelectedUniverse
  resolve snapshot =
      let markets = markets_of snapshot in
      let (ids, decisions) = decide_all markets in
      if policy.bypass_registry
      then record {
        selected_market_ids = [];
        decisions = [];
        bypassed = true;
        bypass_reason = some explicit_source_bindings;
      }
      else record {
        selected_market_ids = ids;
        decisions = decisions;
        bypassed = false;
        bypass_reason = none;
      }
