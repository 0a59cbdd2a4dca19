-- ===== src/Universe/Selection.antt =====
-- What the selection of markets in crates/pm-data/src/snapshot.rs promises.
use rtt.Prelude.{
  ◌≡◌, refl, Bool, true, false, not, ◌&&◌, ◌||◌, some, List, [], ◌∷◌, is_some, if◌then◌else◌, arith,
  map,
}
use rtt.Order.{text_ord}
use rtt.BTreeMap.{BTreeMap, contains, keys}
use rtt.Market.{MarketId, MarketMeta, is_tradable}
use rtt.Universe.{
  RegistrySnapshot, UniverseSelectionPolicy, UniverseDecisionKind, included, excluded,
  UniverseDecision, decide, decide_all, resolve,
}

-- A market that is eligible: included by name, or not ruled out by its status or its reward.
abbrev pub is_eligible : UniverseSelectionPolicy → MarketId → MarketMeta → Bool
is_eligible policy id market =
    not (contains id policy.exclude_markets)
    && (contains id policy.include_markets
        || ((not policy.active_only || is_tradable market)
            && (not policy.require_reward || is_some market.reward)))

-- The eligible markets, in the order of their identifiers.
abbrev pub eligible : UniverseSelectionPolicy → BTreeMap MarketId MarketMeta → List MarketId
eligible policy [] = []
eligible policy ((id, market) ∷ markets) =
    if is_eligible policy id market then id ∷ eligible policy markets else eligible policy markets

abbrev pub is_included : UniverseDecisionKind → Bool
is_included included = true
is_included excluded = false

-- The markets that the decisions include.
abbrev pub included_by : List UniverseDecision → List MarketId
included_by [] = []
included_by (d ∷ ds) =
    if is_included d.decision then d.market_id ∷ included_by ds else included_by ds

decide-eligible :
    (policy : UniverseSelectionPolicy) (id : MarketId) (market : MarketMeta)
    → is_included (decide policy id market).0 ≡ is_eligible policy id market
unfolding decide
decide-eligible policy id market = ground arith

decide_all-eligible :
    (policy : UniverseSelectionPolicy) (markets : BTreeMap MarketId MarketMeta)
    → let (ids, decisions) = decide_all policy markets in
      (ids ≡ eligible policy markets)
      × (ids ≡ included_by decisions)
      × (map (λ d. d.market_id) decisions ≡ keys markets)
unfolding decide_all
decide_all-eligible policy [] = (refl, refl, refl)
decide_all-eligible policy ((id, market) ∷ markets) =
    ground (arith, decide_all-eligible policy markets, decide-eligible policy id market)

-- From a registry, the markets selected are the eligible ones in the order of their identifiers: not
-- excluded by name, and included by name or passing both filters that the policy turns on. They are
-- those that the decisions include, and there is one decision for each market of the registry.
pub resolve-eligible :
    (policy : UniverseSelectionPolicy) (snapshot : RegistrySnapshot)
    → policy.bypass_registry ≡ false
    → let universe = resolve policy (some snapshot) in
      (universe.selected_market_ids ≡ eligible policy snapshot.markets)
      × (universe.selected_market_ids ≡ included_by universe.decisions)
      × (map (λ d. d.market_id) universe.decisions ≡ keys snapshot.markets)
unfolding resolve
resolve-eligible policy snapshot h = ground (arith, decide_all-eligible policy snapshot.markets)
