-- ===== src/Tests/Feed.antt =====
-- Runs and witnesses for crates/pm-data/src/orderbook.rs, subscription_plan.rs and snapshot.rs.
use rtt.Prelude.{
  ◌≡◌, refl, true, false, none, some, Option, List, [], ◌∷◌, max, length, map, if◌then◌else◌,
  get_elem?, arith,
}
use rtt.Order.{Text, text, text_ord}
use rtt.BTreeMap.{BTreeSet, contains, keys, IsSorted}
use rtt.Trigger.{buy, sell, PriceLevel, OrderBookSnapshot}
use rtt.OrderBook.{BookUpdate, PriceChangeBatchEntry, get_snapshot}
use rtt.OrderBook.Ladder.{◌≼◌}
use rtt.OrderBook.Books.{Update, book_update, price_change, history}
use rtt.OrderBook.History.{written, history-best}
use rtt.Subscription.{SubscriptionPlannerConfig, assign_subscription_shards}
use rtt.Subscription.Shards.{count_in_shards, every_nth, assign-count}
use rtt.Market.{MarketStatus, MarketMeta, RewardParams, RewardFreshness, yes_side, no_side}
use rtt.Universe.{RegistrySnapshot, UniverseSelectionPolicy, resolve}
use rtt.Universe.Selection.{eligible, included_by, resolve-eligible}

abbrev level : Text → Text → PriceLevel
level price size = record { price = price; size = size }

abbrev full_book : BookUpdate
full_book = record {
  asset_id = text "a";
  market = text "m";
  timestamp = text "1000";
  bids = level (text "0.50") (text "10") ∷ level (text "0.48") (text "5") ∷ [];
  asks = level (text "0.52") (text "7") ∷ level (text "0.55") (text "9") ∷ [];
  hash = some (text "h1");
}

abbrev best_bid_gone : PriceChangeBatchEntry
best_bid_gone = record {
  asset_id = text "a";
  price = text "0.50";
  size = some (text "0");
  side = buy;
  hash = none;
  best_bid = none;
  best_ask = none;
}

abbrev updates : List Update
updates = book_update full_book ∷ price_change best_bid_gone 1_001 ∷ []

bid_there : written (text "a") buy (text "0.48") updates ≡ some (text "5")
unfolding text_ord rtt.Order.same
bid_there = refl

ask_there : written (text "a") sell (text "0.55") updates ≡ some (text "9")
unfolding text_ord rtt.Order.same
ask_there = refl

history-best_example :
    (snapshot : OrderBookSnapshot) × (bid : PriceLevel) × (ask : PriceLevel) × (get_snapshot
        (history [] updates)
        (text "a")
      ≡ some snapshot)
    × (snapshot.best_bid ≡ some bid)
    × (snapshot.best_ask ≡ some ask)
    × (written (text "a") buy bid.price updates ≡ some bid.size)
    × (written (text "a") sell ask.price updates ≡ some ask.size)
    × (text "0.48" ≼ bid.price)
    × (ask.price ≼ text "0.55")
history-best_example =
    history-best updates (text "a") (text "0.48") (text "5") (text "0.55") (text "9") bid_there
      ask_there

abbrev set : List Text → BTreeSet Text
set [] = []
set (id ∷ ids) = (id, tt) ∷ set ids

abbrev config : SubscriptionPlannerConfig
config = record { max_batch_size = 2; pacing_ms = 250; shard_count = 2; shard_index = 0 }

abbrev current : BTreeSet Text
current = set (text "a" ∷ text "b" ∷ [])

abbrev desired : BTreeSet Text
desired = set (text "b" ∷ text "c" ∷ text "d" ∷ text "e" ∷ [])

is_set : IsSorted desired
unfolding text_ord
is_set = ((refl, (refl, (refl, tt))), ((refl, (refl, tt)), ((refl, tt), (tt, tt))))

assign-count_example :
    let shards = assign_subscription_shards desired 3 in
    (count_in_shards (text "c") shards ≡ (if contains (text "c") desired then 1 else 0))
    × (length shards ≡ max 3 1)
    × (get_elem? shards 1
        ≡ some (record { shard_index = 1; asset_ids = every_nth 3 1 0 (keys desired) }))
assign-count_example = assign-count desired 3 1 (text "c") is_set (omega arith)

abbrev market : Text → MarketStatus → Option RewardParams → MarketMeta
market id status reward = record {
  market_id = id;
  yes_asset = record { asset_id = text "y"; side = yes_side };
  no_asset = record { asset_id = text "n"; side = no_side };
  condition_id = none;
  tick_size = text "0.01";
  min_order_size = none;
  status = status;
  reward = reward;
}

abbrev rewarded : Option RewardParams
rewarded = some (record {
  rate_bps = none;
  max_spread = none;
  min_size = some (text "5");
  min_notional = none;
  updated_at_ms = none;
  freshness = RewardFreshness.unknown;
})

abbrev registry : RegistrySnapshot
registry = record {
  provider = text "gamma";
  sequence = 1;
  refreshed_at_ms = 10;
  markets =
      (text "m1", market (text "m1") MarketStatus.active rewarded)
      ∷ (text "m2", market (text "m2") MarketStatus.closed rewarded)
      ∷ (text "m3", market (text "m3") MarketStatus.closed none)
      ∷ (text "m4", market (text "m4") MarketStatus.active none)
      ∷ [];
  quarantined = [];
}

-- `m3` is included by name in spite of its status.
abbrev policy : UniverseSelectionPolicy
policy = record {
  active_only = true;
  require_reward = true;
  include_markets = set (text "m3" ∷ []);
  exclude_markets = [];
  bypass_registry = false;
}

resolve-eligible_example :
    let universe = resolve policy (some registry) in
    (universe.selected_market_ids ≡ eligible policy registry.markets)
    × (universe.selected_market_ids ≡ included_by universe.decisions)
    × (map (λ d. d.market_id) universe.decisions ≡ keys registry.markets)
resolve-eligible_example = resolve-eligible policy registry refl

two_eligible : eligible policy registry.markets ≡ text "m1" ∷ text "m3" ∷ []
unfolding contains text_ord
two_eligible = refl
