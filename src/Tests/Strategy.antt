-- ===== src/Tests/Strategy.antt =====
-- Runs and witnesses for crates/pm-strategy/src: a strategy over a book of one asset.
use rtt.Prelude.{
  ℕ, ◌≡◌, ◌≤◌, refl, none, some, List, [], ◌∷◌, ◌-◌, ltb, leb, length, map, All, arith, ok,
  saturating_add, unwrap_or,
}
use rtt.Order.{text, text_ord, same}
use rtt.BTreeMap.{contains, lookup}
use rtt.Trigger.{buy, sell, gtc, OrderBookSnapshot}
use rtt.Market.{MarketMeta, yes_side, no_side, MarketStatus}
use rtt.HotState.{parse_scaled}
use rtt.HotState.Store.{HotStateStore}
use rtt.HotState.Facade.{apply_update}
use rtt.Events.{
  asset_ref, polymarket_ws, book_snapshot, of_book_snapshot, NormalizedUpdate, UpdateNotice,
}
use rtt.Strategy.{InventoryDelta, StrategyRuntimeView}
use rtt.Inventory.{inventory_key}
use rtt.Inventory.Sums.{deltas_applied, filled_of, notional_of, sum_for, deltas_applied-sum}
use rtt.Strategies.{
  Float, StrategyConfig, BuiltStrategy, spread, new_strategy, build_strategy, bbo_requirements,
  price_strategy, price_trigger_strategy,
}
use rtt.Strategies.Triggers.{count_from, fired_prices, run_backtest-triggers}
use rtt.Runtime.{
  SharedRuntimeScaffold, new_scaffold, from_requirements, resolve_view, subject_key, same_book,
  same_reference, same_position,
}
use rtt.Runtime.Runs.{run_triggers, new_trigger_runtime}
use rtt.Runtime.Seen.{after_notices}
use rtt.Runtime.Views.{Distinct, IsCurrent, resolve_view-books}
use rtt.Backtest.{new_store, register_markets, run_backtest, run_trigger_notice_replay}
use rtt.Backtest.Replay.{in_step, run_trigger_notice_replay-run_triggers}

-- Prices in millionths stand for floats.
abbrev millionths : Float ℕ
millionths = record { parse_f64 = parse_scaled; minus = λ a b. a - b; lt_f64 = ltb; le_f64 = leb }

abbrev config : StrategyConfig ℕ
config = record {
  strategy = text "spread";
  token_id = text "y";
  side = buy;
  size = text "5";
  order_type = gtc;
  params = record { threshold = none; max_spread = some 30_000 };
}

abbrev narrow : BuiltStrategy ℕ
narrow = (spread, new_strategy (text "y") buy 30_000 (text "5") gtc)

is_built : build_strategy config ≡ ok narrow
unfolding build_strategy text_ord same
is_built = refl

abbrev snapshot_at : ℕ → OrderBookSnapshot
snapshot_at bid_digit = record {
  asset_id = text "y";
  best_bid = some (record { price = b'0' ∷ b'.' ∷ b'5' ∷ bid_digit ∷ []; size = text "10" });
  best_ask = some (record { price = text "0.54"; size = text "7" });
  timestamp_ms = 1;
  hash = [];
}

abbrev snapshots : List (ℕ × OrderBookSnapshot)
snapshots = (1, snapshot_at b'0') ∷ (2, snapshot_at b'2') ∷ (3, snapshot_at b'3') ∷ []

run_backtest-triggers_example :
    let out = (run_backtest (price_strategy millionths) snapshots narrow).outputs in
    (map (λ t. t.trigger_id) out ≡ count_from 1 (length out))
    × (map (λ t. t.price) out ≡ fired_prices millionths narrow snapshots)
    × All
        (λ t. (t.token_id ≡ text "y") × (t.side ≡ buy) × (t.size ≡ text "5") × (t.order_type ≡ gtc))
        out
run_backtest-triggers_example =
    run_backtest-triggers millionths config narrow snapshots is_built (omega arith)

two_fire : (run_backtest (price_strategy millionths) snapshots narrow).total_views ≡ 3
unfolding run_backtest
two_fire = refl

abbrev market_meta : MarketMeta
market_meta = record {
  market_id = text "m";
  yes_asset = record { asset_id = text "y"; side = yes_side };
  no_asset = record { asset_id = text "n"; side = no_side };
  condition_id = none;
  tick_size = text "0.01";
  min_order_size = none;
  status = MarketStatus.active;
  reward = none;
}

abbrev notice_of_book : UpdateNotice
notice_of_book = record {
  source_id = text "polymarket-public";
  source_kind = polymarket_ws;
  subject = asset_ref (text "polymarket-public") (text "y");
  kind = book_snapshot;
  version = 1;
  source_hash = none;
}

abbrev update : NormalizedUpdate
update = record {
  notice = notice_of_book;
  payload = of_book_snapshot (record {
    market_id = text "m";
    asset_id = text "y";
    bids = record { price = text "0.52"; size = text "10" } ∷ [];
    asks = record { price = text "0.54"; size = text "7" } ∷ [];
    timestamp_ms = 1;
    source_hash = none;
  });
}

abbrev updates : List (ℕ × NormalizedUpdate)
updates = (1, update) ∷ []

run_trigger_notice_replay-run_triggers_example :
    let methods = price_trigger_strategy millionths in
    let result = run_trigger_notice_replay methods (market_meta ∷ []) updates narrow in
    let store = register_markets (market_meta ∷ []) new_store in
    let runtime = new_trigger_runtime methods narrow in
    (result.outputs ≡ (run_triggers methods (in_step updates store) runtime).0)
    × (result.total_views ≤ result.total_events)
run_trigger_notice_replay-run_triggers_example =
    run_trigger_notice_replay-run_triggers (price_trigger_strategy millionths) (market_meta ∷ [])
      updates narrow

abbrev store_then : HotStateStore
store_then = apply_update (register_markets (market_meta ∷ []) new_store) update

abbrev scaffold : SharedRuntimeScaffold
scaffold = new_scaffold (bbo_requirements narrow)

abbrev announced : SharedRuntimeScaffold
announced = after_notices ((store_then, notice_of_book) ∷ []) scaffold

abbrev other_notice : UpdateNotice
other_notice = record notice_of_book { source_hash = some (text "h") }

abbrev view_then : StrategyRuntimeView
view_then =
    unwrap_or (resolve_view store_then announced other_notice).0
      (record { notice = other_notice; books = []; references = []; inventory = [] })

one_book : length view_then.books ≡ 1
unfolding resolve_view rtt.Runtime.is_relevant_notice new_scaffold from_requirements same
    rtt.Order.pair_ord text_ord rtt.Runtime.provision_subject rtt.Runtime.provision_source
    rtt.Runtime.gather rtt.Runtime.resolve_book rtt.HotState.Facade.resolve_notice
    rtt.HotState.Facade.resolve_book_notice lookup apply_update
    rtt.HotState.Updates.apply_book_snapshot_update rtt.BTreeMap.insert rtt.Runtime.gather_input
    rtt.Runtime.instance_key contains subject_key register_markets
    rtt.HotState.Facade.register_market
one_book = refl

is_viewed :
    resolve_view store_then announced other_notice
    ≡ (some view_then, (resolve_view store_then announced other_notice).1)
unfolding resolve_view rtt.Runtime.is_relevant_notice new_scaffold from_requirements same
    rtt.Order.pair_ord text_ord rtt.Runtime.provision_subject rtt.Runtime.provision_source
is_viewed = refl

resolve_view-books_example :
    Distinct same_book view_then.books
    × Distinct same_reference view_then.references
    × Distinct same_position view_then.inventory
    × All (IsCurrent store_then announced other_notice) view_then.books
resolve_view-books_example =
    resolve_view-books store_then announced other_notice view_then
      (resolve_view store_then announced other_notice).1 is_viewed

abbrev bought : InventoryDelta
bought = record {
  asset_id = text "y";
  side = buy;
  filled_size_delta = text "1.5";
  notional_delta = text "0.78";
  observed_at_ms = 10;
}

deltas_applied-sum_example :
    let deltas = bought ∷ record bought { side = sell } ∷ bought ∷ [] in
    let after = lookup (inventory_key (text "y") buy) (deltas_applied [] deltas) in
    let held = lookup (inventory_key (text "y") buy) [] in
    (filled_of after
      ≡ saturating_add
          (filled_of held)
          (sum_for (λ d. d.filled_size_delta) (inventory_key (text "y") buy) deltas))
    × (notional_of after
        ≡ saturating_add
            (notional_of held)
            (sum_for (λ d. d.notional_delta) (inventory_key (text "y") buy) deltas))
deltas_applied-sum_example =
    deltas_applied-sum [] (bought ∷ record bought { side = sell } ∷ bought ∷ [])
      (inventory_key (text "y") buy)
