-- ===== src/Backtest.antt =====
-- crates/pm-strategy/src/backtest.rs: saved snapshots or updates replayed through a strategy. Loading
-- them from a file is left out.
pub mod Replay
use rtt.Prelude.{ℕ, zero, suc, Bool, List, [], ◌∷◌, Option, none, some, length}
use rtt.Order.{Text}
use rtt.Market.{MarketMeta}
use rtt.Trigger.{OrderBookSnapshot, TriggerMessage}
use rtt.Quote.{DesiredQuotes}
use rtt.Events.{UpdateNotice, NormalizedUpdate}
use rtt.HotState.Store.{HotStateStore}
use rtt.HotState.Facade.{apply_update, register_market}
use rtt.Strategy.{Strategy, TriggerStrategy, QuoteStrategy}
use rtt.Runtime.Runs.{
  viewed, snapshotted, on_trigger_view, on_quote_view, new_trigger_runtime, new_quote_runtime,
}

-- `BacktestResult` and `QuoteBacktestResult`, which differ in what is collected.
pub record BacktestResult (M : Type 0) : Type 0 where
  pub outputs : List M
  pub total_views : ℕ
  pub total_events : ℕ

-- What the loop has collected: the outputs, and how many views there were.
abbrev Collected : Type 0 → Type 0
Collected M = List M × ℕ

abbrev pub collect_output : {M : Type 0} → Option M → Collected M → Collected M
collect_output none (outputs, views) = (outputs, suc views)
collect_output (some m) (outputs, views) = (m ∷ outputs, suc views)

abbrev pub collect_step : {M : Type 0} → Option (Option M) → Collected M → Collected M
collect_step none got = got
collect_step (some output) got = collect_output output got

abbrev result_of : {M : Type 0} → ℕ → Collected M → BacktestResult M
result_of events (outputs, views) = record {
  outputs = outputs;
  total_views = views;
  total_events = events;
}

abbrev pub new_store : HotStateStore
new_store = record { markets_by_asset = []; books = []; references = [] }

unfoldable pub register_markets : List MarketMeta → HotStateStore → HotStateStore
register_markets [] store = store
register_markets (m ∷ markets) store = register_markets markets (
    register_market m.market_id m.yes_asset.asset_id m.no_asset.asset_id m.tick_size
      m.min_order_size store)

-- The loop over the updates, with what a notice is resolved to and how the strategy reacts to it. Each
-- update stands with the time since the strategy was made.
module _ {V M R : Type 0} (resolve : HotStateStore → UpdateNotice → R → Option V × R)
    (react : R → ℕ → V → Option M × R) where
  -- What the strategy makes of a view, if there is one.
  abbrev pub react_to : ℕ → Option V × R → Option (Option M) × R
  react_to elapsed_ns (none, r) = (none, r)
  react_to elapsed_ns (some view, r) =
      let (output, next) = react r elapsed_ns view in (some output, next)

  unfoldable pub replay : List (ℕ × NormalizedUpdate) → HotStateStore → R → Collected M
  replay [] store r = ([], 0)
  replay ((elapsed_ns, update) ∷ updates) store r =
      let after = apply_update store update in
      let (step, next) = react_to elapsed_ns (resolve after update.notice r) in
      collect_step step (replay updates after next)

module _ {S : Type 0} (methods : Strategy S) where
  unfoldable pub backtest_loop : List (ℕ × OrderBookSnapshot) → S → Collected TriggerMessage
  backtest_loop [] s = ([], 0)
  backtest_loop ((elapsed_ns, snapshot) ∷ snapshots) s =
      let (trigger, next) = methods.on_book_update s elapsed_ns snapshot in
      collect_output trigger (backtest_loop snapshots next)

  unfoldable pub run_backtest : List (ℕ × OrderBookSnapshot) → S → BacktestResult TriggerMessage
  run_backtest snapshots s = record {
    outputs = (backtest_loop snapshots s).0;
    total_views = length snapshots;
    total_events = length snapshots;
  }

  unfoldable pub run_notice_replay :
      List MarketMeta → List (ℕ × NormalizedUpdate) → S → BacktestResult TriggerMessage
  run_notice_replay markets updates s = result_of (length updates) (
      replay snapshotted (λ s elapsed_ns snapshot. methods.on_book_update s elapsed_ns snapshot)
        updates (register_markets markets new_store) s)

module _ {S : Type 0} (methods : TriggerStrategy S) where
  unfoldable pub run_trigger_notice_replay :
      List MarketMeta → List (ℕ × NormalizedUpdate) → S → BacktestResult TriggerMessage
  run_trigger_notice_replay markets updates s = result_of (length updates) (
      replay viewed (on_trigger_view methods) updates (register_markets markets new_store)
        (new_trigger_runtime methods s))

module _ {S : Type 0} (methods : QuoteStrategy S) where
  unfoldable pub run_quote_notice_replay :
      List MarketMeta → List (ℕ × NormalizedUpdate) → S → BacktestResult DesiredQuotes
  run_quote_notice_replay markets updates s = result_of (length updates) (
      replay viewed (on_quote_view methods) updates (register_markets markets new_store)
        (new_quote_runtime methods s))
