-- ===== src/Backtest/Replay.antt =====
-- A replay of crates/pm-strategy/src/backtest.rs gives what the runtimes of runtime.rs would have sent.
use rtt.Prelude.{ℕ, ◌≡◌, ◌≤◌, refl, Bool, true, List, [], ◌∷◌, Option, length, arith}
use rtt.Market.{MarketMeta}
use rtt.Events.{UpdateNotice, NormalizedUpdate}
use rtt.HotState.Store.{HotStateStore}
use rtt.HotState.Facade.{apply_update}
use rtt.Strategy.{Strategy, TriggerStrategy, QuoteStrategy}
use rtt.Runtime.Runs.{
  Received, run_loop, resolved, viewed, snapshotted, handle_notice, run_notices, on_trigger_view,
  handle_trigger_notice, run_triggers, new_trigger_runtime, on_quote_view, handle_quote_notice,
  run_quotes, new_quote_runtime,
}
use rtt.Backtest.{
  new_store, register_markets, react_to, replay, run_notice_replay, run_trigger_notice_replay,
  run_quote_notice_replay,
}

-- The updates as a runtime receives them when it keeps up with the feed: each notice before the next
-- update is applied, and every channel open.
abbrev pub in_step : List (ℕ × NormalizedUpdate) → HotStateStore → List (Received × Bool)
in_step [] store = []
in_step ((elapsed_ns, update) ∷ updates) store =
    let after = apply_update store update in
    (record { notice = update.notice; store = after; elapsed_ns = elapsed_ns }, true)
    ∷ in_step updates after

module _ {V M R : Type 0} (resolve : HotStateStore → UpdateNotice → R → Option V × R)
    (react : R → ℕ → V → Option M × R) where
  abbrev handler : R → Received → Option M × R
  handler r received = resolved react received.elapsed_ns (resolve received.store received.notice r)

  replay-run_loop :
      (updates : List (ℕ × NormalizedUpdate)) (store : HotStateStore) (r : R)
      → ((replay resolve react updates store r).0 ≡ (run_loop handler (in_step updates store) r).0)
        × ((replay resolve react updates store r).1 ≤ length updates)
  unfolding replay run_loop
  replay-run_loop [] store r = (refl, omega arith)
  replay-run_loop ((elapsed_ns, update) ∷ updates) store r =
      let after = apply_update store update in
      let next = (react_to resolve react elapsed_ns (resolve after update.notice r)).1 in
      let rest = replay-run_loop updates after next in ground (arith, rest)

-- A backtest over saved updates collects the triggers that a trigger runtime with the same strategy sends
-- when it starts on the same registered markets and handles each notice before the next update and its
-- channel stays open; it counts no more views than events.
pub run_trigger_notice_replay-run_triggers :
    {S : Type 0} (methods : TriggerStrategy S) (markets : List MarketMeta)
    (updates : List (ℕ × NormalizedUpdate)) (s : S)
    → let result = run_trigger_notice_replay methods markets updates s in
      let store = register_markets markets new_store in
      let runtime = new_trigger_runtime methods s in
      (result.outputs ≡ (run_triggers methods (in_step updates store) runtime).0)
      × (result.total_views ≤ result.total_events)
unfolding run_trigger_notice_replay run_triggers handle_trigger_notice
run_trigger_notice_replay-run_triggers methods markets updates s =
    replay-run_loop viewed (on_trigger_view methods) updates (register_markets markets new_store)
      (new_trigger_runtime methods s)

-- The same of a quote strategy and the quotes that its runtime sends.
run_quote_notice_replay-run_quotes :
    {S : Type 0} (methods : QuoteStrategy S) (markets : List MarketMeta)
    (updates : List (ℕ × NormalizedUpdate)) (s : S)
    → let result = run_quote_notice_replay methods markets updates s in
      let store = register_markets markets new_store in
      let runtime = new_quote_runtime methods s in
      (result.outputs ≡ (run_quotes methods (in_step updates store) runtime).0)
      × (result.total_views ≤ result.total_events)
unfolding run_quote_notice_replay run_quotes handle_quote_notice
run_quote_notice_replay-run_quotes methods markets updates s =
    replay-run_loop viewed (on_quote_view methods) updates (register_markets markets new_store)
      (new_quote_runtime methods s)

-- The same of a strategy that reads snapshots.
run_notice_replay-run_notices :
    {S : Type 0} (methods : Strategy S) (markets : List MarketMeta)
    (updates : List (ℕ × NormalizedUpdate)) (s : S)
    → let result = run_notice_replay methods markets updates s in
      let store = register_markets markets new_store in
      (result.outputs ≡ (run_notices methods (in_step updates store) s).0)
      × (result.total_views ≤ result.total_events)
unfolding run_notice_replay run_notices handle_notice
run_notice_replay-run_notices methods markets updates s =
    replay-run_loop snapshotted
      (λ s elapsed_ns snapshot. methods.on_book_update s elapsed_ns snapshot) updates
      (register_markets markets new_store) s
