-- ===== src/Runtime/Runs.antt =====
-- The loops of crates/pm-strategy/src/runtime.rs and crates/pm-strategy/src/runner.rs, from a channel of
-- notices or snapshots to a channel of triggers or quotes.
use rtt.Prelude.{ℕ, Bool, true, false, List, [], ◌∷◌, Option, none, some}
use rtt.Trigger.{OrderBookSnapshot, TriggerMessage}
use rtt.Quote.{DesiredQuotes}
use rtt.Events.{UpdateNotice}
use rtt.HotState.Store.{HotStateStore}
use rtt.HotState.Facade.{project_snapshot}
use rtt.Strategy.{StrategyRuntimeView, Strategy, TriggerStrategy, QuoteStrategy}
use rtt.Runtime.{SharedRuntimeScaffold, new_scaffold, resolve_view}

-- A notice as a runtime receives it: with what the store holds by then, and the time since the strategy
-- was made.
pub record Received : Type 0 where
  pub notice : UpdateNotice
  pub store : HotStateStore
  pub elapsed_ns : ℕ

-- What is sent. The loop ends when a channel is closed: the one it reads, at the end of the list, or the
-- one it sends to, by the Boolean.
abbrev pub forward {ℓ} : {M R : Type ℓ} → Option M → Bool → R → List M × R → List M × R
forward none live next (sent, last) = (sent, last)
forward (some message) true next (sent, last) = (message ∷ sent, last)
forward (some message) false next (sent, last) = ([], next)

module _ {ℓ} {I M R : Type ℓ} (handle : R → I → Option M × R) where
  unfoldable pub run_loop : List (I × Bool) → R → List M × R
  run_loop [] r = ([], r)
  run_loop ((item, live) ∷ items) r =
      let (message, next) = handle r item in forward message live next (run_loop items next)

-- `?` on what a notice leads to, then the strategy.
abbrev pub resolved {ℓ} :
    {V M R : Type ℓ} → (R → ℕ → V → Option M × R) → ℕ → Option V × R → Option M × R
resolved react elapsed_ns (none, r) = (none, r)
resolved react elapsed_ns (some view, r) = react r elapsed_ns view

pub record Runtime (S : Type 0) : Type 0 where
  pub strategy : S
  pub scaffold : SharedRuntimeScaffold

abbrev pub viewed :
    {S : Type 0} → HotStateStore → UpdateNotice → Runtime S → Option StrategyRuntimeView × Runtime S
viewed store notice runtime =
    let (view, scaffold) = resolve_view store runtime.scaffold notice in
    (view, record runtime { scaffold = scaffold })

abbrev pub snapshotted :
    {S : Type 0} → HotStateStore → UpdateNotice → S → Option OrderBookSnapshot × S
snapshotted store notice s = (project_snapshot store notice, s)

module _ {S : Type 0} (methods : Strategy S) where
  unfoldable pub handle_notice : S → Received → Option TriggerMessage × S
  handle_notice s received =
      resolved (λ s elapsed_ns snapshot. methods.on_book_update s elapsed_ns snapshot)
        received.elapsed_ns (snapshotted received.store received.notice s)

  unfoldable pub run_notices : List (Received × Bool) → S → List TriggerMessage × S
  unfolding run_loop handle_notice
  run_notices = run_loop handle_notice

  unfoldable pub run_snapshots : List ((ℕ × OrderBookSnapshot) × Bool) → S → List TriggerMessage × S
  unfolding run_loop
  run_snapshots =
      run_loop (λ s (elapsed_ns, snapshot). methods.on_book_update s elapsed_ns snapshot)

module _ {S : Type 0} (methods : TriggerStrategy S) where
  unfoldable pub new_trigger_runtime : S → Runtime S
  new_trigger_runtime s = record { strategy = s; scaffold = new_scaffold (methods.requirements s) }

  abbrev pub on_trigger_view :
      Runtime S → ℕ → StrategyRuntimeView → Option TriggerMessage × Runtime S
  on_trigger_view runtime elapsed_ns view =
      let (message, s) = methods.on_update runtime.strategy elapsed_ns view in
      (message, record runtime { strategy = s })

  unfoldable pub handle_trigger_notice : Runtime S → Received → Option TriggerMessage × Runtime S
  handle_trigger_notice runtime received =
      resolved on_trigger_view received.elapsed_ns (viewed received.store received.notice runtime)

  unfoldable pub run_triggers : List (Received × Bool) → Runtime S → List TriggerMessage × Runtime S
  unfolding run_loop handle_trigger_notice
  run_triggers = run_loop handle_trigger_notice

module _ {S : Type 0} (methods : QuoteStrategy S) where
  unfoldable pub new_quote_runtime : S → Runtime S
  new_quote_runtime s = record { strategy = s; scaffold = new_scaffold (methods.requirements s) }

  abbrev pub on_quote_view : Runtime S → ℕ → StrategyRuntimeView → Option DesiredQuotes × Runtime S
  on_quote_view runtime elapsed_ns view =
      let (message, s) = methods.on_update runtime.strategy elapsed_ns view in
      (message, record runtime { strategy = s })

  unfoldable pub handle_quote_notice : Runtime S → Received → Option DesiredQuotes × Runtime S
  handle_quote_notice runtime received =
      resolved on_quote_view received.elapsed_ns (viewed received.store received.notice runtime)

  unfoldable pub run_quotes : List (Received × Bool) → Runtime S → List DesiredQuotes × Runtime S
  unfolding run_loop handle_quote_notice
  run_quotes = run_loop handle_quote_notice
