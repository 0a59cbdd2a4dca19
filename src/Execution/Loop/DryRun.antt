-- ===== src/Execution/Loop/DryRun.antt =====
-- The dry run of the loop of crates/pm-executor/src/execution.rs.
use rtt.Prelude.{ℕ, ◌≡◌, true, List, [], ◌∷◌, arith}
use rtt.Trigger.{TriggerMessage}
use rtt.Safety.{trip}
use rtt.ClobExecutor.{Network}
use rtt.Execution.Loop.{
  Config, LoopState, Poll, shut_down, disconnected, empty, tripped_elsewhere, received, on_trigger,
  run_execution_loop,
}
use rtt.Execution.Loop.Limits.{fires, fired}

module _ {Order Request : Type 0} (config : Config Order Request) where
  on_trigger-dry_run :
      (s : LoopState) (trigger : TriggerMessage) (now_ns : ℕ) (net : Network Request)
      → config.dry_run ≡ true
      → let (s', event, next) = on_trigger config s trigger now_ns net in
        (fires event ≡ 0) × (s'.presigned ≡ s.presigned) × (s'.breaker ≡ s.breaker)
  unfolding on_trigger
  on_trigger-dry_run s trigger now_ns net h = ground arith

  -- A dry run sends nothing: no order is dispatched, no pre-signed order is used up, and the breaker
  -- counts neither orders nor cents.
  pub dry_run-sends_nothing :
      (s : LoopState) (polls : List (Poll Request))
      → config.dry_run ≡ true
      → let (s', events) = run_execution_loop config s polls in
        (fired events ≡ 0)
        × (s'.presigned ≡ s.presigned)
        × (s'.breaker.orders_fired ≡ s.breaker.orders_fired)
        × (s'.breaker.usd_committed_cents ≡ s.breaker.usd_committed_cents)
  unfolding run_execution_loop
  dry_run-sends_nothing s [] h = ground arith
  dry_run-sends_nothing s (shut_down ∷ polls) h = ground arith
  dry_run-sends_nothing s (disconnected ∷ polls) h = ground arith
  dry_run-sends_nothing s (empty ∷ polls) h = dry_run-sends_nothing s polls h
  dry_run-sends_nothing s (tripped_elsewhere ∷ polls) h =
      dry_run-sends_nothing (record s { breaker = trip s.breaker }) polls h
  dry_run-sends_nothing s (received trigger now_ns net ∷ polls) h =
      let step = on_trigger config s trigger now_ns net in
      let rest = dry_run-sends_nothing step.0 polls h in
      ground (arith, on_trigger-dry_run s trigger now_ns net h, rest)
