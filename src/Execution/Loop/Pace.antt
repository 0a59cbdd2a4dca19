-- ===== src/Execution/Loop/Pace.antt =====
-- How fast the loop of crates/pm-executor/src/execution.rs sends.
use rtt.Prelude.{ℕ, ◌+◌, ◌-◌, ◌^◌, ◌≤◌, ◌<◌, ◌≡◌, true, List, [], ◌∷◌, ◌⊎◌, All, length, arith, max}
use rtt.Trigger.{TriggerMessage}
use rtt.Safety.{try_acquire, trip}
use rtt.ClobExecutor.{Network}
use rtt.Execution.Loop.{
  Config, LoopState, Poll, shut_down, disconnected, empty, tripped_elsewhere, received, break, fire,
  live, on_trigger, run_execution_loop,
}
use rtt.Safety.{window_ns}
use rtt.Safety.Rate.{run, per_window}
use rtt.Execution.Loop.Limits.{fires, fired}

module _ {Order Request : Type 0} (config : Config Order Request) where
  -- The times at which triggers are read.
  abbrev pub times : List (Poll Request) → List ℕ
  times [] = []
  times (received trigger now_ns net ∷ polls) = now_ns ∷ times polls
  times (_ ∷ polls) = times polls

  on_trigger-limiter :
      (s : LoopState) (trigger : TriggerMessage) (now_ns : ℕ) (net : Network Request)
      → let (s', event, next) = on_trigger config s trigger now_ns net in
        ((fires event ≡ 0) × (next ≡ break))
        ⊎ ((s'.limiter ≡ (try_acquire s.limiter now_ns).0)
            × ((fires event ≡ 0) ⊎ ((fires event ≡ 1) × ((try_acquire s.limiter now_ns).1 ≡ true))))
  unfolding on_trigger live fire
  on_trigger-limiter s trigger now_ns net = ground arith

  fired-granted :
      (s : LoopState) (polls : List (Poll Request))
      → fired (run_execution_loop config s polls).1 ≤ (run s.limiter (times polls)).1
  unfolding run_execution_loop run
  fired-granted s [] = ground arith
  fired-granted s (shut_down ∷ polls) = ground arith
  fired-granted s (disconnected ∷ polls) = ground arith
  fired-granted s (empty ∷ polls) = fired-granted s polls
  fired-granted s (tripped_elsewhere ∷ polls) =
      fired-granted (record s { breaker = trip s.breaker }) polls
  fired-granted s (received trigger now_ns net ∷ polls) =
      let step = on_trigger config s trigger now_ns net in
      let rest = fired-granted step.0 polls in
      ground (arith, on_trigger-limiter s trigger now_ns net, rest)

  -- Of the triggers that are read in one window of the rate limiter, from the one that opens it on, the
  -- loop dispatches at most `max_per_second`, or one if that is 0, as long as their count fits a `u64`.
  pub fired-per_window :
      (s : LoopState) (trigger : TriggerMessage) (now_ns : ℕ) (net : Network Request)
      (polls : List (Poll Request))
      → window_ns ≤ now_ns - s.limiter.window_start_ns
      → All (λ u. u - now_ns < window_ns) (times polls)
      → length (times polls) + 1 < 2 ^ 64
      → fired (run_execution_loop config s (received trigger now_ns net ∷ polls)).1
        ≤ max 1 s.limiter.max_per_second
  fired-per_window s trigger now_ns net polls h k fits =
      let granted = fired-granted s (received trigger now_ns net ∷ polls) in
      omega (arith, granted, per_window s.limiter now_ns (times polls) h k fits)
