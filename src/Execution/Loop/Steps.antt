-- ===== src/Execution/Loop/Steps.antt =====
-- How the loop of crates/pm-executor/src/execution.rs treats the order guard and when it stops.
use rtt.Prelude.{
  ℕ, ◌≡◌, refl, Bool, true, false, not, ◌&&◌, ◌||◌, List, [], ◌∷◌, ◌⊎◌, All, arith, Bool-cases, inl,
  inr,
}
use rtt.Trigger.{TriggerMessage}
use rtt.Safety.{
  CircuitBreaker, accepted, refused, Verdict, check_and_record, release, acquire, try_acquire, trip,
}
use rtt.ClobExecutor.{DispatchOutcome, sent, rejected, Network}
use rtt.Execution.Loop.{
  Config, LoopState, Poll, shut_down, disconnected, empty, tripped_elsewhere, received, Event,
  halted, already_in_flight, breaker_refused, dispatched, Next, go_on, break, LoopStep,
  after_dispatch, send, fire, live, on_trigger, run_execution_loop,
}

-- The events after which the loop must have stopped, with the breaker tripped.
abbrev pub is_final : Event → Bool
is_final halted = true
is_final (breaker_refused reason) = true
is_final (dispatched trigger (rejected true error)) = true
is_final _ = false

abbrev pub is_blocked : Event → Bool
is_blocked already_in_flight = true
is_blocked _ = false

abbrev stops : Next → Bool
stops break = true
stops go_on = false

-- What each iteration keeps.
record Orderly (step : LoopStep) : Type 0 where
  guard_free : step.0.guard.in_flight ≡ false
  not_blocked : is_blocked step.1 ≡ false
  final_stops : stops step.2 ≡ is_final step.1
  final_tripped : (not (is_final step.1) || step.0.breaker.tripped) ≡ true

after_dispatch-Orderly :
    (s : LoopState) (trigger : TriggerMessage) (outcome : DispatchOutcome)
    → s.guard.in_flight ≡ false
    → Orderly (after_dispatch s trigger outcome)
after_dispatch-Orderly s trigger (sent body) h = ground arith
after_dispatch-Orderly s trigger (rejected true error) h = ground arith
after_dispatch-Orderly s trigger (rejected false error) h = ground arith

-- A refusal leaves the breaker tripped.
refused-tripped :
    (b : CircuitBreaker) (cents : ℕ)
    → let (b', verdict) = check_and_record b cents in (verdict ≡ accepted) ⊎ (b'.tripped ≡ true)
unfolding check_and_record
refused-tripped b cents = ground arith

module _ {Order Request : Type 0} (config : Config Order Request) where
  fire-Orderly :
      (s : LoopState) (verdict : Verdict) (trigger : TriggerMessage) (net : Network Request)
      → (verdict ≡ accepted) ⊎ (s.breaker.tripped ≡ true)
      → Orderly (fire config s verdict trigger net)
  unfolding fire
  fire-Orderly s (refused reason) trigger net h = ground arith
  fire-Orderly s accepted trigger net h =
      let (presigned, outcome) = send config config.signing net trigger s.presigned in
      after_dispatch-Orderly (record s { presigned = presigned; guard = release s.guard }) trigger
        outcome refl

  live-Orderly :
      (s : LoopState) (trigger : TriggerMessage) (net : Network Request)
      → Orderly (live config s trigger net)
  unfolding live
  live-Orderly s trigger net =
      let cents = config.cents_of trigger.price trigger.size in
      let (breaker, verdict) = check_and_record s.breaker cents in
      fire-Orderly (record s { breaker = breaker }) verdict trigger net
        (refused-tripped s.breaker cents)

  on_trigger-Orderly :
      (s : LoopState) (trigger : TriggerMessage) (now_ns : ℕ) (net : Network Request)
      → s.guard.in_flight ≡ false
      → Orderly (on_trigger config s trigger now_ns net)
  unfolding on_trigger
  on_trigger-Orderly s trigger now_ns net h =
      let limited = record s { limiter = (try_acquire s.limiter now_ns).0 } in
      let guarded = record limited { guard = (acquire s.guard).0 } in
      ground (arith, live-Orderly guarded trigger net)

  -- The order guard is free between iterations, so the loop never drops a trigger because of it.
  guard-free :
      (s : LoopState) (polls : List (Poll Request))
      → s.guard.in_flight ≡ false
      → let (s', events) = run_execution_loop config s polls in
        (s'.guard.in_flight ≡ false) × All (λ e. is_blocked e ≡ false) events
  unfolding run_execution_loop
  guard-free s [] h = (h, tt)
  guard-free s (shut_down ∷ polls) h = (h, tt)
  guard-free s (disconnected ∷ polls) h = (h, tt)
  guard-free s (empty ∷ polls) h = guard-free s polls h
  guard-free s (tripped_elsewhere ∷ polls) h =
      guard-free (record s { breaker = trip s.breaker }) polls h
  guard-free s (received trigger now_ns net ∷ polls) h =
      let one = on_trigger-Orderly s trigger now_ns net h in
      let step = on_trigger config s trigger now_ns net in
      let rest = guard-free step.0 polls one.guard_free in ground (arith, one, rest)

-- Whether the events of a run, and whether its breaker is tripped at the end, are those of a loop that
-- stops exactly when it must: nothing comes after a final event, and the breaker is then tripped.
abbrev pub ends_well : Bool → List Event → Bool
ends_well tripped [] = true
ends_well tripped (e ∷ []) = not (is_final e) || tripped
ends_well tripped (e ∷ es) = not (is_final e) && ends_well tripped es

ends_well-cons :
    (tripped : Bool) (e : Event) (es : List Event)
    → is_final e ≡ false
    → ends_well tripped es ≡ true
    → ends_well tripped (e ∷ es) ≡ true
ends_well-cons tripped e [] h k = ground arith
ends_well-cons tripped e (f ∷ es) h k = ground arith

module _ {Order Request : Type 0} (config : Config Order Request) where
  -- A tripped breaker, a refusal by the breaker and a failed connection stop the loop: no event
  -- follows one of these, and the breaker is tripped when the loop has stopped.
  pub run-ends_well :
      (s : LoopState) (polls : List (Poll Request))
      → s.guard.in_flight ≡ false
      → let (s', events) = run_execution_loop config s polls in
        ends_well s'.breaker.tripped events ≡ true
  unfolding run_execution_loop
  run-ends_well s [] h = refl
  run-ends_well s (shut_down ∷ polls) h = refl
  run-ends_well s (disconnected ∷ polls) h = refl
  run-ends_well s (empty ∷ polls) h = run-ends_well s polls h
  run-ends_well s (tripped_elsewhere ∷ polls) h =
      run-ends_well (record s { breaker = trip s.breaker }) polls h
  run-ends_well s (received trigger now_ns net ∷ polls) h =
      let step = on_trigger config s trigger now_ns net in
      let one = on_trigger-Orderly config s trigger now_ns net h in
      let (s', events) = run_execution_loop config step.0 polls in
      let rest = run-ends_well step.0 polls one.guard_free in
      elim (Bool-cases (is_final step.1)) [
        | inl e ↦ ground (arith, one)
        | inr e ↦ ground (arith, one, ends_well-cons s'.breaker.tripped step.1 events e rest)
      ]

  -- Once the breaker is tripped nothing is sent any more: the state stays as it is, and the next
  -- trigger, if one comes, stops the loop.
  run-tripped :
      (s : LoopState) (polls : List (Poll Request))
      → s.breaker.tripped ≡ true
      → let (s', events) = run_execution_loop config s polls in
        (s' ≡ s) × ((events ≡ []) ⊎ (events ≡ halted ∷ []))
  unfolding run_execution_loop
  run-tripped s [] h = (refl, inl refl)
  run-tripped s (shut_down ∷ polls) h = (refl, inl refl)
  run-tripped s (disconnected ∷ polls) h = (refl, inl refl)
  run-tripped s (empty ∷ polls) h = run-tripped s polls h
  run-tripped s (tripped_elsewhere ∷ polls) h =
      let rest = run-tripped (record s { breaker = trip s.breaker }) polls refl in
      ground (arith, rest)
  run-tripped s (received trigger now_ns net ∷ polls) h = unfold on_trigger in ground arith
