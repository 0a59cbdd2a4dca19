-- ===== src/Execution/Loop/Pool.antt =====
-- The pre-signed orders of the loop of crates/pm-executor/src/execution.rs.
use rtt.Prelude.{
  ℕ, ◌<◌, ◌≡◌, refl, Bool, true, false, none, List, [], ◌∷◌, ◌⊎◌, All, arith, inl, inr, Result, ok,
  err,
}
use rtt.Order.{Text}
use rtt.Trigger.{TriggerMessage}
use rtt.Safety.{accepted, refused, Verdict, check_and_record, release, acquire, try_acquire, trip}
use rtt.ClobExecutor.{
  DispatchOutcome, pool_exhausted, sent, rejected, Network, PreSignedOrderPool, len, dispatched,
  built, dispatch_request, process_one_clob,
}
use rtt.ClobExecutor.Pool.{next_body-inside, get_elem?-inside}
use rtt.Execution.Loop.{
  Config, LoopState, Poll, shut_down, disconnected, empty, tripped_elsewhere, received, Event, Next,
  go_on, break, LoopStep, after_dispatch, send, fire, live, on_trigger, run_execution_loop, refill,
}

-- The cursor is on a body.
abbrev pub HasNext : PreSignedOrderPool → Type 0
HasNext pool = pool.cursor < len pool

abbrev pub is_exhaustion : Event → Bool
is_exhaustion (Event.dispatched trigger (rejected reconnect pool_exhausted)) = true
is_exhaustion _ = false

abbrev pub exhausted : DispatchOutcome → Bool
exhausted (rejected reconnect pool_exhausted) = true
exhausted _ = false

abbrev stopped : Next → Bool
stopped break = true
stopped go_on = false

refill-HasNext :
    (pool : PreSignedOrderPool)
    → 0 < len pool
    → HasNext (refill pool) × (len (refill pool) ≡ len pool)
unfolding refill
refill-HasNext pool h = ground arith

dispatch_request-not_exhausted :
    {Request : Type 0} (net : Network Request) (req : Request)
    → exhausted (dispatch_request net req) ≡ false
unfolding dispatch_request
dispatch_request-not_exhausted net req = ground arith

dispatched-not_exhausted :
    {Request : Type 0} (net : Network Request) (req : Result Text Request)
    → exhausted (dispatched net (built req)) ≡ false
dispatched-not_exhausted net (ok req) = dispatch_request-not_exhausted net req
dispatched-not_exhausted net (err e) = refl

process_one_clob-not_exhausted :
    {Request : Type 0} (build : Text → Result Text Request) (net : Network Request)
    (pool : PreSignedOrderPool)
    → HasNext pool
    → let (pool', outcome) = process_one_clob build net pool in
      (exhausted outcome ≡ false) × (len pool' ≡ len pool)
unfolding process_one_clob
process_one_clob-not_exhausted build net pool h =
    let (body, e) = get_elem?-inside pool.bodies pool.cursor h in
    ground (arith, next_body-inside pool h, e, dispatched-not_exhausted net (build body))

module _ {Order Request : Type 0} (config : Config Order Request) where
  -- What an iteration keeps, if orders are not signed on the way.
  record Stocked (n : ℕ) (step : LoopStep) : Type 0 where
    same_len : len step.0.presigned ≡ n
    has_next : (stopped step.2 ≡ true) ⊎ HasNext step.0.presigned
    not_exhausted : is_exhaustion step.1 ≡ false

  after_dispatch-Stocked :
      (s : LoopState) (trigger : TriggerMessage) (outcome : DispatchOutcome)
      → 0 < len s.presigned
      → exhausted outcome ≡ false
      → Stocked (len s.presigned) (after_dispatch s trigger outcome)
  after_dispatch-Stocked s trigger (sent body) h k = ground (arith, refill-HasNext s.presigned h)
  after_dispatch-Stocked s trigger (rejected true error) h k = ground arith
  after_dispatch-Stocked s trigger (rejected false error) h k =
      ground (arith, refill-HasNext s.presigned h)

  module _ (pre : config.signing ≡ none) where
    send-Stocked :
        (net : Network Request) (trigger : TriggerMessage) (pool : PreSignedOrderPool)
        → HasNext pool
        → let (pool', outcome) = send config config.signing net trigger pool in
          (exhausted outcome ≡ false) × (len pool' ≡ len pool)
    send-Stocked net trigger pool h =
        rw pre (process_one_clob-not_exhausted config.build net pool h)

    fire-Stocked :
        (s : LoopState) (verdict : Verdict) (trigger : TriggerMessage) (net : Network Request)
        → HasNext s.presigned
        → Stocked (len s.presigned) (fire config s verdict trigger net)
    unfolding fire
    fire-Stocked s (refused reason) trigger net h = ground arith
    fire-Stocked s accepted trigger net h =
        let (presigned, outcome) = send config config.signing net trigger s.presigned in
        let sends = send-Stocked net trigger s.presigned h in
        let next = record s { presigned = presigned; guard = release s.guard } in
        let after = after_dispatch-Stocked next trigger outcome (omega (arith, sends, h)) sends.0 in
        ground (arith, sends, after)

    on_trigger-Stocked :
        (s : LoopState) (trigger : TriggerMessage) (now_ns : ℕ) (net : Network Request)
        → HasNext s.presigned
        → Stocked (len s.presigned) (on_trigger config s trigger now_ns net)
    unfolding on_trigger live
    on_trigger-Stocked s trigger now_ns net h =
        let limited = record s { limiter = (try_acquire s.limiter now_ns).0 } in
        let guarded = record limited { guard = (acquire s.guard).0 } in
        let cents = config.cents_of trigger.price trigger.size in
        let (breaker, verdict) = check_and_record s.breaker cents in
        ground (arith, fire-Stocked (record guarded { breaker = breaker }) verdict trigger net h)

    -- Without signing on the way, a loop that starts with a pre-signed order under the cursor never
    -- finds the pool exhausted, since the refill resets the cursor in time.
    pub pool-never_exhausted :
        (s : LoopState) (polls : List (Poll Request))
        → HasNext s.presigned
        → All (λ e. is_exhaustion e ≡ false) (run_execution_loop config s polls).1
    unfolding run_execution_loop
    pool-never_exhausted s [] h = tt
    pool-never_exhausted s (shut_down ∷ polls) h = tt
    pool-never_exhausted s (disconnected ∷ polls) h = tt
    pool-never_exhausted s (empty ∷ polls) h = pool-never_exhausted s polls h
    pool-never_exhausted s (tripped_elsewhere ∷ polls) h =
        pool-never_exhausted (record s { breaker = trip s.breaker }) polls h
    pool-never_exhausted s (received trigger now_ns net ∷ polls) h =
        let step = on_trigger config s trigger now_ns net in
        let one = on_trigger-Stocked s trigger now_ns net h in
        elim one.has_next [
          | inl halts ↦ ground (arith, one)
          | inr more ↦ ground (arith, one, pool-never_exhausted step.0 polls more)
        ]
