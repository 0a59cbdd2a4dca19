-- ===== src/Execution/Loop.antt =====
-- `run_execution_loop` of crates/pm-executor/src/execution.rs: what the executor's thread does with
-- each trigger. An iteration is a function of what it sees (the shutdown flag, the channel, the clock,
-- the network), a run is a list of those. Logs, alerts and the parse of the response, which is only
-- logged, are left out.
pub mod Steps
pub mod Limits
pub mod DryRun
pub mod Pace
pub mod Pool
use rtt.Prelude.{
  ℕ, ◌-◌, ◌/◌, Bool, true, false, not, ◌&&◌, Option, none, some, List, [], ◌∷◌, leb, ltb,
  if◌then◌else◌, saturating_sub, Result,
}
use rtt.Order.{Text}
use rtt.Trigger.{TriggerMessage}
use rtt.Safety.{
  CircuitBreaker, Tripped, Verdict, accepted, refused, check_and_record, trip, RateLimiter,
  try_acquire, OrderGuard, acquire, release,
}
use rtt.ClobExecutor.{
  DispatchOutcome, sent, rejected, Network, PreSignedOrderPool, len, reset_cursor, process_one_clob,
  Signing, sign_and_dispatch,
}

-- The arguments that the loop does not change. `signing` is `signer_params` with what it is used by,
-- `build` assembles the request of a pre-signed body, and `cents_of` is the value of an order, by its
-- price and size, as `check_and_record` computes it in floats.
pub record Config (Order Request : Type 0) : Type 0 where
  pub dry_run : Bool
  pub signing : Option (Signing Order Request)
  pub build : Text → Result Text Request
  pub cents_of : Text → Text → ℕ

pub record LoopState : Type 0 where
  pub presigned : PreSignedOrderPool
  pub breaker : CircuitBreaker
  pub limiter : RateLimiter
  pub guard : OrderGuard

-- What an iteration sees. The breaker is shared: another thread may have tripped it.
pub data Poll (Request : Type 0) : Type 0 where
  shut_down : Poll Request
  disconnected : Poll Request
  empty : Poll Request
  tripped_elsewhere : Poll Request
  received : TriggerMessage → ℕ → Network Request → Poll Request

-- What became of a trigger.
pub data Event : Type 0 where
  halted : Event
  rate_limited : Event
  already_in_flight : Event
  would_fire : Event
  breaker_refused : Tripped → Event
  dispatched : TriggerMessage → DispatchOutcome → Event

-- Whether the loop goes on.
pub data Next : Type 0 where
  go_on : Next
  break : Next

-- The refill at the end of an iteration: the cursor is reset when a fifth or less remains.
unfoldable pub refill : PreSignedOrderPool → PreSignedOrderPool
refill pool =
    let remaining = saturating_sub (len pool) pool.cursor in
    if leb remaining (len pool / 5) && ltb 0 (len pool) then reset_cursor pool else pool

abbrev pub LoopStep : Type 0
LoopStep = LoopState × Event × Next

-- After the response: the guard is free; a failure on a connection halts the loop.
abbrev pub after_dispatch : LoopState → TriggerMessage → DispatchOutcome → LoopStep
after_dispatch s trigger (sent body) =
    (record s { presigned = refill s.presigned }, dispatched trigger (sent body), go_on)
after_dispatch s trigger (rejected true error) =
    (record s { breaker = trip s.breaker }, dispatched trigger (rejected true error), break)
after_dispatch s trigger (rejected false error) =
    (record s { presigned = refill s.presigned }, dispatched trigger (rejected false error), go_on)

module _ {Order Request : Type 0} (config : Config Order Request) where
  -- The order is signed now, or the next pre-signed one is taken.
  abbrev pub send :
      Option (Signing Order Request)
      → Network Request
      → TriggerMessage
      → PreSignedOrderPool
      → PreSignedOrderPool × DispatchOutcome
  send (some signing) net trigger pool = (pool, sign_and_dispatch signing net trigger)
  send none net trigger pool = process_one_clob config.build net pool

  -- A live order, by the breaker's verdict.
  unfoldable pub fire : LoopState → Verdict → TriggerMessage → Network Request → LoopStep
  fire s (refused reason) trigger net =
      (record s { guard = release s.guard }, breaker_refused reason, break)
  fire s accepted trigger net =
      let (presigned, outcome) = send config.signing net trigger s.presigned in
      after_dispatch (record s { presigned = presigned; guard = release s.guard }) trigger outcome

  unfoldable pub live : LoopState → TriggerMessage → Network Request → LoopStep
  live s trigger net =
      let (breaker, verdict) =
        check_and_record s.breaker (config.cents_of trigger.price trigger.size) in
      fire (record s { breaker = breaker }) verdict trigger net

  -- One trigger, through the checks in the order of the source.
  unfoldable pub on_trigger : LoopState → TriggerMessage → ℕ → Network Request → LoopStep
  on_trigger s trigger now_ns net =
      let (limiter, allowed) = try_acquire s.limiter now_ns in
      let (guard, free) = acquire s.guard in
      let limited = record s { limiter = limiter } in
      let guarded = record limited { guard = guard } in
      if s.breaker.tripped
      then (s, halted, break)
      else if not allowed
      then (limited, rate_limited, go_on)
      else if not free
      then (guarded, already_in_flight, go_on)
      else if config.dry_run
      then (record guarded { guard = release guard }, would_fire, go_on)
      else live guarded trigger net

  -- The loop over what its iterations see, into the last state and the events in their order. A list
  -- that ends leaves the loop running.
  unfoldable pub run_execution_loop : LoopState → List (Poll Request) → LoopState × List Event
  run_execution_loop s [] = (s, [])
  run_execution_loop s (shut_down ∷ polls) = (s, [])
  run_execution_loop s (disconnected ∷ polls) = (s, [])
  run_execution_loop s (empty ∷ polls) = run_execution_loop s polls
  run_execution_loop s (tripped_elsewhere ∷ polls) =
      run_execution_loop (record s { breaker = trip s.breaker }) polls
  run_execution_loop s (received trigger now_ns net ∷ polls) =
      let (s', event, next) = on_trigger s trigger now_ns net in
      let (s'', events) = run_execution_loop s' polls in
      elim next [ break ↦ (s', event ∷ []) | go_on ↦ (s'', event ∷ events) ]
