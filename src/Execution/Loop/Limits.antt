-- ===== src/Execution/Loop/Limits.antt =====
-- How much the loop of crates/pm-executor/src/execution.rs sends.
use rtt.Prelude.{ℕ, suc, ◌+◌, ◌^◌, ◌≤◌, ◌<◌, ◌≡◌, ◌≢◌, true, List, [], ◌∷◌, ◌⊎◌, arith}
use rtt.Trigger.{TriggerMessage}
use rtt.Safety.{
  CircuitBreaker, accepted, refused, Verdict, check_and_record, acquire, try_acquire, trip,
}
use rtt.ClobExecutor.{Network}
use rtt.Execution.Loop.{
  Config, LoopState, Poll, shut_down, disconnected, empty, tripped_elsewhere, received, Event,
  dispatched, LoopStep, fire, live, on_trigger, run_execution_loop,
}

abbrev pub fires : Event → ℕ
fires (dispatched trigger outcome) = 1
fires _ = 0

-- How many orders a run dispatched.
abbrev pub fired : List Event → ℕ
fired [] = 0
fired (e ∷ es) = fires e + fired es

-- What a call of the breaker does to its counts, where they do not wrap.
check-counts :
    (b : CircuitBreaker) (cents : ℕ)
    → b.orders_fired + 1 < 2 ^ 64
    → b.usd_committed_cents + cents < 2 ^ 64
    → let (b', verdict) = check_and_record b cents in
      (b'.max_orders ≡ b.max_orders)
      × (b'.max_usd_cents ≡ b.max_usd_cents)
      × (b.orders_fired ≤ b'.orders_fired)
      × (b'.orders_fired ≤ b.orders_fired + 1)
      × (b.usd_committed_cents ≤ b'.usd_committed_cents)
      × (b'.usd_committed_cents ≤ b.usd_committed_cents + cents)
      × (((b'.tripped ≡ true) × (verdict ≢ accepted))
          ⊎ ((b'.orders_fired ≡ b.orders_fired + 1)
              × (b'.usd_committed_cents ≡ b.usd_committed_cents + cents)
              × (b'.orders_fired ≤ b.max_orders)
              × (b'.usd_committed_cents ≤ b.max_usd_cents)))
unfolding check_and_record
check-counts b cents h k = ground arith

module _ {Order Request : Type 0} (config : Config Order Request) where
  abbrev pub value : Event → ℕ
  value (dispatched trigger outcome) = config.cents_of trigger.price trigger.size
  value _ = 0

  -- The cents of the orders that a run dispatched.
  abbrev pub spent : List Event → ℕ
  spent [] = 0
  spent (e ∷ es) = value e + spent es

  -- The triggers of a run, and their cents.
  abbrev pub triggers : List (Poll Request) → ℕ
  triggers [] = 0
  triggers (received trigger now_ns net ∷ polls) = suc (triggers polls)
  triggers (_ ∷ polls) = triggers polls

  abbrev pub demand : List (Poll Request) → ℕ
  demand [] = 0
  demand (received trigger now_ns net ∷ polls) =
      config.cents_of trigger.price trigger.size + demand polls
  demand (_ ∷ polls) = demand polls

  -- What an iteration does to the breaker's counts.
  record Budget (b : CircuitBreaker) (cents : ℕ) (step : LoopStep) : Type 0 where
    same_max_orders : step.0.breaker.max_orders ≡ b.max_orders
    same_max_usd : step.0.breaker.max_usd_cents ≡ b.max_usd_cents
    orders_grow : b.orders_fired + fires step.1 ≤ step.0.breaker.orders_fired
    orders_by_one : step.0.breaker.orders_fired ≤ b.orders_fired + 1
    usd_grows : b.usd_committed_cents + value step.1 ≤ step.0.breaker.usd_committed_cents
    usd_by_cents : step.0.breaker.usd_committed_cents ≤ b.usd_committed_cents + cents
    within :
        (fires step.1 ≡ 0)
        ⊎ ((step.0.breaker.orders_fired ≤ b.max_orders)
            × (step.0.breaker.usd_committed_cents ≤ b.max_usd_cents))

  fire-breaker :
      (s : LoopState) (verdict : Verdict) (trigger : TriggerMessage) (net : Network Request)
      → let (s', event, next) = fire config s verdict trigger net in
        (s'.breaker.orders_fired ≡ s.breaker.orders_fired)
        × (s'.breaker.usd_committed_cents ≡ s.breaker.usd_committed_cents)
        × (s'.breaker.max_orders ≡ s.breaker.max_orders)
        × (s'.breaker.max_usd_cents ≡ s.breaker.max_usd_cents)
        × (((fires event ≡ 0) × (value event ≡ 0))
            ⊎ ((verdict ≡ accepted)
                × (fires event ≡ 1)
                × (value event ≡ config.cents_of trigger.price trigger.size)))
  unfolding fire
  fire-breaker s (refused reason) trigger net = ground arith
  fire-breaker s accepted trigger net = ground arith

  live-Budget :
      (s : LoopState) (trigger : TriggerMessage) (net : Network Request)
      → s.breaker.orders_fired + 1 < 2 ^ 64
      → s.breaker.usd_committed_cents + config.cents_of trigger.price trigger.size < 2 ^ 64
      → Budget s.breaker (config.cents_of trigger.price trigger.size) (live config s trigger net)
  unfolding live
  live-Budget s trigger net h k =
      let cents = config.cents_of trigger.price trigger.size in
      let (breaker, verdict) = check_and_record s.breaker cents in
      let one = fire-breaker (record s { breaker = breaker }) verdict trigger net in
      ground (arith, one, check-counts s.breaker cents h k)

  on_trigger-Budget :
      (s : LoopState) (trigger : TriggerMessage) (now_ns : ℕ) (net : Network Request)
      → s.breaker.orders_fired + 1 < 2 ^ 64
      → s.breaker.usd_committed_cents + config.cents_of trigger.price trigger.size < 2 ^ 64
      → Budget s.breaker
          (config.cents_of trigger.price trigger.size)
          (on_trigger config s trigger now_ns net)
  unfolding on_trigger
  on_trigger-Budget s trigger now_ns net h k =
      let limited = record s { limiter = (try_acquire s.limiter now_ns).0 } in
      let guarded = record limited { guard = (acquire s.guard).0 } in
      ground (arith, live-Budget guarded trigger net h k)

  -- The orders that the loop dispatches never exceed the breaker's limits, in number or in cents,
  -- counted from the initial counts, whatever the triggers, the clock and the network do and whoever
  -- else trips the breaker: provided that all triggers and all their cents fit the `u64` counters.
  pub run-limits :
      (s : LoopState) (polls : List (Poll Request))
      → s.breaker.orders_fired + triggers polls < 2 ^ 64
      → s.breaker.usd_committed_cents + demand polls < 2 ^ 64
      → let (s', events) = run_execution_loop config s polls in
        ((fired events ≡ 0) × (spent events ≡ 0))
        ⊎ ((s.breaker.orders_fired + fired events ≤ s.breaker.max_orders)
            × (s.breaker.usd_committed_cents + spent events ≤ s.breaker.max_usd_cents))
  unfolding run_execution_loop
  run-limits s [] h k = ground arith
  run-limits s (shut_down ∷ polls) h k = ground arith
  run-limits s (disconnected ∷ polls) h k = ground arith
  run-limits s (empty ∷ polls) h k = run-limits s polls h k
  run-limits s (tripped_elsewhere ∷ polls) h k =
      run-limits (record s { breaker = trip s.breaker }) polls h k
  run-limits s (received trigger now_ns net ∷ polls) h k =
      let step = on_trigger config s trigger now_ns net in
      let one = on_trigger-Budget s trigger now_ns net (omega arith) (omega arith) in
      let rest = run-limits step.0 polls (omega (arith, one)) (omega (arith, one)) in
      ground (arith, one, rest)
