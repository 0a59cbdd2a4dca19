-- ===== src/Tests/Safety.antt =====
-- Runs and witnesses for crates/pm-executor/src/safety.rs.
use rtt.Prelude.{◌+◌, ◌≤◌, ◌≡◌, refl, ◌⊎◌, true, List, [], ◌∷◌, max_u64, arith}
use rtt.Safety.{
  CircuitBreaker, accepted, with_initial_counts, check_and_record, RateLimiter, new_limiter,
}
use rtt.Safety.Threads.{Action, step, step_at, interleave}
use rtt.Safety.Limits.{tally, calls, interleave-limits, largest_order-accepted}

abbrev breaker : CircuitBreaker
breaker = with_initial_counts 3 1_000 1 500

-- `circuit_breaker_fires_up_to_max_orders_then_trips`.
third_trips :
    let b = with_initial_counts 2 1_000 0 0 in
    (check_and_record (check_and_record (check_and_record b 5).0 5).0 5).0.tripped ≡ true
unfolding check_and_record
third_trips = refl

-- Two threads pass the first check before either counts its order.
abbrev racing : List Action
racing = step 0 ∷ step 1 ∷ step 0 ∷ step 1 ∷ step 1 ∷ step 0 ∷ step 1 ∷ step 0 ∷ []

interleave-limits_example :
    let t = tally (interleave racing breaker (calls (300 ∷ 400 ∷ []))).1 in
    (t.taken ≡ 0) ⊎ ((1 + t.taken ≤ 3) × (500 + t.spent ≤ 1_000))
interleave-limits_example =
    interleave-limits breaker (300 ∷ 400 ∷ []) racing (omega arith) (omega arith)

race_takes_one : (tally (interleave racing breaker (calls (300 ∷ 400 ∷ []))).1).taken ≡ 1
unfolding interleave step_at
race_takes_one = refl

largest_order-accepted_example :
    let (b', verdict) = check_and_record breaker max_u64 in
    (verdict ≡ accepted) × (b'.usd_committed_cents + 1 ≡ 500)
largest_order-accepted_example =
    largest_order-accepted breaker max_u64 refl (omega arith) (omega arith) (omega arith)
      (omega arith) (omega arith) refl

abbrev limiter : RateLimiter
limiter = new_limiter 2
