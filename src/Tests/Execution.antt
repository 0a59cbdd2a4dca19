-- ===== src/Tests/Execution.antt =====
-- Runs and witnesses for crates/pm-executor/src/execution.rs and
-- crates/rtt-core/src/clob_executor.rs.
use rtt.Prelude.{
  ℕ, ◌+◌, ◌≤◌, ◌≡◌, refl, ◌⊎◌, Bool, true, false, none, List, [], ◌∷◌, All, ok, err, arith,
}
use rtt.Order.{Text, text}
use rtt.Trigger.{TriggerMessage, buy, gtc}
use rtt.Safety.{with_initial_counts, new_limiter}
use rtt.ClobExecutor.{PreSignedOrderPool, Network, ConnectionError, connection, reconnect, rejected}
use rtt.Execution.{
  QuoteCommandFailure, default_policy, transient, rate_limited, permanent, retry_decision, retry_at,
  new_throttle, try_acquire, QuoteCommandThrottle,
}
use rtt.Execution.Retry.{schedule}
use rtt.Execution.Throttle.{opened_at}
use rtt.Execution.Loop.{
  Config, LoopState, Poll, empty, tripped_elsewhere, received, dispatched, halted, would_fire,
  run_execution_loop,
}
use rtt.Execution.Loop.Steps.{ends_well, run-ends_well}
use rtt.Execution.Loop.Limits.{fired, spent, run-limits}
use rtt.Execution.Loop.DryRun.{dry_run-sends_nothing}
use rtt.Execution.Loop.Pool.{is_exhaustion, pool-never_exhausted}

abbrev failures : List QuoteCommandFailure
failures = transient ∷ rate_limited ∷ transient ∷ transient ∷ []

-- Three retries, after 100, 200 and 400 ms, and none after the fourth failure.
three_retries : schedule default_policy failures 0 1_000 ≡ 1_100 ∷ 1_300 ∷ 1_700 ∷ []
unfolding schedule retry_decision
three_retries = refl

abbrev seven_calls : List ℕ
seven_calls = 1_001 ∷ 1_002 ∷ 1_003 ∷ 1_004 ∷ 1_005 ∷ 1_999 ∷ []

abbrev full : QuoteCommandThrottle
full = opened_at default_policy 1_000 5

abbrev pool : PreSignedOrderPool
pool = record { bodies = text "a" ∷ text "b" ∷ text "c" ∷ []; cursor = 1 }

abbrev answers : Network Text
answers = record { send_start = λ req. ok 0; collect = λ index. ok (text "{}") }

abbrev breaks : Network Text
breaks = record { send_start = λ req. ok 0; collect = λ index. err (reconnect 0 (text "closed")) }

-- Pre-signed bodies are sent as they are, and every order is worth three dollars.
abbrev presigned_config : Bool → Config Text Text
presigned_config dry_run = record {
  dry_run = dry_run;
  signing = none;
  build = λ body. ok body;
  cents_of = λ price size. 300;
}

abbrev started : LoopState
started = record {
  presigned = pool;
  breaker = with_initial_counts 3 1_000 0 0;
  limiter = new_limiter 5;
  guard = record { in_flight = false };
}

abbrev order : TriggerMessage
order = record {
  trigger_id = 7;
  token_id = text "token";
  side = buy;
  price = text "0.50";
  size = text "6";
  order_type = gtc;
  timestamp_ns = 0;
}

abbrev polls : List (Poll Text)
polls =
    received order 2_000_000_000 answers
    ∷ empty
    ∷ received order 2_000_000_001 answers
    ∷ received order 2_000_000_002 breaks
    ∷ received order 2_000_000_003 answers
    ∷ []

run-ends_well_example :
    let (s', events) = run_execution_loop (presigned_config false) started polls in
    ends_well s'.breaker.tripped events ≡ true
run-ends_well_example = run-ends_well (presigned_config false) started polls refl

abbrev halted_state : LoopState
halted_state = record started { breaker = record started.breaker { tripped = true } }

run-limits_example :
    let (s', events) = run_execution_loop (presigned_config false) started polls in
    ((fired events ≡ 0) × (spent (presigned_config false) events ≡ 0))
    ⊎ ((0 + fired events ≤ 3) × (0 + spent (presigned_config false) events ≤ 1_000))
run-limits_example = run-limits (presigned_config false) started polls (omega arith) (omega arith)

-- The third order meets a broken connection, and the fourth is never read.
three_fired : fired (run_execution_loop (presigned_config false) started polls).1 ≡ 3
unfolding run_execution_loop rtt.Execution.Loop.on_trigger rtt.Safety.try_acquire
    rtt.Execution.Loop.live rtt.Execution.Loop.fire rtt.Safety.check_and_record
    rtt.ClobExecutor.process_one_clob rtt.ClobExecutor.dispatch_request rtt.Execution.Loop.refill
three_fired = refl

dry_run-sends_nothing_example :
    let (s', events) = run_execution_loop (presigned_config true) started polls in
    (fired events ≡ 0)
    × (s'.presigned ≡ pool)
    × (s'.breaker.orders_fired ≡ 0)
    × (s'.breaker.usd_committed_cents ≡ 0)
dry_run-sends_nothing_example = dry_run-sends_nothing (presigned_config true) started polls refl

pool-never_exhausted_example :
    All (λ e. is_exhaustion e ≡ false) (run_execution_loop (presigned_config false) started polls).1
pool-never_exhausted_example =
    pool-never_exhausted (presigned_config false) refl started polls (omega arith)
