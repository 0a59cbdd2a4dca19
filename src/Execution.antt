-- ===== src/Execution.antt =====
-- crates/pm-executor/src/execution.rs: when a failed quote command is retried, and how many commands
-- a window lets through. `Execution.Loop` has the loop that reads the triggers.
pub mod Retry
pub mod Throttle
pub mod Loop
use rtt.Prelude.{
  ℕ, zero, ◌+◌, ◌^◌, Bool, true, false, Option, none, some, leb, if◌then◌else◌, min, saturating_add,
  saturating_mul, saturating_sub, unwrap_or,
}

pub record QuoteCommandPolicy : Type 0 where
  pub max_retries : ℕ
  pub initial_backoff_ms : ℕ
  pub max_backoff_ms : ℕ
  pub throttle_window_ms : ℕ
  pub max_commands_per_window : ℕ

abbrev pub default_policy : QuoteCommandPolicy
default_policy = record {
  max_retries = 3;
  initial_backoff_ms = 100;
  max_backoff_ms = 1_000;
  throttle_window_ms = 1_000;
  max_commands_per_window = 5;
}

pub data QuoteCommandFailure : Type 0 where
  transient : QuoteCommandFailure
  rate_limited : QuoteCommandFailure
  permanent : QuoteCommandFailure

pub data QuoteCommandRetry : Type 0 where
  retry_at : ℕ → ℕ → QuoteCommandRetry
  give_up : QuoteCommandRetry

pub record ThrottleDecision : Type 0 where
  pub allowed : Bool
  pub retry_at_ms : Option ℕ

pub record QuoteCommandThrottle : Type 0 where
  pub policy : QuoteCommandPolicy
  pub window_started_ms : Option ℕ
  pub commands_in_window : ℕ

abbrev pub new_throttle : QuoteCommandPolicy → QuoteCommandThrottle
new_throttle policy = record { policy = policy; window_started_ms = none; commands_in_window = 0 }

-- The first half of `try_acquire`: the window is opened, or renewed when it is over.
abbrev pub renew : QuoteCommandThrottle → ℕ → QuoteCommandThrottle
renew throttle now_ms =
    let started = unwrap_or throttle.window_started_ms now_ms in
    if leb throttle.policy.throttle_window_ms (saturating_sub now_ms started)
    then record throttle { window_started_ms = some now_ms; commands_in_window = 0 }
    else record throttle { window_started_ms = some started }

unfoldable pub try_acquire : QuoteCommandThrottle → ℕ → QuoteCommandThrottle × ThrottleDecision
try_acquire throttle now_ms =
    let current = renew throttle now_ms in
    let started = unwrap_or current.window_started_ms now_ms in
    let next = saturating_add started current.policy.throttle_window_ms in
    if leb current.policy.max_commands_per_window current.commands_in_window
    then (current, record { allowed = false; retry_at_ms = some next })
    else (
      record current { commands_in_window = current.commands_in_window + 1 },
      record { allowed = true; retry_at_ms = none },
    )

-- The wait before retry number `attempt`: `1 << min(attempt, 16)` times the initial one, capped.
abbrev pub delay : QuoteCommandPolicy → ℕ → ℕ
delay policy attempt =
    min (saturating_mul policy.initial_backoff_ms (2 ^ min attempt 16)) policy.max_backoff_ms

unfoldable pub retry_decision : QuoteCommandPolicy → QuoteCommandFailure → ℕ → ℕ → QuoteCommandRetry
retry_decision policy permanent attempt now_ms = give_up
retry_decision policy _ attempt now_ms =
    if leb policy.max_retries attempt
    then give_up
    else retry_at (attempt + 1) (saturating_add now_ms (delay policy attempt))
