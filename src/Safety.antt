-- ===== src/Safety.antt =====
-- crates/pm-executor/src/safety.rs, called from one thread: the circuit breaker, the rate limiter and
-- the order guard. `Safety.Threads` has the breaker under concurrent calls.
-- The atomics are `u64`: `fetch_add` wraps, and so does `+` in the release profile of Cargo.toml.
pub mod Threads
pub mod Limits
pub mod Rate
use rtt.Prelude.{
  ℕ, ◌+◌, ◌-◌, ◌%◌, ◌^◌, ◌≤◌, Bool, true, false, Option, none, some, List, leb, ltb, if◌then◌else◌,
  max_u64, saturating_sub,
}
use rtt.Order.{Text}

abbrev pub wrap_u64 : ℕ → ℕ
wrap_u64 n = n % 2 ^ 64

-- Why the breaker refuses. The messages that the source formats out of these are left out.
pub data Tripped : Type 0 where
  already_tripped : Tripped
  max_orders_exceeded : ℕ → ℕ → Tripped
  max_usd_exceeded : ℕ → ℕ → Tripped

pub data Verdict : Type 0 where
  accepted : Verdict
  refused : Tripped → Verdict

pub record CircuitBreaker : Type 0 where
  pub orders_fired : ℕ
  pub usd_committed_cents : ℕ
  pub max_orders : ℕ
  pub max_usd_cents : ℕ
  pub tripped : Bool

-- `max_usd_cents` is the limit in dollars, times 100 and cut to a `u64`: floats are left out.
abbrev pub with_initial_counts : ℕ → ℕ → ℕ → ℕ → CircuitBreaker
with_initial_counts max_orders max_usd_cents initial_orders initial_usd_cents = record {
  orders_fired = initial_orders;
  usd_committed_cents = initial_usd_cents;
  max_orders = max_orders;
  max_usd_cents = max_usd_cents;
  tripped = false;
}

-- The second half of `check_and_record`, once the order is counted.
commit_usd : CircuitBreaker → ℕ → CircuitBreaker × Verdict
commit_usd b usd_cents =
    let total = wrap_u64 (b.usd_committed_cents + usd_cents) in
    let counted = record b { usd_committed_cents = total } in
    if ltb b.max_usd_cents total
    then (record counted { tripped = true }, refused (max_usd_exceeded total b.max_usd_cents))
    else (counted, accepted)

-- `usd_cents` is `price * size * 100` over the parsed texts, cut to a `u64`: floats are left out.
unfoldable pub check_and_record : CircuitBreaker → ℕ → CircuitBreaker × Verdict
unfolding commit_usd
check_and_record b usd_cents =
    let orders = wrap_u64 (b.orders_fired + 1) in
    let counted = record b { orders_fired = orders } in
    if b.tripped
    then (b, refused already_tripped)
    else if ltb b.max_orders orders
    then (record counted { tripped = true }, refused (max_orders_exceeded orders b.max_orders))
    else commit_usd counted usd_cents

abbrev pub trip : CircuitBreaker → CircuitBreaker
trip b = record b { tripped = true }

pub record RateLimiter : Type 0 where
  pub max_per_second : ℕ
  pub window_start_ns : ℕ
  pub count_in_window : ℕ

abbrev pub new_limiter : ℕ → RateLimiter
new_limiter max_per_second = record {
  max_per_second = max_per_second;
  window_start_ns = 0;
  count_in_window = 0;
}

abbrev pub window_ns : ℕ
window_ns = 1_000_000_000

-- `now_ns` is the system clock.
unfoldable pub try_acquire : RateLimiter → ℕ → RateLimiter × Bool
try_acquire rl now_ns =
    let count = wrap_u64 (rl.count_in_window + 1) in
    if leb window_ns (saturating_sub now_ns rl.window_start_ns)
    then (record rl { window_start_ns = now_ns; count_in_window = 1 }, true)
    else (record rl { count_in_window = count }, leb count rl.max_per_second)

-- The order guard is its flag.
pub record OrderGuard : Type 0 where
  pub in_flight : Bool

abbrev pub acquire : OrderGuard → OrderGuard × Bool
acquire g = if g.in_flight then (g, false) else (record g { in_flight = true }, true)

abbrev pub release : OrderGuard → OrderGuard
release g = record g { in_flight = false }
