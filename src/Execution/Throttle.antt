-- ===== src/Execution/Throttle.antt =====
-- How many quote commands a window lets through: `QuoteCommandThrottle` of
-- crates/pm-executor/src/execution.rs.
use rtt.Prelude.{
  ℕ, suc, ◌+◌, ◌-◌, ◌≤◌, ◌<◌, ◌≡◌, true, false, none, some, List, [], ◌∷◌, All, length,
  if◌then◌else◌, min, max_u64, saturating_add, arith, lt_or_le, inl, inr, ◌⊎◌,
}
use rtt.Execution.{QuoteCommandPolicy, QuoteCommandThrottle, new_throttle, try_acquire}

-- The throttle after calls at these times, and how many of them it allowed.
unfoldable pub run : QuoteCommandThrottle → List ℕ → QuoteCommandThrottle × ℕ
run throttle [] = (throttle, 0)
run throttle (t ∷ ts) =
    let (throttle', decision) = try_acquire throttle t in
    let (throttle'', rest) = run throttle' ts in
    (throttle'', if decision.allowed then suc rest else rest)

-- A throttle whose window opened at `s` and has let `n` commands through.
abbrev pub opened_at : QuoteCommandPolicy → ℕ → ℕ → QuoteCommandThrottle
opened_at policy s n = record {
  policy = policy;
  window_started_ms = some s;
  commands_in_window = n;
}

try_acquire_inside :
    (policy : QuoteCommandPolicy) (s n t : ℕ)
    → t - s < policy.throttle_window_ms
    → (n < policy.max_commands_per_window)
    → try_acquire (opened_at policy s n) t
      ≡ (opened_at policy s (n + 1), record { allowed = true; retry_at_ms = none })
unfolding try_acquire
try_acquire_inside policy s n t h k = ground arith

try_acquire_full :
    (policy : QuoteCommandPolicy) (s n t : ℕ)
    → t - s < policy.throttle_window_ms
    → policy.max_commands_per_window ≤ n
    → try_acquire (opened_at policy s n) t ≡ (
      opened_at policy s n,
      record { allowed = false; retry_at_ms = some (saturating_add s policy.throttle_window_ms) },
    )
unfolding try_acquire
try_acquire_full policy s n t h k = ground arith

run-inside :
    (policy : QuoteCommandPolicy) (s n : ℕ) (ts : List ℕ)
    → All (λ t. t - s < policy.throttle_window_ms) ts
    → n ≤ policy.max_commands_per_window
    → (run (opened_at policy s n) ts).1 ≡ min (length ts) (policy.max_commands_per_window - n)
unfolding run
run-inside policy s n [] h k = ground arith
run-inside policy s n (t ∷ ts) h k = elim (lt_or_le n policy.max_commands_per_window) [
  | inl lt ↦ ground (
    arith,
    try_acquire_inside policy s n t h.0 lt,
    run-inside policy s (n + 1) ts h.1 (omega arith),
  )
  | inr ge ↦ ground (arith, try_acquire_full policy s n t h.0 ge, run-inside policy s n ts h.1 k)
]

-- The first call of a throttle opens its window, and until that window is over exactly the first
-- `max_commands_per_window` calls are allowed, whatever their times are.
pub window-exact :
    (policy : QuoteCommandPolicy) (t : ℕ) (ts : List ℕ)
    → 0 < policy.throttle_window_ms
    → All (λ u. u - t < policy.throttle_window_ms) ts
    → (run (new_throttle policy) (t ∷ ts)).1 ≡ min (length (t ∷ ts)) policy.max_commands_per_window
window-exact policy t ts w h =
    let opens : (run (new_throttle policy) (t ∷ ts)).1 ≡ (run (opened_at policy t 0) (t ∷ ts)).1 =
      unfold run try_acquire in ground arith in
    omega (arith, opens, run-inside policy t 0 (t ∷ ts) (omega arith, h) (omega arith))

-- The time that a refusal gives is the first at which a call is allowed: calls before it change
-- nothing and are refused with the same time, and a call at it is allowed, as long as the times fit a
-- `u64` and the maximum is not 0.
pub retry_at-exact :
    (throttle : QuoteCommandThrottle) (now at u : ℕ)
    → (try_acquire throttle now).1 ≡ record { allowed = false; retry_at_ms = some at }
    → at < max_u64
    → 0 < throttle.policy.max_commands_per_window
    → now ≤ u
    → let refused = (try_acquire throttle now).0 in
      ((u < at)
        × (try_acquire refused u ≡ (refused, record { allowed = false; retry_at_ms = some at })))
      ⊎ ((at ≤ u) × ((try_acquire refused u).1 ≡ record { allowed = true; retry_at_ms = none }))
unfolding try_acquire
retry_at-exact throttle now at u h fits m later = ground arith
