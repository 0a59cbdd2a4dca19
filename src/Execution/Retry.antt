-- ===== src/Execution/Retry.antt =====
-- How often and how late a quote command is retried: `retry_decision` of
-- crates/pm-executor/src/execution.rs.
use rtt.Prelude.{
  ℕ, zero, suc, ◌+◌, ◌-◌, ◌*◌, ◌≤◌, ◌<◌, ◌≡◌, ◌⊎◌, List, [], ◌∷◌, All, length, arith,
  saturating_add, Bool, true, false, min,
}
use rtt.Execution.{
  QuoteCommandPolicy, QuoteCommandFailure, transient, rate_limited, permanent, retry_at, give_up,
  retry_decision, delay,
}

-- A command that fails in these ways, one after the other, each failure seen at the time for which the
-- retry was set: the times of its retries.
unfoldable pub schedule : QuoteCommandPolicy → List QuoteCommandFailure → ℕ → ℕ → List ℕ
schedule policy [] attempt now = []
schedule policy (f ∷ fs) attempt now = elim (retry_decision policy f attempt now) [
  | give_up ↦ []
  | retry_at n at ↦ at ∷ schedule policy fs n at
]

-- A failure that a retry may cure.
abbrev pub is_retryable : QuoteCommandFailure → Bool
is_retryable permanent = false
is_retryable _ = true

retry_decision-cases :
    (policy : QuoteCommandPolicy) (f : QuoteCommandFailure) (attempt now : ℕ)
    → ((attempt < policy.max_retries)
        × (is_retryable f ≡ true)
        × (retry_decision policy f attempt now
            ≡ retry_at (attempt + 1) (saturating_add now (delay policy attempt))))
      ⊎ (((policy.max_retries ≤ attempt) ⊎ (is_retryable f ≡ false))
          × (retry_decision policy f attempt now ≡ give_up))
unfolding retry_decision
retry_decision-cases policy transient attempt now = ground arith
retry_decision-cases policy rate_limited attempt now = ground arith
retry_decision-cases policy permanent attempt now = ground arith

delay-cap :
    (policy : QuoteCommandPolicy) (attempt : ℕ) → delay policy attempt ≤ policy.max_backoff_ms
delay-cap policy attempt = ground arith

schedule-within :
    (policy : QuoteCommandPolicy) (fs : List QuoteCommandFailure) (attempt now left bound : ℕ)
    → policy.max_retries ≤ attempt + left
    → now + left * policy.max_backoff_ms ≤ bound
    → (length (schedule policy fs attempt now) ≤ left)
      × All (λ t. t ≤ bound) (schedule policy fs attempt now)
unfolding schedule
schedule-within policy [] attempt now left bound h k = ground arith
schedule-within policy (f ∷ fs) attempt now zero bound h k =
    ground (arith, retry_decision-cases policy f attempt now)
schedule-within policy (f ∷ fs) attempt now (suc left) bound h k =
    let next = saturating_add now (delay policy attempt) in
    let soon : next ≤ now + policy.max_backoff_ms = ground (arith, delay-cap policy attempt) in
    let rest =
      schedule-within policy fs (attempt + 1) next left bound (omega arith) (omega (arith, soon)) in
    ground (arith, retry_decision-cases policy f attempt now, soon, rest)

-- A command that keeps failing is retried at most as often as the policy has retries left, whatever the
-- failures are, and no retry is later than if each waited for the longest back-off.
pub schedule-bounded :
    (policy : QuoteCommandPolicy) (fs : List QuoteCommandFailure) (attempt now : ℕ)
    → let times = schedule policy fs attempt now in
      let left = policy.max_retries - attempt in
      (length times ≤ left) × All (λ t. t ≤ now + left * policy.max_backoff_ms) times
schedule-bounded policy fs attempt now =
    let left = policy.max_retries - attempt in
    schedule-within policy fs attempt now left (now + left * policy.max_backoff_ms) (omega arith)
      (omega arith)

-- A command whose failures can all be cured uses every retry that the policy has left.
schedule-exact :
    (policy : QuoteCommandPolicy) (fs : List QuoteCommandFailure) (attempt now : ℕ)
    → All (λ f. is_retryable f ≡ true) fs
    → length (schedule policy fs attempt now) ≡ min (length fs) (policy.max_retries - attempt)
unfolding schedule
schedule-exact policy [] attempt now h = ground arith
schedule-exact policy (f ∷ fs) attempt now h =
    let next = saturating_add now (delay policy attempt) in
    ground (
      arith,
      retry_decision-cases policy f attempt now,
      schedule-exact policy fs (attempt + 1) next h.1,
    )
