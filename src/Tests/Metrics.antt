-- ===== src/Tests/Metrics.antt =====
-- Runs and witnesses for crates/rtt-core/src/metrics.rs and crates/pm-executor/src/bridge.rs.
use native.Mathlib.Nat.{mul-le-mul_right}
use rtt.Prelude.{ℕ, ◌+◌, ◌-◌, ◌*◌, ◌/◌, ◌≤◌, ◌≡◌, refl, true, List, [], ◌∷◌, All, arith}
use rtt.Order.{text}
use rtt.Trigger.{TriggerMessage, buy, fok}
use rtt.Metrics.{percentiles, sort}
use rtt.Metrics.Percentiles.{percentiles-ascend}
use rtt.Bridge.{trigger_received, trigger_shutdown, mpsc_to_crossbeam, stamped}

-- The rounding, exactly.
abbrev rank : ℕ → ℕ → ℕ
rank n p = (p * (n - 1) + 500) / 1000

rank_ascends : (n p q : ℕ) → p ≤ q → rank n p ≤ rank n q
rank_ascends n p q h = omega (arith, mul-le-mul_right (n - 1) h)

abbrev durations : List ℕ
durations = 30 ∷ 10 ∷ 50 ∷ 20 ∷ 40 ∷ []

median : (percentiles rank durations).p50 ≡ 30
unfolding percentiles sort
median = refl

percentiles-ascend_example :
    let set = percentiles rank durations in
    (set.p50 ≤ set.p95)
    × (set.p95 ≤ set.p99)
    × (set.p99 ≤ set.p999)
    × (set.p999 ≤ set.largest)
    × All (λ v. v ≤ set.largest) durations
percentiles-ascend_example = percentiles-ascend rank durations rank_ascends

abbrev fired : TriggerMessage
fired = record {
  trigger_id = 1;
  token_id = text "y";
  side = buy;
  price = text "0.5";
  size = text "1";
  order_type = fok;
  timestamp_ns = 5;
}

-- The second trigger comes after the shutdown.
one_carried :
    mpsc_to_crossbeam
      (trigger_received fired 9 true ∷ trigger_shutdown true ∷ trigger_received fired 10 true ∷ [])
    ≡ stamped fired 9 ∷ []
unfolding mpsc_to_crossbeam
one_carried = refl
