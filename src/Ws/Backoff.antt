-- ===== src/Ws/Backoff.antt =====
-- The pauses between the connections of crates/pm-data/src/ws.rs.
use rtt.Prelude.{ℕ, ◌≤◌, ◌≡◌, arith}
use rtt.Ws.{BackoffState, next_delay}

-- The settings of a new state, with the pause to come between the shortest and the longest.
pub record IsSane (b : BackoffState) : Type 0 where
  pub base : b.base_ms ≡ 1000
  pub cap : b.cap_ms ≡ 60_000
  pub jitter : b.jitter_ms ≡ 500
  pub above : 1000 ≤ b.current_ms
  pub below : b.current_ms ≤ 60_000

-- A pause within the range.
abbrev pub InRange : ℕ → Type 0
InRange delay = (1000 ≤ delay) × (delay ≤ 60_500)

pub next_delay-IsSane :
    (seed : ℕ) (b : BackoffState)
    → IsSane b
    → let (b', delay) = next_delay seed b in IsSane b' × InRange delay
unfolding next_delay
next_delay-IsSane seed b h = ground (arith, h.base, h.cap, h.jitter, h.above, h.below)
