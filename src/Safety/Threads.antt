-- ===== src/Safety/Threads.antt =====
-- `check_and_record` of crates/pm-executor/src/safety.rs, one atomic access at a time, so that calls
-- of several threads interleave.
use rtt.Prelude.{ℕ, zero, suc, ◌+◌, ◌≡◌, true, List, [], ◌∷◌, ltb, if◌then◌else◌, arith}
use rtt.Safety.{
  CircuitBreaker, Verdict, accepted, refused, Tripped, already_tripped, max_orders_exceeded,
  max_usd_exceeded, wrap_u64, trip, check_and_record,
}

-- Where a call stands, and the cents of its order.
pub data Pc : Type 0 where
  -- before `tripped.load`
  start : ℕ → Pc
  -- before `orders_fired.fetch_add`
  checked : ℕ → Pc
  -- before `usd_committed_cents.fetch_add`
  counted : ℕ → Pc
  -- before `tripped.store(true)`
  tripping : ℕ → Tripped → Pc
  done : ℕ → Verdict → Pc

unfoldable pub micro : CircuitBreaker → Pc → CircuitBreaker × Pc
micro b (start cents) =
    if b.tripped then (b, done cents (refused already_tripped)) else (b, checked cents)
micro b (checked cents) =
    let orders = wrap_u64 (b.orders_fired + 1) in
    (
      record b { orders_fired = orders },
      if ltb b.max_orders orders
          then tripping cents (max_orders_exceeded orders b.max_orders)
          else counted cents,
    )
micro b (counted cents) =
    let total = wrap_u64 (b.usd_committed_cents + cents) in
    (
      record b { usd_committed_cents = total },
      if ltb b.max_usd_cents total
          then tripping cents (max_usd_exceeded total b.max_usd_cents)
          else done cents accepted,
    )
micro b (tripping cents reason) = (record b { tripped = true }, done cents (refused reason))
micro b (done cents verdict) = (b, done cents verdict)

-- A call that is not interrupted.
unfoldable pub alone : ℕ → CircuitBreaker → Pc → CircuitBreaker × Pc
alone zero b pc = (b, pc)
alone (suc n) b pc = let (b', pc') = micro b pc in alone n b' pc'

-- Four accesses that nothing interrupts are one call of `check_and_record`, on every branch.
pub alone-check_and_record :
    (b : CircuitBreaker) (cents : ℕ)
    → let (b', verdict) = check_and_record b cents in
      alone 4 b (start cents) ≡ (b', done cents verdict)
unfolding alone micro check_and_record
alone-check_and_record b cents = ground arith

-- What the scheduler picks: a thread by its place, or some thread trips the breaker by hand.
pub data Action : Type 0 where
  step : ℕ → Action
  trip_by_hand : Action

unfoldable pub step_at : ℕ → CircuitBreaker → List Pc → CircuitBreaker × List Pc
unfolding micro
step_at i b [] = (b, [])
step_at zero b (pc ∷ pcs) = let (b', pc') = micro b pc in (b', pc' ∷ pcs)
step_at (suc i) b (pc ∷ pcs) = let (b', pcs') = step_at i b pcs in (b', pc ∷ pcs')

unfoldable pub interleave : List Action → CircuitBreaker → List Pc → CircuitBreaker × List Pc
interleave [] b pcs = (b, pcs)
interleave (step i ∷ rest) b pcs = let (b', pcs') = step_at i b pcs in interleave rest b' pcs'
interleave (trip_by_hand ∷ rest) b pcs = interleave rest (trip b) pcs
