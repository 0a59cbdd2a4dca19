-- ===== src/Safety/Limits.antt =====
-- The circuit breaker's limits hold however the calls of several threads interleave.
use rtt.Prelude.{
  ℕ, zero, suc, ◌+◌, ◌^◌, ◌≤◌, ◌<◌, ◌≡◌, refl, ◌⊎◌, Bool, true, false, List, [], ◌∷◌, All, length,
  map, arith, max_u64, ◌∙◌,
}
use rtt.Safety.{CircuitBreaker, accepted, refused, trip, check_and_record}
use rtt.Safety.Threads.{
  Pc, start, checked, counted, tripping, done, micro, Action, step, trip_by_hand, step_at,
  interleave,
}

-- What the threads have done and have before them.
pub record Tally : Type 0 where
  -- threads between the two limits, and threads that were accepted
  pub waiting : ℕ
  pub taken : ℕ
  -- cents of the accepted orders
  pub spent : ℕ
  -- orders not yet counted, and cents not yet counted
  pub orders_ahead : ℕ
  pub cents_ahead : ℕ

abbrev pub add : Tally → Tally → Tally
add t u = record {
  waiting = t.waiting + u.waiting;
  taken = t.taken + u.taken;
  spent = t.spent + u.spent;
  orders_ahead = t.orders_ahead + u.orders_ahead;
  cents_ahead = t.cents_ahead + u.cents_ahead;
}

abbrev tally5 : ℕ → ℕ → ℕ → ℕ → ℕ → Tally
tally5 p a s o c = record { waiting = p; taken = a; spent = s; orders_ahead = o; cents_ahead = c }

abbrev pub tally_of : Pc → Tally
tally_of (start cents) = tally5 0 0 0 1 cents
tally_of (checked cents) = tally5 0 0 0 1 cents
tally_of (counted cents) = tally5 1 0 0 0 cents
tally_of (tripping cents reason) = tally5 0 0 0 0 0
tally_of (done cents accepted) = tally5 0 1 cents 0 0
tally_of (done cents (refused reason)) = tally5 0 0 0 0 0

abbrev pub tally : List Pc → Tally
tally [] = tally5 0 0 0 0 0
tally (pc ∷ pcs) = add (tally_of pc) (tally pcs)

-- The invariant, over the counts at the start and the limits.
record Inv (o u max_o max_u : ℕ) (b : CircuitBreaker) (t : Tally) : Type 0 where
  orders_fit : b.orders_fired + t.orders_ahead < 2 ^ 64
  cents_fit : b.usd_committed_cents + t.cents_ahead < 2 ^ 64
  orders_counted : o + t.waiting + t.taken ≤ b.orders_fired
  cents_counted : u + t.spent ≤ b.usd_committed_cents
  order_limit : 0 < t.waiting + t.taken → o + t.waiting + t.taken ≤ max_o
  usd_limit : 0 < t.taken → u + t.spent ≤ max_u
  same_max_orders : b.max_orders ≡ max_o
  same_max_usd : b.max_usd_cents ≡ max_u

module _ (o u max_o max_u : ℕ) where
  micro-Inv :
      (b : CircuitBreaker) (pc : Pc) (r : Tally)
      → Inv o u max_o max_u b (add r (tally_of pc))
      → Inv o u max_o max_u (micro b pc).0 (add r (tally_of (micro b pc).1))
  unfolding micro
  micro-Inv b (start cents) r h = ground arith
  micro-Inv b (checked cents) r h = ground arith
  micro-Inv b (counted cents) r h = ground arith
  micro-Inv b (tripping cents reason) r h = ground arith
  micro-Inv b (done cents verdict) r h = h

  step_at-Inv :
      (i : ℕ) (b : CircuitBreaker) (pcs : List Pc) (r : Tally)
      → Inv o u max_o max_u b (add r (tally pcs))
      → Inv o u max_o max_u (step_at i b pcs).0 (add r (tally (step_at i b pcs).1))
  unfolding step_at
  step_at-Inv i b [] r h = h
  step_at-Inv zero b (pc ∷ pcs) r h = ground (arith, micro-Inv b pc (add r (tally pcs)))
  step_at-Inv (suc i) b (pc ∷ pcs) r h = ground (arith, step_at-Inv i b pcs (add r (tally_of pc)))

  interleave-Inv :
      (actions : List Action) (b : CircuitBreaker) (pcs : List Pc)
      → Inv o u max_o max_u b (tally pcs)
      → Inv o u max_o max_u (interleave actions b pcs).0 (tally (interleave actions b pcs).1)
  unfolding interleave
  interleave-Inv [] b pcs h = h
  interleave-Inv (step i ∷ rest) b pcs h =
      let (b', pcs') = step_at i b pcs in
      interleave-Inv rest b' pcs' (ground (arith, step_at-Inv i b pcs (tally5 0 0 0 0 0)))
  interleave-Inv (trip_by_hand ∷ rest) b pcs h = interleave-Inv rest (trip b) pcs (ground arith)

-- Calls that have not begun, for orders of these cents.
abbrev pub calls : List ℕ → List Pc
calls = map start

abbrev pub sum : List ℕ → ℕ
sum [] = 0
sum (c ∷ cs) = c + sum cs

fresh-tally : (cents : List ℕ) → tally (calls cents) ≡ tally5 0 0 0 (length cents) (sum cents)
fresh-tally [] = refl
fresh-tally (c ∷ cs) = ground (arith, fresh-tally cs)

-- However the calls of any number of threads interleave, with each other and with trips by hand, the
-- orders accepted never exceed either limit, counted from the initial counts: provided that the
-- counters cannot wrap, that is, all orders and all cents together fit a `u64`.
pub interleave-limits :
    (b : CircuitBreaker) (cents : List ℕ) (actions : List Action)
    → b.orders_fired + length cents < 2 ^ 64
    → b.usd_committed_cents + sum cents < 2 ^ 64
    → let t = tally (interleave actions b (calls cents)).1 in
      (t.taken ≡ 0)
      ⊎ ((b.orders_fired + t.taken ≤ b.max_orders)
          × (b.usd_committed_cents + t.spent ≤ b.max_usd_cents))
interleave-limits b cents actions h k =
    let inv =
      interleave-Inv b.orders_fired b.usd_committed_cents b.max_orders b.max_usd_cents actions b
        (calls cents) (ground (arith, fresh-tally cents)) in
    ground (arith, inv)

-- A call that has not passed the first check, or that was refused.
abbrev pub is_outside : Pc → Bool
is_outside (start cents) = true
is_outside (done cents (refused reason)) = true
is_outside _ = false

micro-latched :
    (b : CircuitBreaker) (pc : Pc)
    → b.tripped ≡ true
    → is_outside pc ≡ true
    → ((micro b pc).0 ≡ b) × (is_outside (micro b pc).1 ≡ true)
unfolding micro
micro-latched b (start cents) h k = ground arith
micro-latched b (checked cents) h k = cc
micro-latched b (counted cents) h k = cc
micro-latched b (tripping cents reason) h k = cc
micro-latched b (done cents verdict) h k = (refl, k)

step_at-latched :
    (i : ℕ) (b : CircuitBreaker) (pcs : List Pc)
    → b.tripped ≡ true
    → All (λ pc. is_outside pc ≡ true) pcs
    → ((step_at i b pcs).0 ≡ b) × All (λ pc. is_outside pc ≡ true) (step_at i b pcs).1
unfolding step_at
step_at-latched i b [] h k = (refl, tt)
step_at-latched zero b (pc ∷ pcs) h k = let one = micro-latched b pc h k.0 in (one.0, (one.1, k.1))
step_at-latched (suc i) b (pc ∷ pcs) h k =
    let rest = step_at-latched i b pcs h k.1 in (rest.0, (k.0, rest.1))

-- The breaker latches: calls that begin after it has tripped are all refused, in every interleaving,
-- and change none of its counts.
pub interleave-latched :
    (actions : List Action) (b : CircuitBreaker) (pcs : List Pc)
    → b.tripped ≡ true
    → All (λ pc. is_outside pc ≡ true) pcs
    → let (b', pcs') = interleave actions b pcs in (b' ≡ b) × All (λ pc. is_outside pc ≡ true) pcs'
unfolding interleave
interleave-latched [] b pcs h k = (refl, k)
interleave-latched (step i ∷ rest) b pcs h k =
    let one = step_at-latched i b pcs h k in
    let more =
      interleave-latched rest (step_at i b pcs).0 (step_at i b pcs).1 (ground (arith, one.0))
        one.1 in
    (more.0 ∙ one.0, more.1)
interleave-latched (trip_by_hand ∷ rest) b pcs h k =
    let same : trip b ≡ b = ground arith in
    let more = interleave-latched rest (trip b) pcs refl k in (more.0 ∙ same, more.1)

-- Where the committed cents can wrap, an order of the largest representable size is accepted: the sum
-- comes out one cent below what was committed before.
pub largest_order-accepted :
    (b : CircuitBreaker) (cents : ℕ)
    → b.tripped ≡ false
    → b.orders_fired < b.max_orders
    → b.max_orders < 2 ^ 64
    → 0 < b.usd_committed_cents
    → b.usd_committed_cents ≤ b.max_usd_cents
    → b.usd_committed_cents < 2 ^ 64
    → cents ≡ max_u64
    → let (b', verdict) = check_and_record b cents in
      (verdict ≡ accepted) × (b'.usd_committed_cents + 1 ≡ b.usd_committed_cents)
unfolding check_and_record
largest_order-accepted b cents t o m p u w e = ground arith
