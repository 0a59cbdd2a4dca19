-- ===== src/Connection/Pool.antt =====
-- The pool of crates/rtt-core/src/connection.rs: its round robin, and that a request is written only to a
-- connection that is not known to be broken.
use native.Mathlib.Nat.{mod-lt}
use rtt.Prelude.{
  ◌⊎◌, ℕ, zero, suc, ◌+◌, ◌%◌, ◌≤◌, ◌<◌, ◌≡◌, refl, ap, subst, ◌∙◌, ◌==◌, true, false, none, some,
  List, [], ◌∷◌, length, get_elem?, if◌then◌else◌, Result, ok, err, max_u64, arith, Option-cases,
  Bool-cases, inl, inr,
}
use rtt.Order.{Text}
use rtt.Safety.{wrap_u64}
use rtt.ClobExecutor.{ConnectionError, reconnect}
use rtt.Connection.{
  display_error, H2Connection, ConnectionPool, set_at, present, reconnect_at, acquire,
  report_failure, is_healthy, ensure_healthy, at_index, send_start, collect_response,
}

module _ {A : Type 0} where
  length-set_at : (i : ℕ) (a : A) (xs : List A) → length (set_at i a xs) ≡ length xs
  length-set_at i a [] = refl
  length-set_at zero a (x ∷ xs) = refl
  length-set_at (suc i) a (x ∷ xs) = ap suc (length-set_at i a xs)

  pub get-set_at :
      (i : ℕ) (a : A) (xs : List A)
      → get_elem? (set_at i a xs) i ≡ (if present (get_elem? xs i) then some a else none)
  get-set_at zero a [] = refl
  get-set_at (suc i) a [] = refl
  get-set_at zero a (x ∷ xs) = refl
  get-set_at (suc i) a (x ∷ xs) = get-set_at i a xs

  pub present-lt : (i : ℕ) (xs : List A) → i < length xs → present (get_elem? xs i) ≡ true
  present-lt i [] h = elim h [ ]
  present-lt zero (x ∷ xs) h = refl
  present-lt (suc i) (x ∷ xs) h = present-lt i xs (omega arith)

module _ {S : Type 0} where
  -- A request whose turn is an index. If it starts, it is written to a healthy connection at that index,
  -- which was there and healthy before, or whose sender was just dialled in the place of one that was known
  -- to be broken. If it does not, the connection was known to be broken, dialling failed, and the
  -- connections are as they were.
  abbrev pub Turn :
      ℕ
      → ConnectionPool S
      → Result ConnectionError S
      → Result ConnectionError ℕ × ConnectionPool S
      → Type 0
  Turn index before dialled (ok i, after) =
      (i ≡ index)
      × ((c : H2Connection S) × (get_elem? after.connections i ≡ some c)
          × (c.healthy ≡ true)
          × ((get_elem? before.connections i ≡ some c)
              ⊎ ((dialled ≡ ok c.sender)
                  × ((broken : H2Connection S) × (get_elem? before.connections i ≡ some broken)
                      × (broken.healthy ≡ false)))))
  Turn index before dialled (err error, after) =
      ((broken : H2Connection S) × (get_elem? before.connections index ≡ some broken)
        × (broken.healthy ≡ false))
      × ((e : ConnectionError) × (dialled ≡ err e) × (error ≡ reconnect index (display_error e)))
      × (after.connections ≡ before.connections)

  -- What a request leaves.
  abbrev StartsAt :
      ConnectionPool S
      → ℕ
      → Result ConnectionError S
      → Result ConnectionError ℕ × ConnectionPool S
      → Type 0
  StartsAt pool index dialled r =
      (length r.1.connections ≡ length pool.connections)
      × (r.1.next_index ≡ pool.next_index)
      × Turn index pool dialled r

  reconnect_at-StartsAt :
      (pool : ConnectionPool S) (index : ℕ) (dialled : Result ConnectionError S)
      (broken : H2Connection S)
      → get_elem? pool.connections index ≡ some broken
      → broken.healthy ≡ false
      → StartsAt pool index dialled (at_index index (reconnect_at pool index dialled))
  unfolding reconnect_at
  reconnect_at-StartsAt pool index (err error) broken at down =
      (refl, refl, ((broken, at, down), (error, refl, refl), refl))
  reconnect_at-StartsAt pool index (ok sender) broken at down =
      let fresh : H2Connection S = record { sender = sender; healthy = true } in
      let there : present (get_elem? pool.connections index) ≡ true = rw at refl in
      let set : get_elem? (set_at index fresh pool.connections) index ≡ some fresh =
        get-set_at index fresh pool.connections ∙ (rw there refl) in
      rw there (
        length-set_at index fresh pool.connections,
        refl,
        (refl, (fresh, set, refl, inr (refl, (broken, at, down)))),
      )

  report_failure-lem :
      (pool : ConnectionPool S) (index : ℕ) (dialled : Result ConnectionError S)
      → let after = (report_failure pool index dialled).1 in
        (length after.connections ≡ length pool.connections) × (after.next_index ≡ pool.next_index)
  unfolding report_failure reconnect_at
  report_failure-lem pool index (err error) =
      elim (Option-cases (get_elem? pool.connections index)) [
        | inl e ↦ rw e (refl, refl)
        | inr (c, e) ↦
            rw e (length-set_at index (record c { healthy = false }) pool.connections, refl)
      ]
  report_failure-lem pool index (ok sender) =
      elim (Option-cases (get_elem? pool.connections index)) [
        | inl e ↦ rw e (refl, refl)
        | inr (c, e) ↦
            let broken = record c { healthy = false } in
            let fresh : H2Connection S = record { sender = sender; healthy = true } in
            ground (
              arith,
              e,
              length-set_at index broken pool.connections,
              length-set_at index fresh (set_at index broken pool.connections),
            )
      ]

  ensure_healthy-StartsAt :
      (pool : ConnectionPool S) (index : ℕ) (dialled : Result ConnectionError S)
      → index < length pool.connections
      → StartsAt pool index dialled (at_index index (ensure_healthy pool index dialled))
  unfolding ensure_healthy
  ensure_healthy-StartsAt pool index dialled h =
      elim (Option-cases (get_elem? pool.connections index)) [
        | inl e ↦ ground (arith, e, present-lt index pool.connections h)
        | inr (c, e) ↦ elim (Bool-cases c.healthy) [
          | inl up ↦
              let healthy : is_healthy (get_elem? pool.connections index) ≡ true =
                ap is_healthy e ∙ up in
              rw healthy (refl, refl, (refl, (c, e, up, inl e)))
          | inr down ↦
              let broken : is_healthy (get_elem? pool.connections index) ≡ false =
                ap is_healthy e ∙ down in
              rw broken (reconnect_at-StartsAt pool index dialled c e down)
        ]
      ]

  abbrev pub turned : ConnectionPool S → ConnectionPool S
  turned pool = record pool { next_index = wrap_u64 (pool.next_index + 1) }

  send_start-StartsAt :
      (pool : ConnectionPool S) (dialled : Result ConnectionError S)
      → 0 < length pool.connections
      → StartsAt
          (turned pool)
          (pool.next_index % length pool.connections)
          dialled
          (send_start pool dialled)
  unfolding send_start acquire
  send_start-StartsAt pool dialled h =
      let some_there : (length pool.connections == 0) ≡ false = ground arith in
      rw some_there (
        ensure_healthy-StartsAt (turned pool) (pool.next_index % length pool.connections) dialled
          (mod-lt pool.next_index h))

-- A request that is started, with what dialling finds if it is called, or a response that is collected.
pub data PoolCall (S : Type 0) : Type 0 where
  starting : Result ConnectionError S → PoolCall S
  collecting : ℕ → Result Text Text → Result ConnectionError S → PoolCall S

-- A request: the pool before it, what dialling finds, what `send_start` gives, and the pool after it.
pub record PoolStart (S : Type 0) : Type 0 where
  pub before : ConnectionPool S
  pub dialled : Result ConnectionError S
  pub given : Result ConnectionError ℕ
  pub after : ConnectionPool S

module _ {S : Type 0} where
  -- The requests of some calls.
  abbrev pub starts : List (PoolCall S) → ConnectionPool S → List (PoolStart S)
  starts [] pool = []
  starts (starting dialled ∷ calls) pool =
      let (started, after) = send_start pool dialled in
      record { before = pool; dialled = dialled; given = started; after = after }
      ∷ starts calls after
  starts (collecting index response dialled ∷ calls) pool =
      starts calls (collect_response pool index response dialled).1

  -- Request by request: it is the turn of the next connection.
  abbrev pub TakesTurns : ℕ → ℕ → List (PoolStart S) → Type 0
  TakesTurns n turn [] = Unit
  TakesTurns n turn (r ∷ rest) =
      Turn (turn % n) r.before r.dialled (r.given, r.after) × TakesTurns n (suc turn) rest

  pub collect-lem :
      (pool : ConnectionPool S) (index : ℕ) (response : Result Text Text)
      (dialled : Result ConnectionError S)
      → let after = (collect_response pool index response dialled).1 in
        (length after.connections ≡ length pool.connections) × (after.next_index ≡ pool.next_index)
  unfolding collect_response
  collect-lem pool index (ok body) dialled = (refl, refl)
  collect-lem pool index (err error) dialled = report_failure-lem pool index dialled

  starts-turns :
      (n turn : ℕ) (calls : List (PoolCall S)) (pool : ConnectionPool S)
      → 0 < n
      → length pool.connections ≡ n
      → pool.next_index ≡ turn
      → turn + length calls ≤ max_u64
      → TakesTurns n turn (starts calls pool)
  starts-turns n turn [] pool h k t m = tt
  starts-turns n turn (starting dialled ∷ calls) pool h k t m =
      let at : pool.next_index % length pool.connections ≡ turn % n = rw (k, t) refl in
      let started =
        subst (λ (i : ℕ). StartsAt (turned pool) i dialled (send_start pool dialled)) at
          (send_start-StartsAt pool dialled (omega arith)) in
      let rest =
        starts-turns n (suc turn) calls (send_start pool dialled).1 h (started.0 ∙ k)
          (started.1 ∙ omega arith) (omega arith) in
      (started.2, rest)
  starts-turns n turn (collecting index response dialled ∷ calls) pool h k t m =
      let kept = collect-lem pool index response dialled in
      starts-turns n turn calls (collect_response pool index response dialled).1 h (kept.0 ∙ k)
        (kept.1 ∙ t) (omega arith)

-- Whatever the calls on a pool that has connections, failures included, each request goes to the next
-- connection in turn. When it starts, that connection is healthy: it was before, or it was known to be broken
-- and is replaced by one with the sender that was just dialled. When it does not start, the connection was
-- known to be broken, dialling failed with the error that the request ends in, and the connections are as
-- they were. The counter of the turns does not wrap around within the calls.
pub starts-TakesTurns :
    {S : Type 0} (calls : List (PoolCall S)) (pool : ConnectionPool S)
    → 0 < length pool.connections
    → pool.next_index + length calls ≤ max_u64
    → TakesTurns (length pool.connections) pool.next_index (starts calls pool)
starts-TakesTurns calls pool h m =
    starts-turns (length pool.connections) pool.next_index calls pool h refl refl m
