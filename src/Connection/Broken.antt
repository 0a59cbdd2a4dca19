-- ===== src/Connection/Broken.antt =====
-- A connection of crates/rtt-core/src/connection.rs that has failed is replaced before it is used again.
use rtt.Prelude.{
  ℕ, ◌%◌, ◌<◌, ◌≡◌, ◌⊎◌, refl, ap, subst, ◌∙◌, ◌==◌, true, false, some, length, get_elem?, Result,
  ok, err, arith, Option-cases, Bool-cases, inl, inr,
}
use rtt.Order.{Text}
use rtt.ClobExecutor.{ConnectionError}
use rtt.Connection.{
  H2Connection, ConnectionPool, set_at, Done, reconnect_at, acquire, report_failure, ensure_healthy,
  at_index, send_start, collect_response,
}
use rtt.Connection.Pool.{get-set_at, present-lt, turned, collect-lem}

module _ {S : Type 0} where
  -- What is at an index after a failed response: a new connection, or the old one, marked.
  broken_at :
      (pool : ConnectionPool S) (index : ℕ) (error : Text) (redialled : Result ConnectionError S)
      → index < length pool.connections
      → let after = (collect_response pool index (err error) redialled).1 in
        (c : H2Connection S) × (get_elem? after.connections index ≡ some c)
        × ((redialled ≡ ok c.sender) ⊎ (c.healthy ≡ false))
  unfolding collect_response report_failure reconnect_at
  broken_at pool index error redialled h = elim (Option-cases (get_elem? pool.connections index)) [
    | inl e ↦ ground (arith, e, present-lt index pool.connections h)
    | inr (c, e) ↦ go c e redialled
  ]
    where
      go :
          (c : H2Connection S)
          → get_elem? pool.connections index ≡ some c
          → (redialled : Result ConnectionError S)
          → let after = (collect_response pool index (err error) redialled).1 in
            (c : H2Connection S) × (get_elem? after.connections index ≡ some c)
            × ((redialled ≡ ok c.sender) ⊎ (c.healthy ≡ false))
      go c e (err refused) =
          let marked_c : H2Connection S = record c { healthy = false } in
          (marked_c, ground (arith, e, get-set_at index marked_c pool.connections), inr refl)
      go c e (ok sender) =
          let marked_c : H2Connection S = record c { healthy = false } in
          let fresh : H2Connection S = record { sender = sender; healthy = true } in
          (
            fresh,
            ground (
              arith,
              e,
              get-set_at index marked_c pool.connections,
              get-set_at index fresh (set_at index marked_c pool.connections),
            ),
            inl refl,
          )

  ensured_sender :
      (pool : ConnectionPool S) (index : ℕ) (c0 c : H2Connection S)
      (dialled : Result ConnectionError S)
      → get_elem? pool.connections index ≡ some c0
      → (ensure_healthy pool index dialled).0 ≡ ok tt
      → get_elem? (ensure_healthy pool index dialled).1.connections index ≡ some c
      → ((c0 ≡ c) × (c0.healthy ≡ true)) ⊎ (dialled ≡ ok c.sender)
  unfolding ensure_healthy reconnect_at
  ensured_sender pool index c0 c (err refused) a d e = elim (Bool-cases c0.healthy) [
    | inl up ↦ inl (ground (arith, a, up, d, e), up)
    | inr down ↦ ground (arith, a, down, d, e)
  ]
  ensured_sender pool index c0 c (ok sender) a d e = elim (Bool-cases c0.healthy) [
    | inl up ↦ inl (ground (arith, a, up, d, e), up)
    | inr down ↦
        let fresh : H2Connection S = record { sender = sender; healthy = true } in
        let here = get-set_at index fresh pool.connections in
        inr (ground (arith, a, down, d, e, here))
  ]

  send_start-turn :
      (pool : ConnectionPool S) (index : ℕ) (dialled : Result ConnectionError S)
      → 0 < length pool.connections
      → pool.next_index % length pool.connections ≡ index
      → send_start pool dialled ≡ at_index index (ensure_healthy (turned pool) index dialled)
  unfolding send_start acquire
  send_start-turn pool index dialled h turn =
      let some_there : (length pool.connections == 0) ≡ false = ground arith in
      rw (some_there, turn) refl

  at_index-ok :
      (index : ℕ) (r : Done × ConnectionPool S)
      → ((at_index index r).0 ≡ ok index → r.0 ≡ ok tt) × ((at_index index r).1 ≡ r.1)
  at_index-ok index (ok done, pool) = (λ e. refl, refl)
  at_index-ok index (err error, pool) = (λ e. ground (arith, e), refl)

-- After a response that fails, the next request that starts on its connection is written to a sender that
-- was dialled since: right after the failure, or, if that dialling failed, before the request.
pub failed_sender_replaced :
    {S : Type 0} (pool : ConnectionPool S) (index : ℕ) (error : Text)
    (redialled dialled : Result ConnectionError S) (c : H2Connection S)
    → index < length pool.connections
    → pool.next_index % length pool.connections ≡ index
    → (send_start (collect_response pool index (err error) redialled).1 dialled).0 ≡ ok index
    → get_elem?
        (send_start (collect_response pool index (err error) redialled).1 dialled).1.connections
        index
      ≡ some c
    → (redialled ≡ ok c.sender) ⊎ (dialled ≡ ok c.sender)
failed_sender_replaced {S = S} pool index error redialled dialled c h turn started here =
    let broken = (collect_response pool index (err error) redialled).1 in
    let kept = collect-lem pool index (err error) redialled in
    let (c0, at0, replaced) = broken_at pool index error redialled h in
    let left = ensure_healthy (turned broken) index dialled in
    let same_turn : broken.next_index % length broken.connections ≡ index =
      rw (kept.1, kept.0) turn in
    let at = send_start-turn broken index dialled (omega (arith, kept.0)) same_turn in
    let up =
      (at_index-ok index left).0
        (subst (λ (r : Result ConnectionError ℕ × ConnectionPool S). r.0 ≡ ok index) at started) in
    let settled : (send_start broken dialled).1 ≡ left.1 =
      ap (λ (r : Result ConnectionError ℕ × ConnectionPool S). r.1) at
      ∙ (at_index-ok index left).1 in
    let found : get_elem? left.1.connections index ≡ some c =
      subst (λ (p : ConnectionPool S). get_elem? p.connections index ≡ some c) settled here in
    elim (ensured_sender (turned broken) index c0 c dialled at0 up found) [
      | inr e ↦ inr e
      | inl (e, healthy) ↦ elim replaced [
        | inl d ↦ inl (d ∙ ap (λ (c : H2Connection S). ok c.sender) e)
        | inr down ↦ ground (arith, healthy, down)
      ]
    ]
