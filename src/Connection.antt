-- ===== src/Connection.antt =====
-- crates/rtt-core/src/connection.rs: the pool of warm connections. Resolving, dialling, writing and
-- reading are the network's: an operation is given what each of them finds, and calls come one at a time.
pub mod Pool
pub mod Broken
use rtt.Prelude.{
  ℕ, zero, suc, ◌+◌, ◌%◌, ◌==◌, Bool, true, false, Option, none, some, List, [], ◌∷◌, ◌++◌, length,
  get_elem?, if◌then◌else◌, keep, Result, ok, err, unwrap_or,
}
use rtt.Order.{Text, text}
use rtt.Decimal.{to_decimal}
use rtt.Safety.{wrap_u64}
use rtt.ClobExecutor.{ConnectionError, pool_empty, resolve, connect, collect, reconnect}

pub data AddressFamily : Type 0 where
  auto v4 v6 : AddressFamily

pub record ConnectionHealth : Type 0 where
  pub index : ℕ
  pub healthy : Bool
  pub last_error : Option Text

abbrev pub connection_index : ConnectionError → Option ℕ
connection_index (collect index error) = some index
connection_index (reconnect index error) = some index
connection_index _ = none

-- `to_string`.
unfoldable pub display_error : ConnectionError → Text
display_error pool_empty = text "connection pool is empty"
display_error (resolve error) = text "failed to resolve host: " ++ error
display_error (connect (some address) error) =
    text "failed to establish H2 connection to " ++ address ++ text ": " ++ error
display_error (connect none error) = text "failed to establish H2 connection: " ++ error
display_error (collect index error) =
    text "failed while collecting response on connection " ++ to_decimal index ++ text ": " ++ error
display_error (reconnect index error) =
    text "failed to reconnect connection " ++ to_decimal index ++ text ": " ++ error

abbrev later_dash : ℕ → Text → Option Text → Option Text
later_dash c s (some code) = some code
later_dash c s none = if c == b'-' then some s else none

-- What follows the last `-`, if there is one: `rfind`.
abbrev after_dash : Text → Option Text
after_dash [] = none
after_dash (c ∷ s) = later_dash c s (after_dash s)

unfoldable pub extract_pop : Text → Text
extract_pop cf_ray = unwrap_or (after_dash cf_ray) []

-- The family of a resolved address.
pub data Address : Type 0 where
  ipv4 ipv6 : Text → Address

abbrev pub of_family : AddressFamily → Address → Bool
of_family auto address = true
of_family v4 (ipv4 address) = true
of_family v4 (ipv6 address) = false
of_family v6 (ipv4 address) = false
of_family v6 (ipv6 address) = true

abbrev nonempty : List Address → Result Text (List Address)
nonempty [] = err (text "no addresses found for requested family")
nonempty (address ∷ addresses) = ok (address ∷ addresses)

-- `resolve`, once the system has looked the host up.
unfoldable pub resolve_host :
    Result Text (List Address) → AddressFamily → Result Text (List Address)
resolve_host (err error) family = err error
resolve_host (ok addresses) family = nonempty (keep (of_family family) addresses)

abbrev all_failed : Option ConnectionError → ConnectionError
all_failed last_error = unwrap_or last_error (connect none (text "all resolved addresses failed"))

module _ {S : Type 0} (dial : Address → Result ConnectionError S) where
  -- The first address that answers.
  abbrev pub first_answer : List Address → Option ConnectionError → Result ConnectionError S
  first_answer [] last_error = err (all_failed last_error)
  first_answer (address ∷ addresses) last_error = elim (dial address) [
    | ok sender ↦ ok sender
    | err error ↦ first_answer addresses (some error)
  ]

  abbrev dial_resolved : Result Text (List Address) → Result ConnectionError S
  dial_resolved (err error) = err (resolve error)
  dial_resolved (ok addresses) = first_answer addresses none

  unfoldable pub connect_h2 : Result Text (List Address) → AddressFamily → Result ConnectionError S
  connect_h2 looked_up family = dial_resolved (resolve_host looked_up family)

pub record H2Connection (S : Type 0) : Type 0 where
  pub sender : S
  pub healthy : Bool

-- The host, the port and the family, which only dialling reads, are left out.
pub record ConnectionPool (S : Type 0) : Type 0 where
  pub connections : List (H2Connection S)
  pub next_index : ℕ

abbrev pub set_at : {A : Type 0} → ℕ → A → List A → List A
set_at i a [] = []
set_at zero a (x ∷ xs) = a ∷ xs
set_at (suc i) a (x ∷ xs) = x ∷ set_at i a xs

abbrev out_of_range : ℕ → ConnectionError
out_of_range index = reconnect index (text "connection index out of range")

-- Whether there is an entry.
abbrev pub present : {A : Type 0} → Option A → Bool
present none = false
present (some a) = true

-- What an operation that gives no value, and a probe of a connection, end in.
abbrev pub Done : Type 0
Done = Result ConnectionError (Unit {0})

abbrev pub Probe : Type 0
Probe = Result Text (Unit {0})

abbrev with_index : ℕ → Result ConnectionError Text → Result ConnectionError (Text × ℕ)
with_index index (ok body) = ok (body, index)
with_index index (err error) = err error

module _ {S : Type 0} where
  abbrev put_connection : ConnectionPool S → ℕ → H2Connection S → ConnectionPool S
  put_connection pool index connection = record pool {
    connections = set_at index connection pool.connections;
  }

  -- The three outcomes of `reconnect`, with what dialling found.
  unfoldable pub reconnect_at :
      ConnectionPool S → ℕ → Result ConnectionError S → Done × ConnectionPool S
  reconnect_at pool index (err error) = (err (reconnect index (display_error error)), pool)
  reconnect_at pool index (ok sender) =
      if present (get_elem? pool.connections index)
      then (ok tt, put_connection pool index (record { sender = sender; healthy = true }))
      else (err (out_of_range index), pool)

  unfoldable pub acquire : ConnectionPool S → Result ConnectionError ℕ × ConnectionPool S
  acquire pool = if length pool.connections == 0 then (err pool_empty, pool) else (
    ok (pool.next_index % length pool.connections),
    record pool { next_index = wrap_u64 (pool.next_index + 1) },
  )

  abbrev marked : Option (H2Connection S) → ConnectionPool S → ℕ → ConnectionPool S
  marked none pool index = pool
  marked (some connection) pool index =
      put_connection pool index (record connection { healthy = false })

  unfoldable pub report_failure :
      ConnectionPool S → ℕ → Result ConnectionError S → Done × ConnectionPool S
  report_failure pool index dialled =
      let found = get_elem? pool.connections index in
      if present found
      then reconnect_at (marked found pool index) index dialled
      else (err (out_of_range index), pool)

  abbrev is_healthy : Option (H2Connection S) → Bool
  is_healthy none = false
  is_healthy (some connection) = connection.healthy

  unfoldable pub ensure_healthy :
      ConnectionPool S → ℕ → Result ConnectionError S → Done × ConnectionPool S
  ensure_healthy pool index dialled =
      if is_healthy (get_elem? pool.connections index)
      then (ok tt, pool)
      else reconnect_at pool index dialled

  abbrev at_index : ℕ → Done × ConnectionPool S → Result ConnectionError ℕ × ConnectionPool S
  at_index index (ok done, pool) = (ok index, pool)
  at_index index (err error, pool) = (err error, pool)

  abbrev healthy_start :
      Result ConnectionError S
      → Result ConnectionError ℕ × ConnectionPool S
      → Result ConnectionError ℕ × ConnectionPool S
  healthy_start dialled (ok index, pool) = at_index index (ensure_healthy pool index dialled)
  healthy_start dialled (err error, pool) = (err error, pool)

  -- The index of the connection that the request is written to.
  unfoldable pub send_start :
      ConnectionPool S → Result ConnectionError S → Result ConnectionError ℕ × ConnectionPool S
  send_start pool dialled = healthy_start dialled (acquire pool)

  -- `collect`, with the body or the error that reading ends in.
  unfoldable pub collect_response :
      ConnectionPool S
      → ℕ
      → Result Text Text
      → Result ConnectionError S
      → Result ConnectionError Text × ConnectionPool S
  collect_response pool index (ok body) dialled = (ok body, pool)
  collect_response pool index (err error) dialled =
      (err (collect index error), (report_failure pool index dialled).1)

  abbrev sent_on :
      Result Text Text
      → Result ConnectionError S
      → Result ConnectionError ℕ × ConnectionPool S
      → Result ConnectionError (Text × ℕ) × ConnectionPool S
  sent_on response dialled (err error, pool) = (err error, pool)
  sent_on response dialled (ok index, pool) =
      let (collected, after) = collect_response pool index response dialled in
      (with_index index collected, after)

  unfoldable pub send :
      ConnectionPool S
      → Result ConnectionError S
      → Result Text Text
      → Result ConnectionError S
      → Result ConnectionError (Text × ℕ) × ConnectionPool S
  send pool dialled response redialled = sent_on response redialled (send_start pool dialled)

  abbrev healed : Option (H2Connection S) → ConnectionPool S → ℕ → ConnectionPool S
  healed none pool index = pool
  healed (some connection) pool index =
      put_connection pool index (record connection { healthy = true })

  -- One connection of a health check: what the probe finds, and what dialling finds if it fails.
  unfoldable pub probe :
      ConnectionPool S → ℕ → Probe × Result ConnectionError S → ConnectionHealth × ConnectionPool S
  probe pool index (ok done, dialled) = (
    record { index = index; healthy = true; last_error = none },
    healed (get_elem? pool.connections index) pool index,
  )
  probe pool index (err error, dialled) = (
    record { index = index; healthy = false; last_error = some error },
    (reconnect_at (marked (get_elem? pool.connections index) pool index) index dialled).1,
  )

  -- The loop over the connections, from an index on.
  unfoldable pub health_check_detailed :
      ConnectionPool S
      → ℕ
      → List (Probe × Result ConnectionError S)
      → List ConnectionHealth × ConnectionPool S
  health_check_detailed pool index [] = ([], pool)
  health_check_detailed pool index (found ∷ founds) =
      let (status, next) = probe pool index found in
      let (statuses, after) = health_check_detailed next (suc index) founds in
      (status ∷ statuses, after)

  unfoldable pub health_check :
      ConnectionPool S → List (Probe × Result ConnectionError S) → ℕ × ConnectionPool S
  health_check pool founds =
      let (statuses, after) = health_check_detailed pool 0 founds in
      (length (keep (λ status. status.healthy) statuses), after)

  -- The pushes of `warmup`, one for each unit of the capacity, up to the first that fails.
  abbrev warm_all :
      List (Result ConnectionError S) → List (H2Connection S) → Done × List (H2Connection S)
  warm_all [] connections = (ok tt, connections)
  warm_all (err error ∷ dialled) connections = (err error, connections)
  warm_all (ok sender ∷ dialled) connections =
      warm_all dialled (connections ++ record { sender = sender; healthy = true } ∷ [])

  unfoldable pub warmup :
      ConnectionPool S → List (Result ConnectionError S) → Done × ConnectionPool S
  warmup pool dialled =
      let (result, connections) = warm_all dialled [] in
      (result, record pool { connections = connections })
