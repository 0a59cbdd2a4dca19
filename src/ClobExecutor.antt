-- ===== src/ClobExecutor.antt =====
-- crates/rtt-core/src/clob_executor.rs: the pool of pre-signed orders, and the two ways to dispatch an
-- order. Of a `TimestampRecord` only `is_reconnect` is kept; the times are measurements. What signs,
-- encodes and sends (clob_signer.rs, clob_request.rs, connection.rs and the crates below them) is a
-- parameter, as a function into a result.
pub mod Pool
use rtt.Prelude.{
  ℕ, ◌+◌, ◌-◌, ◌/◌, Bool, true, false, not, ◌&&◌, Option, none, some, List, [], ◌∷◌, leb, ltb,
  if◌then◌else◌, length, get_elem?, Result, ok, err,
}
use rtt.Order.{Text}
use rtt.Trigger.{TriggerMessage, OrderType}

-- A socket address is its text.
pub data ConnectionError : Type 0 where
  pool_empty : ConnectionError
  resolve : Text → ConnectionError
  connect : Option Text → Text → ConnectionError
  collect : ℕ → Text → ConnectionError
  reconnect : ℕ → Text → ConnectionError

pub data DispatchError : Type 0 where
  pool_exhausted : DispatchError
  build_order : Text → DispatchError
  sign : Text → DispatchError
  request_build : Text → DispatchError
  connection : ConnectionError → DispatchError

pub data DispatchOutcome : Type 0 where
  sent : Text → DispatchOutcome
  rejected : Bool → DispatchError → DispatchOutcome

abbrev pub failure_is_reconnect : ConnectionError → Bool
failure_is_reconnect pool_empty = false
failure_is_reconnect _ = true

-- `ConnectionPool::send_start`, into the index of the connection, and `ConnectionPool::collect`.
pub record Network (Request : Type 0) : Type 0 where
  pub send_start : Request → Result ConnectionError ℕ
  pub collect : ℕ → Result ConnectionError Text

abbrev reply : Result ConnectionError Text → DispatchOutcome
reply (ok body) = sent body
reply (err e) = rejected (failure_is_reconnect e) (connection e)

abbrev started : {Request : Type 0} → Network Request → Result ConnectionError ℕ → DispatchOutcome
started net (ok index) = reply (net.collect index)
started net (err e) = rejected (failure_is_reconnect e) (connection e)

unfoldable pub dispatch_request : {Request : Type 0} → Network Request → Request → DispatchOutcome
dispatch_request net req = started net (net.send_start req)

pub record PreSignedOrderPool : Type 0 where
  pub bodies : List Text
  pub cursor : ℕ

abbrev pub len : PreSignedOrderPool → ℕ
len pool = length pool.bodies

abbrev pub reset_cursor : PreSignedOrderPool → PreSignedOrderPool
reset_cursor pool = record pool { cursor = 0 }

-- The next body, and the pool past it. The index is in range where the cursor is.
unfoldable pub next_body : PreSignedOrderPool → PreSignedOrderPool × Option Text
next_body pool =
    if leb (length pool.bodies) pool.cursor
    then (pool, none)
    else (record pool { cursor = pool.cursor + 1 }, get_elem? pool.bodies pool.cursor)

-- `dispatch`: `build` is `build_order_request_from_bytes` with the credentials and the time.
abbrev pub built : {Request : Type 0} → Result Text Request → Result Text (Option Request)
built (ok req) = ok (some req)
built (err e) = err e

abbrev pub built_from :
    {Request : Type 0} → (Text → Result Text Request) → Option Text → Result Text (Option Request)
built_from build none = ok none
built_from build (some body) = built (build body)

unfoldable pub dispatch :
    {Request : Type 0}
    → (Text → Result Text Request)
    → PreSignedOrderPool
    → PreSignedOrderPool × Result Text (Option Request)
unfolding next_body
dispatch build pool = let (pool', body) = next_body pool in (pool', built_from build body)

abbrev pub dispatched :
    {Request : Type 0} → Network Request → Result Text (Option Request) → DispatchOutcome
dispatched net (ok (some req)) = dispatch_request net req
dispatched net (ok none) = rejected false pool_exhausted
dispatched net (err e) = rejected false (request_build e)

unfoldable pub process_one_clob :
    {Request : Type 0}
    → (Text → Result Text Request)
    → Network Request
    → PreSignedOrderPool
    → PreSignedOrderPool × DispatchOutcome
unfolding dispatch
process_one_clob build net pool =
    let (pool', req) = dispatch build pool in (pool', dispatched net req)

-- What `sign_and_dispatch` calls: `build_order`, `sign_order`, and `SignedOrderPayload::new` with
-- `encode_order_payload`.
pub record Signing (Order Request : Type 0) : Type 0 where
  pub build_order : TriggerMessage → Result Text Order
  pub sign_order : Order → Result Text Text
  pub encode : Order → Text → OrderType → Result Text Text
  pub build_request : Text → Result Text Request

-- The four fallible steps, each with its own rejection.
module _ {Order Request : Type 0} (signing : Signing Order Request) (net : Network Request) where
  abbrev request_step : Result Text Request → DispatchOutcome
  request_step (ok req) = dispatch_request net req
  request_step (err e) = rejected false (request_build e)

  abbrev encode_step : Result Text Text → DispatchOutcome
  encode_step (ok body) = request_step (signing.build_request body)
  encode_step (err e) = rejected false (request_build e)

  abbrev sign_step : Order → OrderType → Result Text Text → DispatchOutcome
  sign_step order order_type (ok sig) = encode_step (signing.encode order sig order_type)
  sign_step order order_type (err e) = rejected false (sign e)

  abbrev order_step : OrderType → Result Text Order → DispatchOutcome
  order_step order_type (ok order) = sign_step order order_type (signing.sign_order order)
  order_step order_type (err e) = rejected false (build_order e)

  unfoldable pub sign_and_dispatch : TriggerMessage → DispatchOutcome
  sign_and_dispatch trigger = order_step trigger.order_type (signing.build_order trigger)
