-- ===== src/OrderState.antt =====
-- crates/pm-executor/src/order_state.rs: the life of one working quote, as the executor believes it.
-- A method on `&mut self` returns the new record; one that also returns a `bool` returns both.
-- Times are `u64` milliseconds.
pub mod Lifecycle
pub mod Observation
use rtt.Prelude.{ℕ, ◌-◌, Bool, true, false, Option, none, some, leb, if◌then◌else◌, saturating_sub}
use rtt.Order.{Text, text}
use rtt.Trigger.{Side, OrderType}
use rtt.Quote.{QuoteId, DesiredQuote}

pub data WorkingQuoteState : Type 0 where
  pending_submit : WorkingQuoteState
  working : WorkingQuoteState
  pending_cancel : WorkingQuoteState
  canceled : WorkingQuoteState
  rejected : Text → WorkingQuoteState
  unknown_or_stale : Text → WorkingQuoteState

pub data ExchangeObservedQuoteState : Type 0 where
  working : ExchangeObservedQuoteState
  pending_cancel : ExchangeObservedQuoteState
  canceled : ExchangeObservedQuoteState
  rejected : Text → ExchangeObservedQuoteState

pub record ExchangeObservedQuote : Type 0 where
  pub quote_id : QuoteId
  pub client_order_id : Option Text
  pub state : ExchangeObservedQuoteState
  pub observed_at_ms : ℕ

pub record WorkingQuote : Type 0 where
  pub quote_id : QuoteId
  pub asset_id : Text
  pub side : Side
  pub price : Text
  pub size : Text
  pub order_type : OrderType
  pub state : WorkingQuoteState
  pub client_order_id : Option Text
  pub created_at_ms : ℕ
  pub last_update_ms : ℕ
  pub last_command_ms : Option ℕ
  pub last_exchange_observed_ms : Option ℕ

unfoldable pub submit : DesiredQuote → ℕ → WorkingQuote
submit desired now_ms = record {
  quote_id = desired.quote_id;
  asset_id = desired.asset_id;
  side = desired.side;
  price = desired.price;
  size = desired.size;
  order_type = desired.order_type;
  state = WorkingQuoteState.pending_submit;
  client_order_id = none;
  created_at_ms = now_ms;
  last_update_ms = now_ms;
  last_command_ms = some now_ms;
  last_exchange_observed_ms = none;
}

unfoldable pub mark_working : WorkingQuote → Text → ℕ → WorkingQuote
mark_working q client_order_id now_ms = record q {
  state = WorkingQuoteState.working;
  client_order_id = some client_order_id;
  last_update_ms = now_ms;
}

unfoldable pub mark_pending_cancel : WorkingQuote → ℕ → WorkingQuote
mark_pending_cancel q now_ms = record q {
  state = WorkingQuoteState.pending_cancel;
  last_update_ms = now_ms;
  last_command_ms = some now_ms;
}

unfoldable pub mark_canceled : WorkingQuote → ℕ → WorkingQuote
mark_canceled q now_ms = record q { state = WorkingQuoteState.canceled; last_update_ms = now_ms }

unfoldable pub mark_rejected : WorkingQuote → Text → ℕ → WorkingQuote
mark_rejected q reason now_ms = record q {
  state = WorkingQuoteState.rejected reason;
  last_update_ms = now_ms;
}

unfoldable pub mark_unknown_or_stale : WorkingQuote → Text → ℕ → WorkingQuote
mark_unknown_or_stale q reason now_ms = record q {
  state = WorkingQuoteState.unknown_or_stale reason;
  last_update_ms = now_ms;
}

abbrev pub is_unknown : WorkingQuoteState → Bool
is_unknown (WorkingQuoteState.unknown_or_stale reason) = true
is_unknown _ = false

unfoldable pub blocks_convergence : WorkingQuote → Bool
blocks_convergence q = is_unknown q.state

abbrev pub is_live : WorkingQuoteState → Bool
is_live WorkingQuoteState.pending_submit = true
is_live WorkingQuoteState.working = true
is_live WorkingQuoteState.pending_cancel = true
is_live _ = false

unfoldable pub is_cancelable : WorkingQuote → Bool
is_cancelable q = is_live q.state

-- The `match` of `mark_unknown_if_timed_out`, on the state and the time since the last command.
time_out : WorkingQuoteState → ℕ → ℕ → ℕ → ℕ → WorkingQuote → WorkingQuote × Bool
unfolding mark_unknown_or_stale
time_out WorkingQuoteState.pending_submit elapsed_ms submit_timeout_ms cancel_timeout_ms now_ms q =
    if leb submit_timeout_ms elapsed_ms
    then (mark_unknown_or_stale q (text "submit_timeout") now_ms, true)
    else (q, false)
time_out WorkingQuoteState.pending_cancel elapsed_ms submit_timeout_ms cancel_timeout_ms now_ms q =
    if leb cancel_timeout_ms elapsed_ms
    then (mark_unknown_or_stale q (text "cancel_timeout") now_ms, true)
    else (q, false)
time_out _ elapsed_ms submit_timeout_ms cancel_timeout_ms now_ms q = (q, false)

unfoldable pub mark_unknown_if_timed_out : WorkingQuote → ℕ → ℕ → ℕ → WorkingQuote × Bool
unfolding time_out
mark_unknown_if_timed_out q submit_timeout_ms cancel_timeout_ms now_ms = elim q.last_command_ms [
  | none ↦ (q, false)
  | some last_command_ms ↦
      time_out q.state (saturating_sub now_ms last_command_ms) submit_timeout_ms cancel_timeout_ms
        now_ms q
]

unfoldable pub mark_reconnect_stale : WorkingQuote → ℕ → WorkingQuote
unfolding mark_unknown_or_stale
mark_reconnect_stale q now_ms = mark_unknown_or_stale q (text "reconnect_resync_required") now_ms

-- The exchange sees the order resting.
see_working : WorkingQuote → Option Text → ℕ → WorkingQuote
unfolding mark_working
see_working q none now_ms = record q { state = WorkingQuoteState.working; last_update_ms = now_ms }
see_working q (some client_order_id) now_ms = mark_working q client_order_id now_ms

-- The `match` of `apply_exchange_observation`: an order under cancellation stays there until the
-- exchange says more than that it rests.
observe :
    WorkingQuoteState → ExchangeObservedQuoteState → Option Text → ℕ → WorkingQuote → WorkingQuote
unfolding mark_rejected mark_canceled see_working
observe _ (ExchangeObservedQuoteState.rejected reason) client now_ms q =
    mark_rejected q reason now_ms
observe _ ExchangeObservedQuoteState.canceled client now_ms q = mark_canceled q now_ms
observe WorkingQuoteState.pending_cancel ExchangeObservedQuoteState.working client now_ms q =
    record q { last_update_ms = now_ms }
observe _ ExchangeObservedQuoteState.pending_cancel client now_ms q = record q {
  state = WorkingQuoteState.pending_cancel;
  client_order_id = client;
  last_update_ms = now_ms;
}
observe _ ExchangeObservedQuoteState.working client now_ms q = see_working q client now_ms

unfoldable pub apply_exchange_observation : WorkingQuote → ExchangeObservedQuote → WorkingQuote
unfolding observe
apply_exchange_observation q observed =
    let seen = record q { last_exchange_observed_ms = some observed.observed_at_ms } in
    observe seen.state observed.state observed.client_order_id observed.observed_at_ms seen

-- The `match` of `apply_authoritative_absence`.
absent : WorkingQuoteState → ℕ → WorkingQuote → WorkingQuote × Bool
unfolding mark_canceled mark_unknown_or_stale
absent WorkingQuoteState.pending_cancel now_ms q = (mark_canceled q now_ms, false)
absent WorkingQuoteState.canceled now_ms q = (mark_canceled q now_ms, false)
absent (WorkingQuoteState.unknown_or_stale reason) now_ms q = (mark_canceled q now_ms, false)
absent WorkingQuoteState.pending_submit now_ms q =
    (mark_unknown_or_stale q (text "exchange_missing_authoritative") now_ms, true)
absent WorkingQuoteState.working now_ms q =
    (mark_unknown_or_stale q (text "exchange_missing_authoritative") now_ms, true)
absent (WorkingQuoteState.rejected reason) now_ms q = (q, false)

unfoldable pub apply_authoritative_absence : WorkingQuote → ℕ → WorkingQuote × Bool
unfolding absent
apply_authoritative_absence q now_ms = absent q.state now_ms q
