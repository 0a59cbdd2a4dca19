-- ===== src/OrderState/Observation.antt =====
-- What the exchange's reports, its silence and the clock do to one working quote.
use rtt.Prelude.{ℕ, ◌-◌, ◌≤◌, ◌≡◌, ◌⊎◌, ◌↔◌, Bool, true, false, some, List, [], ◌∷◌, All, arith}
use rtt.OrderState.{
  WorkingQuote, WorkingQuoteState, ExchangeObservedQuote, ExchangeObservedQuoteState,
  apply_exchange_observation, apply_authoritative_absence, mark_unknown_if_timed_out,
  blocks_convergence, is_cancelable,
}

-- What identifies an order and what was last commanded for it.
pub record SameOrder (q r : WorkingQuote) : Type 0 where
  pub quote_id : r.quote_id ≡ q.quote_id
  pub asset_id : r.asset_id ≡ q.asset_id
  pub side : r.side ≡ q.side
  pub price : r.price ≡ q.price
  pub size : r.size ≡ q.size
  pub order_type : r.order_type ≡ q.order_type
  pub created : r.created_at_ms ≡ q.created_at_ms
  pub commanded : r.last_command_ms ≡ q.last_command_ms

-- Reports in the order in which they arrive.
unfoldable pub observe_all : WorkingQuote → List ExchangeObservedQuote → WorkingQuote
observe_all q [] = q
observe_all q (o ∷ os) = observe_all (apply_exchange_observation q o) os

-- The reports that end an order.
abbrev pub is_final : ExchangeObservedQuoteState → Bool
is_final ExchangeObservedQuoteState.canceled = true
is_final (ExchangeObservedQuoteState.rejected reason) = true
is_final _ = false

cancel_sticks_once :
    (q : WorkingQuote) (o : ExchangeObservedQuote)
    → q.state ≡ WorkingQuoteState.pending_cancel
    → is_final o.state ≡ false
    → (apply_exchange_observation q o).state ≡ WorkingQuoteState.pending_cancel
unfolding apply_exchange_observation
cancel_sticks_once q o h f = ground arith

-- Once a cancel is under way, no sequence of reports brings the order back to working: it stays
-- under cancellation until a report that ends it.
pub cancel_sticks :
    (q : WorkingQuote) (os : List ExchangeObservedQuote)
    → q.state ≡ WorkingQuoteState.pending_cancel
    → All (λ o. is_final o.state ≡ false) os
    → (observe_all q os).state ≡ WorkingQuoteState.pending_cancel
unfolding observe_all
cancel_sticks q [] h f = h
cancel_sticks q (o ∷ os) h f =
    cancel_sticks (apply_exchange_observation q o) os (cancel_sticks_once q o h f.0) f.1

-- A quote whose last command is unanswered after its timeout.
abbrev pub IsOverdue : WorkingQuote → ℕ → ℕ → ℕ → Type 0
IsOverdue q submit_ms cancel_ms now =
    (sent : ℕ) × (q.last_command_ms ≡ some sent)
    × (((q.state ≡ WorkingQuoteState.pending_submit) × (submit_ms ≤ now - sent))
        ⊎ ((q.state ≡ WorkingQuoteState.pending_cancel) × (cancel_ms ≤ now - sent)))

timed_out-IsOverdue :
    (q : WorkingQuote) (submit_ms cancel_ms now : ℕ)
    → (mark_unknown_if_timed_out q submit_ms cancel_ms now).1 ≡ true
    → IsOverdue q submit_ms cancel_ms now
unfolding mark_unknown_if_timed_out
timed_out-IsOverdue q submit_ms cancel_ms now h = ground arith

-- The timeout fires exactly for an overdue quote. When it fires the quote is unknown as of now, and
-- otherwise the quote is unchanged.
pub timeout_exact :
    (q : WorkingQuote) (submit_ms cancel_ms now : ℕ)
    → let (r, fired) = mark_unknown_if_timed_out q submit_ms cancel_ms now in
      ((fired ≡ true) ↔ IsOverdue q submit_ms cancel_ms now)
      × (((fired ≡ true) × (blocks_convergence r ≡ true) × (r.last_update_ms ≡ now) × SameOrder q r)
          ⊎ ((fired ≡ false) × (r ≡ q)))
unfolding mark_unknown_if_timed_out blocks_convergence
timeout_exact q submit_ms cancel_ms now =
    ((timed_out-IsOverdue q submit_ms cancel_ms now, λ h. ground arith), ground arith)

-- The exchange's full list without this order, twice in a row, settles it: the order is neither live
-- nor unknown, and neither list asks for another synchronisation the second time.
pub absence_settles :
    (q : WorkingQuote) (t u : ℕ)
    → let (once, asked) = apply_authoritative_absence q t in
      let (twice, asked_again) = apply_authoritative_absence once u in
      (is_cancelable twice ≡ false)
      × (blocks_convergence twice ≡ false)
      × (asked_again ≡ false)
      × ((asked ≡ true)
          ↔ ((q.state ≡ WorkingQuoteState.pending_submit) ⊎ (q.state ≡ WorkingQuoteState.working)))
unfolding apply_authoritative_absence blocks_convergence is_cancelable
absence_settles q t u = ground arith
