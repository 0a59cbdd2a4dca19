-- ===== src/OrderState/Lifecycle.antt =====
-- The quotes that the methods of order_state.rs can make out of a new one.
use rtt.Prelude.{ℕ, ◌-◌, ◌≡◌, ◌⊎◌, Bool, true, false, Option, none, some, leb, unwrap_or, arith}
use rtt.Order.{Text}
use rtt.Quote.{DesiredQuote}
use rtt.OrderState.{
  WorkingQuote, WorkingQuoteState, ExchangeObservedQuote, submit, mark_working, mark_pending_cancel,
  mark_canceled, mark_rejected, mark_unknown_or_stale, mark_reconnect_stale,
  mark_unknown_if_timed_out, apply_exchange_observation, apply_authoritative_absence,
  blocks_convergence,
}

-- Every method that changes a quote, called at any time, in any order, with the time of the command that
-- it stands for, if it does.
pub data Step (q : WorkingQuote) : Option ℕ → WorkingQuote → Type 0 where
  acknowledge : (client_order_id : Text) (t : ℕ) → Step q none (mark_working q client_order_id t)
  cancel : (t : ℕ) → Step q (some t) (mark_pending_cancel q t)
  confirm_cancel : (t : ℕ) → Step q none (mark_canceled q t)
  reject : (reason : Text) (t : ℕ) → Step q none (mark_rejected q reason t)
  lose : (reason : Text) (t : ℕ) → Step q none (mark_unknown_or_stale q reason t)
  reconnect : (t : ℕ) → Step q none (mark_reconnect_stale q t)
  check_time :
      (submit_ms cancel_ms t : ℕ)
      → Step q none (mark_unknown_if_timed_out q submit_ms cancel_ms t).0
  report : (o : ExchangeObservedQuote) → Step q none (apply_exchange_observation q o)
  miss : (t : ℕ) → Step q none (apply_authoritative_absence q t).0

-- The quotes that come of one submitted for `d` at time `t`, with the time of their last command: of the
-- submission, or of the last cancel since.
pub data Reach (d : DesiredQuote) (t : ℕ) : ℕ → WorkingQuote → Type 0 where
  new : Reach d t t (submit d t)
  next :
      {sent : ℕ} {command : Option ℕ} {q r : WorkingQuote}
      → Reach d t sent q
      → Step q command r
      → Reach d t (unwrap_or command sent) r

-- What holds of a quote that was submitted for `d` at time `t` and last commanded at time `sent`.
pub record Tracks (d : DesiredQuote) (t sent : ℕ) (q : WorkingQuote) : Type 0 where
  pub quote_id : q.quote_id ≡ d.quote_id
  pub asset_id : q.asset_id ≡ d.asset_id
  pub side : q.side ≡ d.side
  pub price : q.price ≡ d.price
  pub size : q.size ≡ d.size
  pub order_type : q.order_type ≡ d.order_type
  pub created : q.created_at_ms ≡ t
  pub commanded : q.last_command_ms ≡ some sent

Step-Tracks :
    {d : DesiredQuote} {t sent : ℕ} {command : Option ℕ} {q r : WorkingQuote}
    → Step q command r
    → Tracks d t sent q
    → Tracks d t (unwrap_or command sent) r
unfolding mark_working mark_pending_cancel mark_canceled mark_rejected mark_unknown_or_stale
    mark_reconnect_stale mark_unknown_if_timed_out apply_exchange_observation
    apply_authoritative_absence
Step-Tracks (acknowledge c u) h = ground arith
Step-Tracks (cancel u) h = ground arith
Step-Tracks (confirm_cancel u) h = ground arith
Step-Tracks (reject c u) h = ground arith
Step-Tracks (lose c u) h = ground arith
Step-Tracks (reconnect u) h = ground arith
Step-Tracks (check_time a b u) h = ground arith
Step-Tracks (report o) h = ground arith
Step-Tracks (miss u) h = ground arith

Reach-kept :
    {d : DesiredQuote} {t sent : ℕ} {q : WorkingQuote} → Reach d t sent q → Tracks d t sent q
unfolding submit
Reach-kept new = ground arith
Reach-kept (next r st) = Step-Tracks st (Reach-kept r)

-- Whether an answer is awaited for too long since the last command.
abbrev pub is_due : WorkingQuoteState → ℕ → ℕ → ℕ → Bool
is_due WorkingQuoteState.pending_submit since submit_ms cancel_ms = leb submit_ms since
is_due WorkingQuoteState.pending_cancel since submit_ms cancel_ms = leb cancel_ms since
is_due _ since submit_ms cancel_ms = false

check_time-due :
    {sent : ℕ} {q : WorkingQuote} (submit_ms cancel_ms now : ℕ)
    → q.last_command_ms ≡ some sent
    → let (r, fired) = mark_unknown_if_timed_out q submit_ms cancel_ms now in
      (fired ≡ is_due q.state (now - sent) submit_ms cancel_ms)
      × (((fired ≡ true) × (blocks_convergence r ≡ true)) ⊎ ((fired ≡ false) × (r ≡ q)))
unfolding mark_unknown_if_timed_out blocks_convergence mark_unknown_or_stale
check_time-due submit_ms cancel_ms now h = ground (arith, h)

-- Whatever happens to a quote, its terms stay those that were submitted, and it knows the time of its
-- last command, the submission or the last cancel since. So no quote waits for ever: a check of the time
-- reports a quote exactly when it awaits an answer to that command for its timeout or longer; the quote
-- then blocks convergence, and otherwise the check leaves it as it is.
pub Reach-Tracks :
    {d : DesiredQuote} {t sent : ℕ} {q : WorkingQuote} (submit_ms cancel_ms now : ℕ)
    → Reach d t sent q
    → let (r, fired) = mark_unknown_if_timed_out q submit_ms cancel_ms now in
      Tracks d t sent q
      × (fired ≡ is_due q.state (now - sent) submit_ms cancel_ms)
      × (((fired ≡ true) × (blocks_convergence r ≡ true)) ⊎ ((fired ≡ false) × (r ≡ q)))
Reach-Tracks {q = q} submit_ms cancel_ms now r =
    let kept = Reach-kept r in
    let due = check_time-due submit_ms cancel_ms now kept.commanded in (kept, due.0, due.1)
