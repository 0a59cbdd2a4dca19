-- ===== src/Tests/OrderState.antt =====
-- Runs and witnesses for crates/pm-executor/src/order_state.rs.
use rtt.Prelude.{◌≡◌, ◌-◌, refl, ◌⊎◌, true, false, List, [], ◌∷◌}
use rtt.Order.{text}
use rtt.OrderState.{
  WorkingQuote, WorkingQuoteState, ExchangeObservedQuote, ExchangeObservedQuoteState, submit,
  mark_working, mark_pending_cancel, mark_unknown_if_timed_out, apply_exchange_observation,
  blocks_convergence,
}
use rtt.OrderState.Lifecycle.{Reach, Tracks, is_due, Reach-Tracks, Step}
use rtt.Tests.Fixtures.{desired_quote, report}

abbrev submitted : WorkingQuote
submitted = submit (desired_quote (text "quote-1") (text "0.44") (text "10")) 1_000

abbrev canceling : WorkingQuote
canceling = mark_pending_cancel (mark_working submitted (text "client-1") 1_010) 1_020

-- `pending_cancel_ignores_out_of_order_working_observation`.
late_report_ignored :
    (apply_exchange_observation canceling
      (report (text "quote-1") ExchangeObservedQuoteState.working 1_030)).state
    ≡ WorkingQuoteState.pending_cancel
unfolding apply_exchange_observation submit mark_pending_cancel mark_working
late_report_ignored = refl

-- `pending_submit_timeout_becomes_unknown_or_stale`.
submit_timeout :
    (mark_unknown_if_timed_out submitted 50 100 1_060).0.state
    ≡ WorkingQuoteState.unknown_or_stale (text "submit_timeout")
unfolding mark_unknown_if_timed_out submit
submit_timeout = refl

abbrev reports : List ExchangeObservedQuote
reports =
    report (text "quote-1") ExchangeObservedQuoteState.working 1_030
    ∷ report (text "quote-1") ExchangeObservedQuoteState.pending_cancel 1_035
    ∷ report (text "quote-1") ExchangeObservedQuoteState.working 1_040
    ∷ []

abbrev life : Reach (desired_quote (text "quote-1") (text "0.44") (text "10")) 1_000 1_020 canceling
life =
    Reach.next (Reach.next Reach.new (Step.acknowledge (text "client-1") 1_010)) (Step.cancel 1_020)

Reach-Tracks_example :
    let (r, fired) = mark_unknown_if_timed_out canceling 50 100 1_130 in
    Tracks (desired_quote (text "quote-1") (text "0.44") (text "10")) 1_000 1_020 canceling
    × (fired ≡ is_due canceling.state (1_130 - 1_020) 50 100)
    × (((fired ≡ true) × (blocks_convergence r ≡ true)) ⊎ ((fired ≡ false) × (r ≡ canceling)))
Reach-Tracks_example = Reach-Tracks 50 100 1_130 life
