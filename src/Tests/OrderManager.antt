-- ===== src/Tests/OrderManager.antt =====
-- Runs and witnesses for crates/pm-executor/src/order_manager.rs.
use rtt.Prelude.{
  ◌⊎◌, ◌||◌, ◌+◌, ◌≡◌, refl, true, false, none, some, List, [], ◌∷◌, map, keep, any, length, arith,
}
use rtt.Order.{Text, text, same, text_ord}
use rtt.BTreeMap.{lookup, insert, collect, contains}
use rtt.Decimal.{emit}
use rtt.Units.{parse_units, format_units}
use rtt.OrderState.{WorkingQuote, WorkingQuoteState, blocks_convergence, is_cancelable}
use rtt.OrderManager.{
  place, cancel, ExchangeSyncSnapshot, cancels, placements, cancel_for, place_for, desired_by_id,
  working_by_id, blocked_ids, reconcile, is_material_change, cooldown_elapsed, default_policy,
}
use rtt.OrderManager.Sync.{
  insert_new, delta_of, collect_fills, collect_new_exposure_deltas, reconcile_with_exchange,
}
use rtt.OrderManager.Plan.{commands_for, plan, commands_for-reconcile}
use rtt.OrderManager.Converge.{execute, resting, reconcile-converges}
use rtt.OrderManager.Blocking.{reconcile-blocked}
use rtt.OrderManager.Settled.{reconcile-settled}
use rtt.OrderManager.Resync.{LosesTrack, some_overdue, resync_pending-blocks, resync_required_sound}
use rtt.OrderManager.Recovery.{IsBare, two_bare_snapshots-recover}
use rtt.OrderManager.Exposure.{IsValid, new_fills, deltas-count, after, replayed-silent}
use rtt.Tests.Fixtures.{
  desired_quote, quote_in, manager, three_working, two_desired, fill, snapshot_of,
}

-- `reconcile_cancels_stale_replaces_changed_and_noops_matching_quotes`.
replaces_changed :
    (reconcile manager two_desired three_working 2_000).commands
    ≡ cancel (text "quote-1")
      ∷ cancel (text "quote-3")
      ∷ place (desired_quote (text "quote-1") (text "0.47") (text "10"))
      ∷ []
unfolding reconcile blocked_ids blocks_convergence is_cancelable desired_by_id working_by_id cancels
    placements cancel_for place_for is_material_change cooldown_elapsed lookup collect same text_ord
    parse_units
replaces_changed = refl

-- `exchange_fills_become_exposure_deltas_once`, in part.
first_fill :
    map {B = Text × Text}
      (λ d. (d.filled_size_delta, d.notional_delta))
      (collect_fills [] (fill ∷ [])).1
    ≡ (text "10.000000", text "4.400000") ∷ []
unfolding collect_fills insert_new delta_of contains insert text_ord lookup parse_units format_units
    emit
first_fill = refl

commands_for-reconcile_example :
    commands_for (text "quote-1") (reconcile manager two_desired three_working 2_000).commands
    ≡ plan default_policy 2_000
        (text "quote-1")
        (lookup (text "quote-1") (desired_by_id two_desired))
        (lookup (text "quote-1") (working_by_id three_working))
unfolding blocked_ids blocks_convergence desired_by_id collect text_ord
commands_for-reconcile_example =
    commands_for-reconcile manager two_desired three_working 2_000 (text "quote-1") refl refl

reconcile-converges_example :
    execute
      (text "quote-1")
      (reconcile manager two_desired three_working 2_000).commands
      (resting (lookup (text "quote-1") (working_by_id three_working)))
    ≡ some (some (desired_quote (text "quote-1") (text "0.47") (text "10")))
unfolding blocked_ids blocks_convergence desired_by_id working_by_id collect text_ord lookup
    is_cancelable is_material_change cooldown_elapsed same parse_units
reconcile-converges_example =
    reconcile-converges manager two_desired three_working 2_000 (text "quote-1") refl

abbrev with_unknown : List WorkingQuote
with_unknown =
    quote_in (WorkingQuoteState.unknown_or_stale (text "injected")) (text "quote-9") (text "0.44")
      (text "10") 1_000
    ∷ three_working

reconcile-blocked_example :
    let o = reconcile manager two_desired with_unknown 2_000 in
    (o.blocked ≡ any blocks_convergence with_unknown)
    × ((o.blocked ≡ false) ⊎ (o.commands ≡ []))
    × (o.blocked_quotes ≡ map (λ q. q.quote_id) (keep blocks_convergence with_unknown))
    × (o.working ≡ with_unknown)
reconcile-blocked_example = reconcile-blocked manager two_desired with_unknown 2_000

reconcile-settled_example :
    commands_for (text "quote-2") (reconcile manager two_desired three_working 2_000).commands ≡ []
unfolding blocked_ids blocks_convergence desired_by_id working_by_id collect text_ord lookup
    is_cancelable
reconcile-settled_example =
    reconcile-settled manager two_desired three_working 2_000 (text "quote-2") (omega arith)
      (omega arith) refl (refl, refl)

resync_pending-blocks_example :
    let o =
      (reconcile_with_exchange manager two_desired three_working
        (snapshot_of false true [] [])
        2_000).1 in
    let next = reconcile manager two_desired o.working 3_000 in
    (o.commands ≡ [])
    × (o.blocked ≡ true)
    × (o.resync_required ≡ true)
    × LosesTrack (snapshot_of false true [] []).observed_at_ms three_working o.working
    × (next.blocked ≡ any (λ q. is_cancelable q || blocks_convergence q) three_working)
    × ((next.blocked ≡ false) ⊎ (next.commands ≡ []))
resync_pending-blocks_example =
    resync_pending-blocks manager manager two_desired two_desired three_working
      (snapshot_of false true [] []) 2_000 3_000 refl

abbrev waiting : List WorkingQuote
waiting =
    quote_in WorkingQuoteState.pending_submit (text "quote-1") (text "0.44") (text "10") 1_000 ∷ []

resync_required_sound_example :
    let o =
      (reconcile_with_exchange manager two_desired waiting
        (snapshot_of false false [] [])
        9_000).1 in
    (o.resync_required ≡ true)
    ⊎ ((o.resync_required ≡ false)
        × (some_overdue default_policy 9_000 waiting ≡ false)
        × (o.blocked ≡ false)
        × (any blocks_convergence o.working ≡ false))
resync_required_sound_example =
    resync_required_sound manager two_desired waiting (snapshot_of false false [] []) 9_000

abbrev bare : IsBare (snapshot_of true false [] [])
bare = record { complete = refl; settled = refl; bare = refl }

two_bare_snapshots-recover_example :
    let (manager', first) =
      reconcile_with_exchange manager two_desired with_unknown
        (snapshot_of true false [] [])
        2_000 in
    let o =
      (reconcile_with_exchange manager' two_desired first.working
        (snapshot_of true false [] [])
        3_000).1 in
    (o.blocked ≡ false)
    × (any is_cancelable o.working ≡ false)
    × (execute (text "quote-1") o.commands none
        ≡ some (lookup (text "quote-1") (desired_by_id two_desired)))
two_bare_snapshots-recover_example =
    two_bare_snapshots-recover manager two_desired two_desired with_unknown
      (snapshot_of true false [] []) (snapshot_of true false [] []) 2_000 3_000 (text "quote-1")
      bare bare

abbrev filled : ExchangeSyncSnapshot
filled = snapshot_of true false [] (fill ∷ fill ∷ [])

deltas-count_example :
    let (manager', deltas) = collect_new_exposure_deltas manager filled in
    IsValid manager'
    × (deltas ≡ map delta_of (new_fills (λ q. contains q manager.seen_fill_ids) filled.fills))
    × (contains fill.fill_id manager'.seen_fill_ids ≡ (
        any (λ f. same fill.fill_id f.fill_id) filled.fills
        || contains fill.fill_id manager.seen_fill_ids))
    × (length deltas + 0 ≡ length manager'.seen_fill_ids)
deltas-count_example = deltas-count manager filled fill.fill_id tt

replayed-silent_example :
    (collect_new_exposure_deltas
      (after (collect_new_exposure_deltas manager filled).0 (filled ∷ []))
      filled).1
    ≡ []
replayed-silent_example = replayed-silent manager filled (filled ∷ [])
