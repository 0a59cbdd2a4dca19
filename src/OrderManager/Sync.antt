-- ===== src/OrderManager/Sync.antt =====
-- The part of crates/pm-executor/src/order_manager.rs that reads the exchange: the snapshot brings
-- the working quotes up to date before they are reconciled, and its fills become exposure, once.
use rtt.Prelude.{
  ℕ, ◌*◌, ◌/◌, Bool, true, false, not, ◌||◌, Option, none, some, List, [], ◌∷◌, map, if◌then◌else◌,
}
use rtt.Order.{Text, text_ord}
use rtt.BTreeMap.{BTreeMap, BTreeSet, lookup, insert, remove, collect, contains}
use rtt.Units.{parse_units, format_units}
use rtt.Quote.{QuoteId, DesiredQuotes}
use rtt.OrderState.{
  WorkingQuote, ExchangeObservedQuote, is_cancelable, mark_reconnect_stale,
  mark_unknown_if_timed_out, apply_exchange_observation, apply_authoritative_absence,
}
use rtt.OrderManager.{
  ReconciliationPolicy, ReconciliationOutcome, LocalOrderManager, ExchangeFill,
  ExchangeSyncSnapshot, ExposureDelta, blocked_ids, reconcile,
}

-- `BTreeSet::insert`: the new set, and whether the key was new.
unfoldable pub insert_new : Text → BTreeSet Text → BTreeSet Text × Bool
insert_new k set = (insert k tt set, not (contains k set))

-- The product of two `u64` amounts is at most 2 ^ 128, so the `u128` product is exact.
unfoldable pub delta_of : ExchangeFill → ExposureDelta
delta_of fill = record {
  asset_id = fill.asset_id;
  side = fill.side;
  filled_size_delta = format_units (parse_units fill.filled_size);
  notional_delta = format_units (parse_units fill.price * parse_units fill.filled_size / 1_000_000);
  observed_at_ms = fill.observed_at_ms;
}

-- The loop of `collect_new_exposure_deltas`: what it leaves in the set, and what it reports.
unfoldable pub collect_fills :
    BTreeSet Text → List ExchangeFill → BTreeSet Text × List ExposureDelta
collect_fills seen [] = (seen, [])
collect_fills seen (fill ∷ fills) =
    let (seen', fresh) = insert_new fill.fill_id seen in
    let (final, deltas) = collect_fills seen' fills in
    (final, if fresh then delta_of fill ∷ deltas else deltas)

unfoldable pub collect_new_exposure_deltas :
    LocalOrderManager → ExchangeSyncSnapshot → LocalOrderManager × List ExposureDelta
collect_new_exposure_deltas manager snapshot =
    let (seen, deltas) = collect_fills manager.seen_fill_ids snapshot.fills in
    (record manager { seen_fill_ids = seen }, deltas)

-- The loop over `synchronized` while a resync is pending.
unfoldable pub stale_all : ℕ → List WorkingQuote → List WorkingQuote
stale_all t [] = []
stale_all t (quote ∷ quotes) =
    (if is_cancelable quote then mark_reconnect_stale quote t else quote) ∷ stale_all t quotes

-- What a snapshot says of one quote: a report if it holds one, absence if the snapshot is complete.
-- The result says whether a resync is needed.
unfoldable pub apply_snapshot :
    ExchangeSyncSnapshot → Option ExchangeObservedQuote → WorkingQuote → WorkingQuote × Bool
apply_snapshot snapshot (some observed) quote = (apply_exchange_observation quote observed, false)
apply_snapshot snapshot none quote =
    if snapshot.authoritative
    then apply_authoritative_absence quote snapshot.observed_at_ms
    else (quote, false)

-- The loop over `synchronized` otherwise. Each report is taken out of the map by its quote.
unfoldable pub synchronize :
    ReconciliationPolicy
    → ExchangeSyncSnapshot
    → ℕ
    → BTreeMap QuoteId ExchangeObservedQuote
    → List WorkingQuote
    → List WorkingQuote × Bool
synchronize policy snapshot now_ms observed [] = ([], false)
synchronize policy snapshot now_ms observed (quote ∷ quotes) =
    let (timed, late) =
      mark_unknown_if_timed_out quote policy.submit_timeout_ms policy.cancel_timeout_ms now_ms in
    let (seen, missing) = apply_snapshot snapshot (lookup timed.quote_id observed) timed in
    let (rest, resync) =
      synchronize policy snapshot now_ms (remove timed.quote_id observed) quotes in
    (seen ∷ rest, late || missing || resync)

unfoldable pub observed_by_id : ExchangeSyncSnapshot → BTreeMap QuoteId ExchangeObservedQuote
observed_by_id snapshot = collect (map (λ q. (q.quote_id, q)) snapshot.quotes)

unfoldable pub reconcile_with_exchange :
    LocalOrderManager
    → DesiredQuotes
    → List WorkingQuote
    → ExchangeSyncSnapshot
    → ℕ
    → LocalOrderManager × ReconciliationOutcome
reconcile_with_exchange manager desired working snapshot now_ms =
    let (manager', deltas) = collect_new_exposure_deltas manager snapshot in
    let stale = stale_all snapshot.observed_at_ms working in
    let (synchronized, resync_required) =
      synchronize manager.policy snapshot now_ms (observed_by_id snapshot) working in
    let outcome = reconcile manager desired synchronized now_ms in
    (
      manager',
      if snapshot.resync_pending
          then record {
            commands = [];
            blocked = true;
            blocked_quotes = blocked_ids stale;
            working = stale;
            resync_required = true;
            exposure_deltas = deltas;
          }
          else record outcome {
            working = synchronized;
            resync_required = resync_required || outcome.blocked;
            exposure_deltas = deltas;
          },
    )

-- The provider is a trait: its one method is the argument.
unfoldable pub reconcile_against_exchange :
    LocalOrderManager
    → DesiredQuotes
    → List WorkingQuote
    → (Unit {0} → ExchangeSyncSnapshot)
    → ℕ
    → LocalOrderManager × ReconciliationOutcome
reconcile_against_exchange manager desired working provider now_ms =
    reconcile_with_exchange manager desired working (provider tt) now_ms
