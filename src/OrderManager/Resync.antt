-- ===== src/OrderManager/Resync.antt =====
-- What a synchronisation with the exchange does to the working quotes and to the commands.
use rtt.Prelude.{
  ◌⊎◌, ℕ, ◌≡◌, refl, Bool, true, false, ◌||◌, List, [], ◌∷◌, any, if◌then◌else◌, arith, subst, sym,
  ◌∙◌,
}
use rtt.Order.{text, text_ord}
use rtt.BTreeMap.{BTreeMap, remove}
use rtt.Quote.{QuoteId, DesiredQuotes}
use rtt.OrderState.{
  WorkingQuote, WorkingQuoteState, ExchangeObservedQuote, blocks_convergence, is_cancelable,
  mark_reconnect_stale, mark_unknown_if_timed_out,
}
use rtt.OrderManager.{
  ReconciliationPolicy, LocalOrderManager, ExchangeSyncSnapshot, blocked_ids, reconcile,
}
use rtt.OrderManager.Sync.{
  collect_new_exposure_deltas, stale_all, synchronize, observed_by_id, reconcile_with_exchange,
}
use rtt.OrderManager.Blocking.{reconcile-blocked}

-- The body of `reconcile_with_exchange`, with what it calls left shut.
pub with_exchange_lem :
    (manager : LocalOrderManager) (desired : DesiredQuotes) (working : List WorkingQuote)
    (snapshot : ExchangeSyncSnapshot) (now : ℕ)
    → let deltas = (collect_new_exposure_deltas manager snapshot).1 in
      let stale = stale_all snapshot.observed_at_ms working in
      let sync = synchronize manager.policy snapshot now (observed_by_id snapshot) working in
      let o = reconcile manager desired sync.0 now in
      (reconcile_with_exchange manager desired working snapshot now).1 ≡ (
        if snapshot.resync_pending
        then record {
          commands = [];
          blocked = true;
          blocked_quotes = blocked_ids stale;
          working = stale;
          resync_required = true;
          exposure_deltas = deltas;
        }
        else record o {
          working = sync.0;
          resync_required = sync.1 || o.blocked;
          exposure_deltas = deltas;
        })
with_exchange_lem manager desired working snapshot now = unfold reconcile_with_exchange in refl

-- Quote by quote, what a pending resync makes of the working quotes: one that could have been canceled has
-- an unknown fate from the time of the snapshot on, and is otherwise as it was; every other stays as it is.
abbrev pub LosesTrack : ℕ → List WorkingQuote → List WorkingQuote → Type 0
LosesTrack t [] [] = Unit
LosesTrack t [] (q' ∷ qs') = ⊥
LosesTrack t (q ∷ qs) [] = ⊥
LosesTrack t (q ∷ qs) (q' ∷ qs') =
    (q' ≡ (
      if is_cancelable q
      then record q {
        state = WorkingQuoteState.unknown_or_stale (text "reconnect_resync_required");
        last_update_ms = t;
      }
      else q))
    × LosesTrack t qs qs'

stale_all-LosesTrack :
    (t : ℕ) (working : List WorkingQuote) → LosesTrack t working (stale_all t working)
unfolding stale_all mark_reconnect_stale
stale_all-LosesTrack t [] = tt
stale_all-LosesTrack t (q ∷ qs) = (refl, stale_all-LosesTrack t qs)

-- Some quote of an unknown fate, before or after: one that could have been canceled is one after.
LosesTrack-blocks :
    (t : ℕ) (working working' : List WorkingQuote)
    → LosesTrack t working working'
    → any blocks_convergence working' ≡ any (λ q. is_cancelable q || blocks_convergence q) working
unfolding blocks_convergence is_cancelable
LosesTrack-blocks t [] [] h = refl
LosesTrack-blocks t [] (q' ∷ qs') h = elim h [ ]
LosesTrack-blocks t (q ∷ qs) [] h = elim h [ ]
LosesTrack-blocks t (q ∷ qs) (q' ∷ qs') (here, rest) =
    ground (arith, here, LosesTrack-blocks t qs qs' rest)

-- While a resync is pending the outcome is blocked and commands nothing, and the caller is told to
-- synchronise. A working quote that could have been canceled has an unknown fate from the time of the
-- snapshot on, and all else of the working quotes is as it was. A later `reconcile` of these working quotes,
-- at any time and for any wanted quotes, is blocked exactly when one of them could have been canceled or was
-- already unknown, and commands nothing when it is blocked.
pub resync_pending-blocks :
    (manager later : LocalOrderManager) (desired wanted : DesiredQuotes)
    (working : List WorkingQuote) (snapshot : ExchangeSyncSnapshot) (now then_ms : ℕ)
    → snapshot.resync_pending ≡ true
    → let o = (reconcile_with_exchange manager desired working snapshot now).1 in
      let next = reconcile later wanted o.working then_ms in
      (o.commands ≡ [])
      × (o.blocked ≡ true)
      × (o.resync_required ≡ true)
      × LosesTrack snapshot.observed_at_ms working o.working
      × (next.blocked ≡ any (λ q. is_cancelable q || blocks_convergence q) working)
      × ((next.blocked ≡ false) ⊎ (next.commands ≡ []))
resync_pending-blocks manager later desired wanted working snapshot now then_ms h =
    let o = (reconcile_with_exchange manager desired working snapshot now).1 in
    let body = with_exchange_lem manager desired working snapshot now in
    let t = snapshot.observed_at_ms in
    let kept : o.working ≡ stale_all t working = ground (arith, body) in
    let lost = subst (LosesTrack t working) (sym kept) (stale_all-LosesTrack t working) in
    let (blocked, idle, names, same) = reconcile-blocked later wanted o.working then_ms in
    (
      ground (arith, body),
      ground (arith, body),
      ground (arith, body),
      lost,
      blocked ∙ LosesTrack-blocks t working o.working lost,
      idle,
    )

-- Whether the time of some quote is up.
abbrev pub some_overdue : ReconciliationPolicy → ℕ → List WorkingQuote → Bool
some_overdue policy now =
    any (λ q. (mark_unknown_if_timed_out q policy.submit_timeout_ms policy.cancel_timeout_ms now).1)

overdue-flag :
    (policy : ReconciliationPolicy) (snapshot : ExchangeSyncSnapshot) (now : ℕ)
    (observed : BTreeMap QuoteId ExchangeObservedQuote) (working : List WorkingQuote)
    → some_overdue policy now working ≡ true
    → (synchronize policy snapshot now observed working).1 ≡ true
unfolding synchronize
overdue-flag policy snapshot now observed [] h = cc
overdue-flag policy snapshot now observed (q ∷ qs) h =
    let timed =
      (mark_unknown_if_timed_out q policy.submit_timeout_ms policy.cancel_timeout_ms now).0 in
    ground (arith, overdue-flag policy snapshot now (remove timed.quote_id observed) qs)

-- An outcome that asks for no resync passes nothing over: the time of no working quote was up, it is
-- not blocked, and it holds no unknown quote.
pub resync_required_sound :
    (manager : LocalOrderManager) (desired : DesiredQuotes) (working : List WorkingQuote)
    (snapshot : ExchangeSyncSnapshot) (now : ℕ)
    → let o = (reconcile_with_exchange manager desired working snapshot now).1 in
      (o.resync_required ≡ true)
      ⊎ ((o.resync_required ≡ false)
          × (some_overdue manager.policy now working ≡ false)
          × (o.blocked ≡ false)
          × (any blocks_convergence o.working ≡ false))
resync_required_sound manager desired working snapshot now =
    let sync = synchronize manager.policy snapshot now (observed_by_id snapshot) working in
    let body = with_exchange_lem manager desired working snapshot now in
    let late = overdue-flag manager.policy snapshot now (observed_by_id snapshot) working in
    let blocked = (reconcile-blocked manager desired sync.0 now).0 in
    ground (arith, body, late, blocked)
