-- ===== src/OrderManager/Recovery.antt =====
-- How the executor gets out of a blocked state: two complete snapshots in a row that do not hold the
-- orders settle every quote, and what is wanted is placed anew.
use rtt.Prelude.{
  ℕ, ◌≡◌, refl, ap, ◌∙◌, true, false, Option, none, some, List, [], ◌∷◌, map, any, All, arith,
}
use rtt.Order.{text_ord}
use rtt.BTreeMap.{BTreeMap, lookup, remove, collect}
use rtt.BTreeMap.Sorted.{All-collect}
use rtt.Quote.{QuoteId, DesiredQuote, DesiredQuotes}
use rtt.OrderState.{
  WorkingQuote, blocks_convergence, is_cancelable, mark_unknown_if_timed_out,
  apply_authoritative_absence,
}
use rtt.OrderManager.{
  ReconciliationPolicy, LocalOrderManager, ExchangeSyncSnapshot, desired_by_id, working_by_id,
  reconcile, blocked_ids, is_empty,
}
use rtt.OrderManager.Sync.{apply_snapshot, synchronize, observed_by_id, reconcile_with_exchange}
use rtt.OrderManager.Blocking.{reconcile-blocked, is_empty-blocked_ids}
use rtt.OrderManager.Converge.{execute, resting, target, reconcile-converges}
use rtt.OrderManager.Resync.{with_exchange_lem}

-- A complete snapshot that holds no order.
pub record IsBare (s : ExchangeSyncSnapshot) : Type 0 where
  pub complete : s.authoritative ≡ true
  pub settled : s.resync_pending ≡ false
  pub bare : s.quotes ≡ []

-- One round of the loop, for a quote that the snapshot does not hold.
absent_once :
    (policy : ReconciliationPolicy) (s : ExchangeSyncSnapshot) (now : ℕ) (q : WorkingQuote)
    → s.authoritative ≡ true
    → let timed =
        (mark_unknown_if_timed_out q policy.submit_timeout_ms policy.cancel_timeout_ms now).0 in
      let r = (apply_snapshot s none timed).0 in
      (is_cancelable r ≡ false) × (is_cancelable q ≡ false → blocks_convergence r ≡ false)
unfolding mark_unknown_if_timed_out apply_snapshot apply_authoritative_absence is_cancelable
    blocks_convergence
absent_once policy s now q h = ground arith

synchronize_bare :
    (policy : ReconciliationPolicy) (s : ExchangeSyncSnapshot) (now : ℕ)
    (working : List WorkingQuote)
    → s.authoritative ≡ true
    → let after = (synchronize policy s now [] working).0 in
      (any is_cancelable after ≡ false)
      × (any is_cancelable working ≡ false → any blocks_convergence after ≡ false)
unfolding synchronize lookup remove
synchronize_bare policy s now [] h = (refl, λ _. refl)
synchronize_bare policy s now (q ∷ qs) h =
    let once = absent_once policy s now q h in
    let rest = synchronize_bare policy s now qs h in (ground arith, λ dead. ground arith)

observed_by_id-bare : (s : ExchangeSyncSnapshot) → s.quotes ≡ [] → observed_by_id s ≡ []
observed_by_id-bare s h = unfold observed_by_id collect in rw h

-- The working quotes after a synchronisation with a bare snapshot.
exchange-bare :
    (manager : LocalOrderManager) (desired : DesiredQuotes) (working : List WorkingQuote)
    (s : ExchangeSyncSnapshot) (now : ℕ)
    → IsBare s
    → let o = (reconcile_with_exchange manager desired working s now).1 in
      let after = (synchronize manager.policy s now [] working).0 in
      (o.working ≡ after)
      × (o.blocked ≡ any blocks_convergence after)
      × (o.commands ≡ (reconcile manager desired after now).commands)
exchange-bare manager desired working s now b =
    let body = with_exchange_lem manager desired working s now in
    let bare = observed_by_id-bare s b.bare in
    let blocked =
      (reconcile-blocked manager desired (synchronize manager.policy s now [] working).0 now).0 in
    rw (← bare) (ground (arith, body, bare, b.settled, blocked))

abbrev IsDead : QuoteId × WorkingQuote → Type 0
IsDead e = is_cancelable e.1 ≡ false

IsDead-ids :
    (working : List WorkingQuote)
    → any is_cancelable working ≡ false
    → All IsDead (map (λ (q : WorkingQuote). (q.quote_id, q)) working)
IsDead-ids [] h = tt
IsDead-ids (q ∷ qs) h = (ground arith, IsDead-ids qs (ground arith))

resting_dead :
    (k : QuoteId) (m : BTreeMap QuoteId WorkingQuote) → All IsDead m → resting (lookup k m) ≡ none
unfolding lookup
resting_dead k [] h = refl
resting_dead k ((id, w) ∷ m) h = ground (arith, resting_dead k m h.1)

resting-dead :
    (k : QuoteId) (working : List WorkingQuote)
    → any is_cancelable working ≡ false
    → resting (lookup k (working_by_id working)) ≡ none
resting-dead k working h =
    unfold working_by_id in
    (resting_dead k (collect (map (λ q. (q.quote_id, q)) working))
      (All-collect IsDead (map (λ q. (q.quote_id, q)) working) (IsDead-ids working h)))

target-dead :
    (policy : ReconciliationPolicy) (now : ℕ) (d : Option DesiredQuote) (w : Option WorkingQuote)
    → resting w ≡ none
    → target policy now d w ≡ d
target-dead policy now none w h = refl
target-dead policy now (some d) none h = refl
target-dead policy now (some d) (some w) h = ground arith

-- After two bare snapshots in a row, whatever was believed of the working quotes before, the executor
-- is not blocked, holds no live quote, and its commands make exactly what is wanted rest, for every id.
pub two_bare_snapshots-recover :
    (manager : LocalOrderManager) (before desired : DesiredQuotes) (working : List WorkingQuote)
    (s t : ExchangeSyncSnapshot) (now later : ℕ) (k : QuoteId)
    → IsBare s
    → IsBare t
    → let (manager', first) = reconcile_with_exchange manager before working s now in
      let o = (reconcile_with_exchange manager' desired first.working t later).1 in
      (o.blocked ≡ false)
      × (any is_cancelable o.working ≡ false)
      × (execute k o.commands none ≡ some (lookup k (desired_by_id desired)))
two_bare_snapshots-recover manager before desired working s t now later k b c =
    let (manager', first) = reconcile_with_exchange manager before working s now in
    let once = (synchronize manager.policy s now [] working).0 in
    let twice = (synchronize manager'.policy t later [] once).0 in
    let dead = (synchronize_bare manager.policy s now working b.complete).0 in
    let both = synchronize_bare manager'.policy t later once c.complete in
    let one = exchange-bare manager before working s now b in
    let two = exchange-bare manager' desired once t later c in
    let calm : any blocks_convergence twice ≡ false = both.1 dead in
    let unblocked : is_empty (blocked_ids twice) ≡ true =
      ground (arith, is_empty-blocked_ids twice, calm) in
    let w = lookup k (working_by_id twice) in
    let gone = resting-dead k twice both.0 in
    rw one.0 (
      two.1 ∙ calm,
      rw two.0 both.0,
      rw (two.2, ← gone)
          (reconcile-converges manager' desired twice later k unblocked
            ∙ ap some
                (target-dead manager'.policy later (lookup k (desired_by_id desired)) w gone)),
    )
