-- ===== src/OrderManager/Blocking.antt =====
-- When `reconcile` refuses to act, and what a synchronisation with the exchange does about it.
use rtt.Prelude.{
  ◌⊎◌, ℕ, ◌≡◌, refl, true, false, not, ◌&&◌, List, [], ◌∷◌, ◌++◌, map, keep, any, if◌then◌else◌,
  arith,
}
use rtt.Order.{text_ord}
use rtt.Quote.{DesiredQuotes}
use rtt.OrderState.{WorkingQuote, blocks_convergence, is_cancelable}
use rtt.OrderManager.{
  LocalOrderManager, is_empty, outcome, cancel_all, desired_by_id, working_by_id, cancels,
  placements, blocked_ids, reconcile,
}

pub is_empty-blocked_ids :
    (working : List WorkingQuote)
    → not (is_empty (blocked_ids working)) ≡ any blocks_convergence working
unfolding blocked_ids
is_empty-blocked_ids [] = refl
is_empty-blocked_ids (q ∷ qs) = ground (arith, is_empty-blocked_ids qs)

nil_of_is_empty {ℓ} : {A : Type ℓ} (xs : List A) → is_empty xs ≡ true → xs ≡ []
nil_of_is_empty [] h = refl
nil_of_is_empty (x ∷ xs) h = cc

-- The body of `reconcile`, with what it calls left shut.
pub reconcile_lem :
    (manager : LocalOrderManager) (desired : DesiredQuotes) (working : List WorkingQuote) (now : ℕ)
    → let wanted = desired_by_id desired in
      let current = working_by_id working in
      reconcile manager desired working now ≡ (
        if not (is_empty (blocked_ids working))
        then outcome [] true (blocked_ids working) working
        else if is_empty wanted && any is_cancelable working
        then outcome (cancel_all ∷ []) false [] working
        else outcome
            (cancels manager.policy now wanted current
              ++ placements manager.policy now current wanted)
            false
            []
            working)
reconcile_lem manager desired working now = unfold reconcile in refl

-- `reconcile` blocks exactly when some working quote is unknown. It then commands nothing and names
-- the unknown quotes, and it never changes the working quotes.
pub reconcile-blocked :
    (manager : LocalOrderManager) (desired : DesiredQuotes) (working : List WorkingQuote) (now : ℕ)
    → let o = reconcile manager desired working now in
      (o.blocked ≡ any blocks_convergence working)
      × ((o.blocked ≡ false) ⊎ (o.commands ≡ []))
      × (o.blocked_quotes ≡ map (λ q. q.quote_id) (keep blocks_convergence working))
      × (o.working ≡ working)
reconcile-blocked manager desired working now =
    let named : blocked_ids working ≡ map (λ q. q.quote_id) (keep blocks_convergence working) =
      unfold blocked_ids in refl in
    rw (← named) (
      ground (
        arith,
        reconcile_lem manager desired working now,
        is_empty-blocked_ids working,
        nil_of_is_empty (blocked_ids working),
      ))
