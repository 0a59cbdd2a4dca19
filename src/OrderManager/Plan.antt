-- ===== src/OrderManager/Plan.antt =====
-- What `reconcile` commands for each quote id. Models no further code.
use rtt.Prelude.{
  ℕ, ◌≡◌, refl, ◌∙◌, Bool, true, false, ◌&&◌, Option, none, some, List, [], ◌∷◌, ◌++◌, map, keep,
  keep-append, any, All, if◌then◌else◌, arith,
}
use mathlib.Core.Path.{ap₂}
use mathlib.Core.List.{append-nil}
use rtt.Order.{same, eq_of_same, text_ord}
use rtt.BTreeMap.{BTreeMap, lookup, IsSorted}
use rtt.BTreeMap.Sorted.{collect-IsSorted, lookup-Above, All-collect}
use rtt.Quote.{QuoteId, DesiredQuote, DesiredQuotes}
use rtt.OrderState.{WorkingQuote, is_cancelable}
use rtt.OrderManager.{
  ExecutionCommand, place, cancel, cancel_all, ReconciliationPolicy, replaces, cancel_for,
  place_for, desired_by_id, working_by_id, cancels, placements, reconcile, LocalOrderManager,
  blocked_ids, is_empty,
}

-- The commands that touch one id; `cancel_all` touches all.
abbrev pub is_for : QuoteId → ExecutionCommand → Bool
is_for k (place d) = same k d.quote_id
is_for k (cancel id) = same k id
is_for k cancel_all = true

abbrev pub commands_for : QuoteId → List ExecutionCommand → List ExecutionCommand
commands_for k = keep (is_for k)

-- What one id needs, from what is wanted for it and what works for it.
abbrev pub plan :
    ReconciliationPolicy
    → ℕ
    → QuoteId
    → Option DesiredQuote
    → Option WorkingQuote
    → List ExecutionCommand
plan policy now k none none = []
plan policy now k none (some w) = if is_cancelable w then cancel k ∷ [] else []
plan policy now k (some d) none = place d ∷ []
plan policy now k (some d) (some w) =
    if is_cancelable w
    then (if replaces policy now w d then cancel k ∷ place d ∷ [] else [])
    else place d ∷ []

abbrev cancels_of :
    ReconciliationPolicy
    → ℕ
    → QuoteId
    → Option DesiredQuote
    → Option WorkingQuote
    → List ExecutionCommand
cancels_of policy now k d none = []
cancels_of policy now k d (some w) = cancel_for policy now d k w

abbrev places_of :
    ReconciliationPolicy → ℕ → Option WorkingQuote → Option DesiredQuote → List ExecutionCommand
places_of policy now w none = []
places_of policy now w (some d) = place_for policy now w d

keep-cancel_for :
    (policy : ReconciliationPolicy) (now : ℕ) (d : Option DesiredQuote) (k id : QuoteId)
    (w : WorkingQuote)
    → commands_for k (cancel_for policy now d id w)
      ≡ (if same k id then cancel_for policy now d id w else [])
unfolding cancel_for
keep-cancel_for policy now none k id w = ground arith
keep-cancel_for policy now (some d) k id w = ground arith

keep-place_for :
    (policy : ReconciliationPolicy) (now : ℕ) (w : Option WorkingQuote) (k : QuoteId)
    (d : DesiredQuote)
    → commands_for k (place_for policy now w d)
      ≡ (if same k d.quote_id then place_for policy now w d else [])
unfolding place_for
keep-place_for policy now none k d = ground arith
keep-place_for policy now (some w) k d = ground arith

commands_for-cancels :
    (policy : ReconciliationPolicy) (now : ℕ) (k : QuoteId) (d : BTreeMap QuoteId DesiredQuote)
    (m : BTreeMap QuoteId WorkingQuote)
    → IsSorted m
    → commands_for k (cancels policy now d m) ≡ cancels_of policy now k (lookup k d) (lookup k m)
unfolding cancels lookup
commands_for-cancels policy now k d [] s = refl
commands_for-cancels policy now k d ((id, w) ∷ m) s = ground (
  arith,
  keep-append (is_for k) (cancel_for policy now (lookup id d) id w) (cancels policy now d m),
  keep-cancel_for policy now (lookup id d) k id w,
  commands_for-cancels policy now k d m s.1,
  lookup-Above id m s.0,
  eq_of_same k id,
  append-nil (cancel_for policy now (lookup id d) id w),
)

-- Each quote of the map stands under its own id.
abbrev pub Keyed : BTreeMap QuoteId DesiredQuote → Type 0
Keyed m = All (λ e. e.0 ≡ e.1.quote_id) m

commands_for-placements :
    (policy : ReconciliationPolicy) (now : ℕ) (k : QuoteId) (w : BTreeMap QuoteId WorkingQuote)
    (m : BTreeMap QuoteId DesiredQuote)
    → IsSorted m
    → Keyed m
    → commands_for k (placements policy now w m) ≡ places_of policy now (lookup k w) (lookup k m)
unfolding placements lookup
commands_for-placements policy now k w [] s h = refl
commands_for-placements policy now k w ((id, d) ∷ m) s h = ground (
  arith,
  keep-append (is_for k) (place_for policy now (lookup id w) d) (placements policy now w m),
  keep-place_for policy now (lookup id w) k d,
  commands_for-placements policy now k w m s.1 h.1,
  lookup-Above id m s.0,
  eq_of_same k id,
  append-nil (place_for policy now (lookup id w) d),
)

plan-append :
    (policy : ReconciliationPolicy) (now : ℕ) (k : QuoteId) (d : Option DesiredQuote)
    (w : Option WorkingQuote)
    → cancels_of policy now k d w ++ places_of policy now w d ≡ plan policy now k d w
unfolding cancel_for place_for
plan-append policy now k none none = refl
plan-append policy now k none (some w) = ground arith
plan-append policy now k (some d) none = refl
plan-append policy now k (some d) (some w) = ground arith

own_ids : (qs : List DesiredQuote) → Keyed (map (λ q. (q.quote_id, q)) qs)
own_ids [] = tt
own_ids (q ∷ qs) = (refl, own_ids qs)

pub desired_by_id-Keyed : (desired : DesiredQuotes) → Keyed (desired_by_id desired)
desired_by_id-Keyed desired =
    unfold desired_by_id in
    (All-collect (λ e. e.0 ≡ e.1.quote_id) (map (λ q. (q.quote_id, q)) desired.quotes)
      (own_ids desired.quotes))

desired_by_id-IsSorted : (desired : DesiredQuotes) → IsSorted (desired_by_id desired)
desired_by_id-IsSorted desired =
    unfold desired_by_id in (collect-IsSorted (map (λ q. (q.quote_id, q)) desired.quotes))

working_by_id-IsSorted : (working : List WorkingQuote) → IsSorted (working_by_id working)
working_by_id-IsSorted working =
    unfold working_by_id in (collect-IsSorted (map (λ q. (q.quote_id, q)) working))

-- The commands of both loops for one id.
pub commands_for-loops :
    (policy : ReconciliationPolicy) (now : ℕ) (k : QuoteId) (desired : DesiredQuotes)
    (working : List WorkingQuote)
    → let wanted = desired_by_id desired in
      let current = working_by_id working in
      commands_for k (cancels policy now wanted current ++ placements policy now current wanted)
      ≡ plan policy now k (lookup k wanted) (lookup k current)
commands_for-loops policy now k desired working =
    let wanted = desired_by_id desired in
    let current = working_by_id working in
    keep-append (is_for k) (cancels policy now wanted current)
      (placements policy now current wanted)
    ∙ (ap₂ (◌++◌)
          (commands_for-cancels policy now k wanted current (working_by_id-IsSorted working))
          (commands_for-placements policy now k current wanted (desired_by_id-IsSorted desired)
            (desired_by_id-Keyed desired))
        ∙ plan-append policy now k (lookup k wanted) (lookup k current))

reconcile-commands :
    (manager : LocalOrderManager) (desired : DesiredQuotes) (working : List WorkingQuote) (now : ℕ)
    → is_empty (blocked_ids working) ≡ true
    → is_empty (desired_by_id desired) && any is_cancelable working ≡ false
    → (reconcile manager desired working now).commands
      ≡ cancels manager.policy now (desired_by_id desired) (working_by_id working)
        ++ placements manager.policy now (working_by_id working) (desired_by_id desired)
reconcile-commands manager desired working now h e = unfold reconcile in rw (h, e)

-- With no unknown quote, and unless everything is to be canceled, `reconcile` commands for each id
-- exactly what the plan says, a cancel before the placement that replaces it.
pub commands_for-reconcile :
    (manager : LocalOrderManager) (desired : DesiredQuotes) (working : List WorkingQuote) (now : ℕ)
    (k : QuoteId)
    → is_empty (blocked_ids working) ≡ true
    → is_empty (desired_by_id desired) && any is_cancelable working ≡ false
    → commands_for k (reconcile manager desired working now).commands
      ≡ plan manager.policy now k
          (lookup k (desired_by_id desired))
          (lookup k (working_by_id working))
commands_for-reconcile manager desired working now k h e =
    rw (reconcile-commands manager desired working now h e)
      (commands_for-loops manager.policy now k desired working)
