-- ===== src/OrderManager/Converge.antt =====
-- The commands of `reconcile`, carried out by an exchange that holds at most one order for an id.
-- The exchange is a specification, not code: it refuses a placement where an order rests, and a
-- cancel where none does.
use rtt.Prelude.{
  ℕ, ◌≡◌, refl, inl, inr, Bool, true, not, ◌&&◌, Bool-cases, Option-cases, Option, none, some, List,
  [], ◌∷◌, any, if◌then◌else◌, arith,
}
use rtt.Order.{same_self, eq_of_same, text_ord}
use rtt.BTreeMap.{BTreeMap, lookup}
use rtt.Quote.{QuoteId, DesiredQuote, DesiredQuotes}
use rtt.OrderState.{WorkingQuote, is_cancelable}
use rtt.OrderManager.{
  is_material_change, cooldown_elapsed, ExecutionCommand, place, cancel, cancel_all,
  ReconciliationPolicy, LocalOrderManager, desired_by_id, working_by_id, reconcile, blocked_ids,
  is_empty,
}
use rtt.OrderManager.Plan.{
  is_for, commands_for, plan, commands_for-reconcile, Keyed, desired_by_id-Keyed,
}

-- The order that rests for one id, if any, before and after a command for it; `none` is a refusal.
abbrev pub Slot : Type 0
Slot = Option DesiredQuote

abbrev pub carry_out : ExecutionCommand → Slot → Option Slot
carry_out (place d) none = some (some d)
carry_out (place d) (some resting) = none
carry_out (cancel id) none = none
carry_out (cancel id) (some resting) = some none
carry_out cancel_all slot = some none

-- What becomes of the slot of `k` under all commands, in order.
pub execute : QuoteId → List ExecutionCommand → Slot → Option Slot
execute k [] slot = some slot
execute k (c ∷ cs) slot =
    if is_for k c
    then elim (carry_out c slot) [ none ↦ none | some after ↦ execute k cs after ]
    else execute k cs slot

execute-commands_for :
    (k : QuoteId) (cs : List ExecutionCommand) (slot : Slot)
    → execute k (commands_for k cs) slot ≡ execute k cs slot
unfolding execute
execute-commands_for k [] slot = refl
execute-commands_for k (c ∷ cs) slot = elim (Bool-cases (is_for k c)) [
  | inl here ↦ elim (Option-cases (carry_out c slot)) [
    | inl refused ↦ ground arith
    | inr (after, done) ↦ ground (arith, execute-commands_for k cs after)
  ]
  | inr there ↦ rw there (execute-commands_for k cs slot)
]

-- The terms under which a working quote rests.
abbrev pub terms : WorkingQuote → DesiredQuote
terms w = record {
  quote_id = w.quote_id;
  asset_id = w.asset_id;
  side = w.side;
  price = w.price;
  size = w.size;
  order_type = w.order_type;
}

-- The slot before the commands: of the working quotes under an id the last counts, while it is live.
abbrev pub resting : Option WorkingQuote → Slot
resting none = none
resting (some w) = if is_cancelable w then some (terms w) else none

-- The slot that is aimed at: what is wanted, but a live quote that need not be replaced stays.
abbrev pub target : ReconciliationPolicy → ℕ → Option DesiredQuote → Option WorkingQuote → Slot
target policy now none w = none
target policy now (some d) none = some d
target policy now (some d) (some w) =
    if is_cancelable w && not (is_material_change policy w d && cooldown_elapsed policy w now)
    then some (terms w)
    else some d

abbrev IsOwn : QuoteId → Option DesiredQuote → Type 0
IsOwn k none = Unit
IsOwn k (some d) = k ≡ d.quote_id

execute-plan :
    (policy : ReconciliationPolicy) (now : ℕ) (k : QuoteId) (d : Option DesiredQuote)
    (w : Option WorkingQuote)
    → IsOwn k d
    → execute k (plan policy now k d w) (resting w) ≡ some (target policy now d w)
unfolding execute
execute-plan policy now k none none own = refl
execute-plan policy now k none (some w) own = ground (arith, same_self k)
execute-plan policy now k (some d) none own = ground (arith, same_self k)
execute-plan policy now k (some d) (some w) own = ground (arith, same_self k)

Keyed-lookup : (k : QuoteId) (m : BTreeMap QuoteId DesiredQuote) → Keyed m → IsOwn k (lookup k m)
unfolding lookup
Keyed-lookup k [] h = tt
Keyed-lookup k ((id, d) ∷ m) h = ground (arith, Keyed-lookup k m h.1, eq_of_same k id)

left_true : (a b : Bool) → a && b ≡ true → a ≡ true
left_true a b h = ground arith

lookup_empty :
    (k : QuoteId) (m : BTreeMap QuoteId DesiredQuote) → is_empty m ≡ true → lookup k m ≡ none
unfolding lookup
lookup_empty k [] h = refl
lookup_empty k (e ∷ m) h = ground arith

reconcile-cancel_all :
    (manager : LocalOrderManager) (desired : DesiredQuotes) (working : List WorkingQuote) (now : ℕ)
    → is_empty (blocked_ids working) ≡ true
    → is_empty (desired_by_id desired) && any is_cancelable working ≡ true
    → (reconcile manager desired working now).commands ≡ cancel_all ∷ []
reconcile-cancel_all manager desired working now h e = unfold reconcile in rw (h, e)

-- With no unknown quote, the exchange accepts every command for every id, so no order is placed
-- while another rests under its id, and what rests in the end is the target: what is wanted, or the
-- live quote that differs too little or was commanded too recently.
pub reconcile-converges :
    (manager : LocalOrderManager) (desired : DesiredQuotes) (working : List WorkingQuote) (now : ℕ)
    (k : QuoteId)
    → is_empty (blocked_ids working) ≡ true
    → let d = lookup k (desired_by_id desired) in
      let w = lookup k (working_by_id working) in
      execute k (reconcile manager desired working now).commands (resting w)
      ≡ some (target manager.policy now d w)
reconcile-converges manager desired working now k h =
    let wanted = desired_by_id desired in
    let d = lookup k wanted in
    let w = lookup k (working_by_id working) in
    elim (Bool-cases (is_empty wanted && any is_cancelable working)) [
      | inl all ↦
          rw
            (
              reconcile-cancel_all manager desired working now h all,
              lookup_empty k wanted (left_true _ _ all),
            )
            (unfold execute in refl)
      | inr part ↦
          rw
            (
              ← execute-commands_for k (reconcile manager desired working now).commands (resting w),
              commands_for-reconcile manager desired working now k h part,
            )
            (execute-plan manager.policy now k d w
              (Keyed-lookup k wanted (desired_by_id-Keyed desired)))
    ]
