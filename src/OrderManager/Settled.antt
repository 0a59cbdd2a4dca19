-- ===== src/OrderManager/Settled.antt =====
-- Quotes that rest as wanted are left alone.
use rtt.Prelude.{ℕ, ◌<◌, ◌≡◌, refl, ◌∙◌, true, false, Option, none, some, List, [], ◌∷◌, arith}
use rtt.Order.{same_self, text_ord}
use rtt.BTreeMap.{BTreeMap, lookup}
use rtt.Trigger.{Side, OrderType, side_eq, order_type_eq, buy, sell, gtc, gtd, fok, fak}
use rtt.Quote.{QuoteId, DesiredQuote, DesiredQuotes}
use rtt.OrderState.{WorkingQuote, is_cancelable}
use rtt.OrderManager.{
  ReconciliationPolicy, LocalOrderManager, is_material_change, desired_by_id, working_by_id,
  blocked_ids, is_empty, reconcile,
}
use rtt.OrderManager.Plan.{commands_for, plan, commands_for-reconcile}
use rtt.OrderManager.Converge.{terms}

side_eq_self : (s : Side) → side_eq s s ≡ true
side_eq_self buy = refl
side_eq_self sell = refl

order_type_eq_self : (t : OrderType) → order_type_eq t t ≡ true
order_type_eq_self gtc = refl
order_type_eq_self gtd = refl
order_type_eq_self fok = refl
order_type_eq_self fak = refl

-- A quote on its own terms is no material change, if the policy asks for a change of at least a unit.
own_terms-immaterial :
    (policy : ReconciliationPolicy) (w : WorkingQuote)
    → 0 < policy.min_price_change_units
    → 0 < policy.min_size_change_units
    → is_material_change policy w (terms w) ≡ false
unfolding is_material_change
own_terms-immaterial policy w p s =
    ground (arith, same_self w.asset_id, side_eq_self w.side, order_type_eq_self w.order_type)

-- Whether the quote wanted for an id is the live one that works.
abbrev pub Rests : Option DesiredQuote → Option WorkingQuote → Type 0
Rests (some d) (some w) = (d ≡ terms w) × (is_cancelable w ≡ true)
Rests _ _ = ⊥

plan-settled :
    (policy : ReconciliationPolicy) (now : ℕ) (k : QuoteId) (d : Option DesiredQuote)
    (w : Option WorkingQuote)
    → 0 < policy.min_price_change_units
    → 0 < policy.min_size_change_units
    → Rests d w
    → plan policy now k d w ≡ []
plan-settled policy now k none w p s r = absurd r
plan-settled policy now k (some d) none p s r = absurd r
plan-settled policy now k (some d) (some w) p s r =
    ground (arith, own_terms-immaterial policy w p s)

Rests-ne-nil :
    (k : QuoteId) (m : BTreeMap QuoteId DesiredQuote) (w : Option WorkingQuote)
    → Rests (lookup k m) w
    → is_empty m ≡ false
unfolding lookup
Rests-ne-nil k [] w r = absurd r
Rests-ne-nil k (e ∷ m) w r = refl

-- Once what is wanted for an id rests on the same terms, and the policy asks for a change of at least
-- one unit, no command for that id is given, however often `reconcile` runs.
pub reconcile-settled :
    (manager : LocalOrderManager) (desired : DesiredQuotes) (working : List WorkingQuote) (now : ℕ)
    (k : QuoteId)
    → 0 < manager.policy.min_price_change_units
    → 0 < manager.policy.min_size_change_units
    → is_empty (blocked_ids working) ≡ true
    → Rests (lookup k (desired_by_id desired)) (lookup k (working_by_id working))
    → commands_for k (reconcile manager desired working now).commands ≡ []
reconcile-settled manager desired working now k p s h r =
    let wanted = desired_by_id desired in
    let current = working_by_id working in
    let some_wanted = Rests-ne-nil k wanted (lookup k current) r in
    commands_for-reconcile manager desired working now k h (ground (arith, some_wanted))
    ∙ plan-settled manager.policy now k (lookup k wanted) (lookup k current) p s r
