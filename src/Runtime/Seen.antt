-- ===== src/Runtime/Seen.antt =====
-- What a runtime of crates/pm-strategy/src/runtime.rs has seen: the subjects of the notices that concern it.
use rtt.Prelude.{
  ◌≡◌, refl, ap, ◌∙◌, Bool, true, false, ◌&&◌, ◌||◌, List, [], ◌∷◌, any, arith, Bool-cases, inl,
  inr,
}
use rtt.Order.{Text, text_ord, pair_ord, same}
use rtt.BTreeMap.{BTreeSet, contains, insert, lookup}
use rtt.BTreeMap.Lookup.{lookup-insert}
use rtt.Events.{UpdateNotice}
use rtt.HotState.Store.{HotStateStore}
use rtt.Strategy.{StrategyRequirements}
use rtt.Runtime.{
  RuntimeTopologyPlan, SharedRuntimeScaffold, new_scaffold, from_requirements, is_relevant_notice,
  resolve_view, subject_key, same_subject,
}

-- The scaffold after some notices, each with what the store held at its time.
abbrev pub after_notices :
    List (HotStateStore × UpdateNotice) → SharedRuntimeScaffold → SharedRuntimeScaffold
after_notices [] scaffold = scaffold
after_notices ((store, notice) ∷ notices) scaffold =
    after_notices notices (resolve_view store scaffold notice).1

abbrev pub concerns : RuntimeTopologyPlan → UpdateNotice → Bool
concerns plan notice = any (λ input. same_subject input.subject notice.subject) plan.inputs

contains-insert :
    (p q : Text) (seen : BTreeSet Text)
    → contains p (insert q tt seen) ≡ (same p q || contains p seen)
unfolding contains
contains-insert p q seen = ground (arith, lookup-insert p q tt seen)

step_seen :
    (store : HotStateStore) (scaffold : SharedRuntimeScaffold) (notice : UpdateNotice) (key : Text)
    → let after = (resolve_view store scaffold notice).1 in
      (after.topology ≡ scaffold.topology)
      × (contains key after.seen_subjects ≡ (
          (concerns scaffold.topology notice && same key (subject_key notice.subject))
          || contains key scaffold.seen_subjects))
unfolding resolve_view is_relevant_notice
step_seen store scaffold notice key = elim (Bool-cases (concerns scaffold.topology notice)) [
  | inl e ↦ rw e (refl, contains-insert key (subject_key notice.subject) scaffold.seen_subjects)
  | inr e ↦ rw e (refl, refl)
]

seen_of_plan :
    (plan : RuntimeTopologyPlan) (notices : List (HotStateStore × UpdateNotice))
    (scaffold : SharedRuntimeScaffold) (key : Text)
    → scaffold.topology ≡ plan
    → contains key (after_notices notices scaffold).seen_subjects ≡ (
        any
          (λ (store, notice). concerns plan notice && same key (subject_key notice.subject))
          notices
        || contains key scaffold.seen_subjects)
seen_of_plan plan [] scaffold key h = refl
seen_of_plan plan ((store, notice) ∷ notices) scaffold key h =
    let (kept, seen) = step_seen store scaffold notice key in
    let after = (resolve_view store scaffold notice).1 in
    let rest = seen_of_plan plan notices after key (kept ∙ h) in
    let mine : concerns scaffold.topology notice ≡ concerns plan notice =
      ap (λ plan. concerns plan notice) h in
    ground (arith, rest, seen, mine)

or_nothing : (b : Bool) (key : Text) → (b || contains {V = Unit {0}} key []) ≡ b
unfolding contains lookup
or_nothing true key = refl
or_nothing false key = refl

-- A runtime that starts with some requirements has, after any notices, seen exactly the subjects of those
-- notices that are about one of its inputs, by the text that stands for a subject.
pub after_notices-seen :
    (requirements : StrategyRequirements) (notices : List (HotStateStore × UpdateNotice))
    (key : Text)
    → contains key (after_notices notices (new_scaffold requirements)).seen_subjects
      ≡ any
          (λ (store, notice).
            concerns (from_requirements requirements) notice
            && same key (subject_key notice.subject))
          notices
unfolding new_scaffold
after_notices-seen requirements notices key =
    seen_of_plan (from_requirements requirements) notices (new_scaffold requirements) key refl
    ∙ or_nothing _ key
