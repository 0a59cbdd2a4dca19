-- ===== src/OrderManager.antt =====
-- crates/pm-executor/src/order_manager.rs: from what should rest and what does, the commands that
-- close the gap. The mutex round the seen fill ids is the manager's second field; a method that
-- changes it returns the new manager. `units` are millionths.
pub mod Sync
pub mod Plan
pub mod Converge
pub mod Blocking
pub mod Settled
pub mod Resync
pub mod Recovery
pub mod Exposure
use rtt.Prelude.{
  ℕ, ◌-◌, ◌*◌, ◌/◌, ◌≡◌, Bool, true, false, not, ◌&&◌, ◌||◌, Option, none, some, List, [], ◌∷◌,
  ◌++◌, map, keep, any, leb, if◌then◌else◌, saturating_sub, abs_diff,
}
use rtt.Order.{Text, same, text_ord}
use rtt.BTreeMap.{BTreeMap, BTreeSet, lookup, insert, collect, contains}
use rtt.Units.{scale, parse_units, format_units}
use rtt.Trigger.{Side, side_eq, order_type_eq}
use rtt.Quote.{QuoteId, DesiredQuote, DesiredQuotes}
use rtt.OrderState.{
  WorkingQuote, ExchangeObservedQuote, blocks_convergence, is_cancelable, mark_reconnect_stale,
  mark_unknown_if_timed_out, apply_exchange_observation, apply_authoritative_absence,
}

pub data ExecutionCommand : Type 0 where
  place : DesiredQuote → ExecutionCommand
  cancel : QuoteId → ExecutionCommand
  cancel_all : ExecutionCommand

pub record ReconciliationPolicy : Type 0 where
  pub min_price_change_units : ℕ
  pub min_size_change_units : ℕ
  pub replace_cooldown_ms : ℕ
  pub submit_timeout_ms : ℕ
  pub cancel_timeout_ms : ℕ

abbrev pub default_policy : ReconciliationPolicy
default_policy = record {
  min_price_change_units = 1;
  min_size_change_units = 1;
  replace_cooldown_ms = 0;
  submit_timeout_ms = 5_000;
  cancel_timeout_ms = 5_000;
}

pub record ExchangeFill : Type 0 where
  pub fill_id : Text
  pub asset_id : Text
  pub side : Side
  pub filled_size : Text
  pub price : Text
  pub observed_at_ms : ℕ

pub record ExchangeSyncSnapshot : Type 0 where
  pub authoritative : Bool
  pub resync_pending : Bool
  pub quotes : List ExchangeObservedQuote
  pub fills : List ExchangeFill
  pub observed_at_ms : ℕ

pub record ExposureDelta : Type 0 where
  pub asset_id : Text
  pub side : Side
  pub filled_size_delta : Text
  pub notional_delta : Text
  pub observed_at_ms : ℕ

pub record ReconciliationOutcome : Type 0 where
  pub commands : List ExecutionCommand
  pub blocked : Bool
  pub blocked_quotes : List QuoteId
  pub working : List WorkingQuote
  pub resync_required : Bool
  pub exposure_deltas : List ExposureDelta

pub record LocalOrderManager : Type 0 where
  pub policy : ReconciliationPolicy
  pub seen_fill_ids : BTreeSet Text

abbrev pub new : ReconciliationPolicy → LocalOrderManager
new policy = record { policy = policy; seen_fill_ids = [] }

unfoldable pub cooldown_elapsed : ReconciliationPolicy → WorkingQuote → ℕ → Bool
cooldown_elapsed policy quote now_ms = elim quote.last_command_ms [
  | none ↦ true
  | some last ↦ leb policy.replace_cooldown_ms (saturating_sub now_ms last)
]

unfoldable pub is_material_change : ReconciliationPolicy → WorkingQuote → DesiredQuote → Bool
is_material_change policy working desired =
    let price_delta = abs_diff (parse_units working.price) (parse_units desired.price) in
    let size_delta = abs_diff (parse_units working.size) (parse_units desired.size) in
    if not (same working.asset_id desired.asset_id)
      || not (side_eq working.side desired.side)
      || not (order_type_eq working.order_type desired.order_type)
    then true
    else leb policy.min_price_change_units price_delta
      || leb policy.min_size_change_units size_delta

abbrev pub replaces : ReconciliationPolicy → ℕ → WorkingQuote → DesiredQuote → Bool
replaces policy now_ms working desired =
    is_material_change policy working desired && cooldown_elapsed policy working now_ms

unfoldable pub blocked_ids : List WorkingQuote → List QuoteId
blocked_ids working = map (λ q. q.quote_id) (keep blocks_convergence working)

-- `collect()` into a map: of two quotes with one id the later counts.
unfoldable pub desired_by_id : DesiredQuotes → BTreeMap QuoteId DesiredQuote
desired_by_id desired = collect (map (λ q. (q.quote_id, q)) desired.quotes)

unfoldable pub working_by_id : List WorkingQuote → BTreeMap QuoteId WorkingQuote
working_by_id working = collect (map (λ q. (q.quote_id, q)) working)

-- One round of each `for` loop of `reconcile`, with what it pushes.
unfoldable pub cancel_for :
    ReconciliationPolicy → ℕ → Option DesiredQuote → QuoteId → WorkingQuote → List ExecutionCommand
cancel_for policy now_ms none quote_id quote =
    if is_cancelable quote then cancel quote_id ∷ [] else []
cancel_for policy now_ms (some desired) quote_id quote =
    if is_cancelable quote && replaces policy now_ms quote desired then cancel quote_id ∷ [] else []

unfoldable pub place_for :
    ReconciliationPolicy → ℕ → Option WorkingQuote → DesiredQuote → List ExecutionCommand
place_for policy now_ms none desired = place desired ∷ []
place_for policy now_ms (some working) desired =
    if not (is_cancelable working)
    then place desired ∷ []
    else (if replaces policy now_ms working desired then place desired ∷ [] else [])

unfoldable pub cancels :
    ReconciliationPolicy
    → ℕ
    → BTreeMap QuoteId DesiredQuote
    → BTreeMap QuoteId WorkingQuote
    → List ExecutionCommand
cancels policy now_ms desired [] = []
cancels policy now_ms desired ((quote_id, quote) ∷ working) =
    cancel_for policy now_ms (lookup quote_id desired) quote_id quote
    ++ cancels policy now_ms desired working

unfoldable pub placements :
    ReconciliationPolicy
    → ℕ
    → BTreeMap QuoteId WorkingQuote
    → BTreeMap QuoteId DesiredQuote
    → List ExecutionCommand
placements policy now_ms working [] = []
placements policy now_ms working ((quote_id, quote) ∷ desired) =
    place_for policy now_ms (lookup quote_id working) quote
    ++ placements policy now_ms working desired

abbrev pub is_empty {ℓ} : {A : Type ℓ} → List A → Bool
is_empty [] = true
is_empty (x ∷ xs) = false

-- The three literals of `reconcile`.
abbrev pub outcome :
    List ExecutionCommand → Bool → List QuoteId → List WorkingQuote → ReconciliationOutcome
outcome commands blocked blocked_quotes working = record {
  commands = commands;
  blocked = blocked;
  blocked_quotes = blocked_quotes;
  working = working;
  resync_required = false;
  exposure_deltas = [];
}

unfoldable pub reconcile :
    LocalOrderManager → DesiredQuotes → List WorkingQuote → ℕ → ReconciliationOutcome
reconcile manager desired working now_ms =
    let blocked_quotes = blocked_ids working in
    let wanted = desired_by_id desired in
    let current = working_by_id working in
    if not (is_empty blocked_quotes)
    then outcome [] true blocked_quotes working
    else if is_empty wanted && any is_cancelable working
    then outcome (cancel_all ∷ []) false [] working
    else outcome
        (cancels manager.policy now_ms wanted current
          ++ placements manager.policy now_ms current wanted)
        false [] working
