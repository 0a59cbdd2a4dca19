-- ===== src/Runtime.antt =====
-- crates/pm-strategy/src/runtime.rs: which inputs a strategy is given, and the view of the hot state
-- that a notice leads to. The store is shared with the feed, so each call is given what it holds then.
pub mod Runs
pub mod Views
pub mod Seen
use rtt.Prelude.{
  ℕ, zero, suc, ◌+◌, ◌&&◌, Bool, true, false, List, [], ◌∷◌, ◌++◌, Option, none, some, any,
  if◌then◌else◌, not,
}
use rtt.Order.{Text, text, text_ord, pair_ord, same}
use rtt.BTreeMap.{BTreeSet, contains, insert}
use rtt.Decimal.{to_decimal}
use rtt.Trigger.{side_eq, OrderBookSnapshot, TriggerMessage}
use rtt.Quote.{DesiredQuotes}
use rtt.Events.{
  InstrumentRef, market, symbol, asset_ref, source_ref, kind_text, SourceKind, polymarket_ws,
  external_reference, external_trade, synthetic, UpdateNotice,
}
use rtt.HotState.{option_then}
use rtt.HotState.Store.{HotStateStore, HotBookState, HotReferenceState, from_subject}
use rtt.HotState.Facade.{
  HotStateView, book_view, reference_view, resolve_notice, book_state, reference_state,
  project_snapshot,
}
use rtt.Strategy.{
  ExecutionMode, IsolationPolicy, shared_feed_acceptable, dedicated_preferred, dedicated_required,
  StrategyDataRequirementKind, polymarket_bbo, polymarket_depth_top_n, external_reference_price,
  recent_trades, reward_metadata, inventory_data, live_order_state, RequirementSelector, of_asset,
  of_symbol, of_market, of_source, StrategyDataRequirement, StrategyRequirements, InventoryPosition,
  InventoryDelta, StrategyRuntimeView, Strategy, TriggerStrategy, QuoteStrategy,
}
use rtt.Inventory.{InventoryStore, apply_delta, positions_for}

pub data ProvisionedTopology : Type 0 where
  shared dedicated : ProvisionedTopology

pub record ProvisionedInput : Type 0 where
  pub requirement : StrategyDataRequirement
  pub source_id : Text
  pub source_kind : SourceKind
  pub subject : InstrumentRef
  pub topology : ProvisionedTopology
  pub instance_key : Text

pub record RuntimeTopologyPlan : Type 0 where
  pub execution_mode : ExecutionMode
  pub isolation_policy : IsolationPolicy
  pub inputs : List ProvisionedInput

-- What a requirement is read from: a book, a reference price, or the inventory.
pub data InputClass : Type 0 where
  book_input reference_input inventory_input : InputClass

abbrev pub input_class : StrategyDataRequirementKind → InputClass
input_class polymarket_bbo = book_input
input_class (polymarket_depth_top_n levels) = book_input
input_class reward_metadata = book_input
input_class external_reference_price = reference_input
input_class recent_trades = reference_input
input_class inventory_data = inventory_input
input_class live_order_state = inventory_input

abbrev pub default_source_id : StrategyDataRequirementKind → Text
default_source_id external_reference_price = text "external-reference"
default_source_id recent_trades = text "external-trades"
default_source_id inventory_data = text "strategy-runtime"
default_source_id live_order_state = text "strategy-runtime"
default_source_id _ = text "polymarket-public"

abbrev pub default_source_kind : StrategyDataRequirementKind → SourceKind
default_source_kind external_reference_price = external_reference
default_source_kind recent_trades = external_trade
default_source_kind inventory_data = synthetic
default_source_kind live_order_state = synthetic
default_source_kind _ = polymarket_ws

abbrev selected_source : StrategyDataRequirementKind → RequirementSelector → Text
selected_source kind (of_source source_id) = source_id
selected_source kind _ = default_source_id kind

unfoldable pub provision_source : StrategyDataRequirement → Text × SourceKind
provision_source requirement =
    (selected_source requirement.kind requirement.selector, default_source_kind requirement.kind)

abbrev subject_for : RequirementSelector → Text → InstrumentRef
subject_for (of_asset asset_id) source_id = asset_ref source_id asset_id
subject_for (of_market market_id) source_id = record {
  source_id = source_id;
  kind = market;
  instrument_id = market_id;
}
subject_for (of_symbol ticker) source_id = record {
  source_id = source_id;
  kind = symbol;
  instrument_id = ticker;
}
subject_for (of_source _) source_id = source_ref source_id

unfoldable pub provision_subject : StrategyDataRequirement → Text → InstrumentRef
provision_subject requirement source_id = subject_for requirement.selector source_id

abbrev pub topology_of : IsolationPolicy → ProvisionedTopology
topology_of shared_feed_acceptable = shared
topology_of dedicated_preferred = dedicated
topology_of dedicated_required = dedicated

unfoldable pub instance_key : ProvisionedTopology → Text → ℕ → Text
instance_key shared source_id index = text "shared:" ++ source_id
instance_key dedicated source_id index = text "dedicated:" ++ source_id ++ b':' ∷ to_decimal index

abbrev pub provision : ProvisionedTopology → ℕ → StrategyDataRequirement → ProvisionedInput
provision topology index requirement =
    let (source_id, source_kind) = provision_source requirement in
    record {
      requirement = requirement;
      source_id = source_id;
      source_kind = source_kind;
      subject = provision_subject requirement source_id;
      topology = topology;
      instance_key = instance_key topology source_id index;
    }

-- `iter().enumerate().map`, from an index on.
abbrev pub provision_all :
    ProvisionedTopology → ℕ → List StrategyDataRequirement → List ProvisionedInput
provision_all topology index [] = []
provision_all topology index (requirement ∷ requirements) =
    provision topology index requirement ∷ provision_all topology (suc index) requirements

unfoldable pub from_requirements : StrategyRequirements → RuntimeTopologyPlan
from_requirements requirements = record {
  execution_mode = requirements.execution_mode;
  isolation_policy = requirements.isolation_policy;
  inputs = provision_all (topology_of requirements.isolation_policy) 0 requirements.data_needed;
}

-- The pushes of what is not there yet.
abbrev pub push_unique {ℓ} : {A : Type ℓ} → (A → A → Bool) → List A → A → List A
push_unique alike xs x = if any (λ existing. alike existing x) xs then xs else xs ++ x ∷ []

abbrev pub same_book : HotBookState → HotBookState → Bool
same_book a b = same a.notice.source_id b.notice.source_id && same a.asset_id b.asset_id

abbrev pub same_reference : HotReferenceState → HotReferenceState → Bool
same_reference a b =
    same a.notice.source_id b.notice.source_id
    && same a.notice.subject.instrument_id b.notice.subject.instrument_id

abbrev pub same_position : InventoryPosition → InventoryPosition → Bool
same_position a b = same a.asset_id b.asset_id && side_eq a.side b.side

unfoldable pub subject_key : InstrumentRef → Text
subject_key subject =
    subject.source_id ++ b':' ∷ (kind_text subject.kind ++ b':' ∷ subject.instrument_id)

-- The derived `==`: the three fields are equal.
abbrev pub same_subject : InstrumentRef → InstrumentRef → Bool
same_subject a b = same (from_subject a) (from_subject b)

pub record SharedRuntimeScaffold : Type 0 where
  pub topology : RuntimeTopologyPlan
  pub seen_subjects : BTreeSet Text
  pub inventory : InventoryStore

unfoldable pub new_scaffold : StrategyRequirements → SharedRuntimeScaffold
new_scaffold requirements = record {
  topology = from_requirements requirements;
  seen_subjects = [];
  inventory = [];
}

unfoldable pub apply_inventory_delta :
    SharedRuntimeScaffold → InventoryDelta → SharedRuntimeScaffold
apply_inventory_delta scaffold delta = record scaffold {
  inventory = apply_delta scaffold.inventory delta;
}

abbrev pub book_of : Option HotStateView → Option HotBookState
book_of (some (book_view state)) = some state
book_of _ = none

abbrev reference_of : Option HotStateView → Option HotReferenceState
reference_of (some (reference_view state)) = some state
reference_of _ = none

-- The three vectors that a view is made of.
pub record Gathered : Type 0 where
  pub books : List HotBookState
  pub references : List HotReferenceState
  pub inventory : List InventoryPosition

abbrev pub push_book : List HotBookState → Option HotBookState → List HotBookState
push_book books none = books
push_book books (some state) = push_unique same_book books state

abbrev pub push_reference :
    List HotReferenceState → Option HotReferenceState → List HotReferenceState
push_reference references none = references
push_reference references (some state) = push_unique same_reference references state

abbrev pub push_inventory : List InventoryPosition → List InventoryPosition → List InventoryPosition
push_inventory inventory [] = inventory
push_inventory inventory (position ∷ positions) =
    push_inventory (push_unique same_position inventory position) positions

module _ (store : HotStateStore) (scaffold : SharedRuntimeScaffold) (notice : UpdateNotice) where
  unfoldable pub is_relevant_notice : Bool
  is_relevant_notice =
      any (λ input. same_subject input.subject notice.subject) scaffold.topology.inputs

  unfoldable pub resolve_book : ProvisionedInput → Option HotBookState
  resolve_book input =
      if same_subject input.subject notice.subject
      then book_of (resolve_notice store notice)
      else if not (contains (subject_key input.subject) scaffold.seen_subjects)
      then none
      else book_state store input.subject.source_id input.subject.instrument_id

  unfoldable pub resolve_reference : ProvisionedInput → Option HotReferenceState
  resolve_reference input =
      if same_subject input.subject notice.subject
      then reference_of (resolve_notice store notice)
      else if not (contains (subject_key input.subject) scaffold.seen_subjects)
      then none
      else reference_state store input.subject

  -- One round of the loop over the inputs, by what the requirement is read from.
  unfoldable pub gather_input : ProvisionedInput → InputClass → Gathered → Gathered
  gather_input input book_input got = record got {
    books = push_book got.books (resolve_book input);
  }
  gather_input input reference_input got = record got {
    references = push_reference got.references (resolve_reference input);
  }
  gather_input input inventory_input got = record got {
    inventory =
        push_inventory got.inventory (positions_for scaffold.inventory input.requirement.selector);
  }

  unfoldable pub gather : List ProvisionedInput → Gathered → Gathered
  unfolding gather_input
  gather [] got = got
  gather (input ∷ inputs) got =
      gather inputs (gather_input input (input_class input.requirement.kind) got)

  unfoldable pub resolve_view : Option StrategyRuntimeView × SharedRuntimeScaffold
  resolve_view =
      if not is_relevant_notice
      then (none, scaffold)
      else (let got =
            gather scaffold.topology.inputs
              (record { books = []; references = []; inventory = [] }) in
          (
            some (record {
              notice = notice;
              books = got.books;
              references = got.references;
              inventory = got.inventory;
            }),
            record scaffold {
              seen_subjects = insert (subject_key notice.subject) tt scaffold.seen_subjects;
            },
          ))
