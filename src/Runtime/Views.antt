-- ===== src/Runtime/Views.antt =====
-- The views of crates/pm-strategy/src/runtime.rs hold the current books of the strategy's own inputs, each
-- once.
use rtt.Prelude.{
  ◌≡◌, ◌⊎◌, inl, inr, Bool, true, false, List, [], ◌∷◌, ◌++◌, Option, none, some, any, All,
  All-append, All-imp, any-eq-false, Bool-cases, arith, refl, subst,
}
use rtt.Order.{text_ord, pair_ord, same_self}
use rtt.BTreeMap.{contains}
use rtt.Events.{UpdateNotice}
use rtt.HotState.Store.{HotStateStore, HotBookState, HotReferenceState, from_subject}
use rtt.HotState.Facade.{book_state, resolve_notice, resolve_book_notice}
use rtt.Strategy.{StrategyRuntimeView, InventoryPosition}
use rtt.Inventory.{positions_for}
use rtt.Runtime.{
  ProvisionedInput, InputClass, book_input, reference_input, inventory_input, push_unique,
  same_book, same_reference, same_position, subject_key, same_subject, SharedRuntimeScaffold,
  Gathered, push_book, push_reference, push_inventory, book_of, resolve_book, gather_input, gather,
  resolve_view,
}

-- No entry is like an earlier one.
abbrev pub Distinct {ℓ} : {A : Type ℓ} → (A → A → Bool) → List A → Type 0
Distinct alike [] = Unit
Distinct alike (x ∷ xs) = All (λ y. alike x y ≡ false) xs × Distinct alike xs

module _ {ℓ} {A : Type ℓ} (alike : A → A → Bool) where
  Distinct-snoc :
      (xs : List A) (x : A)
      → Distinct alike xs
      → All (λ y. alike y x ≡ false) xs
      → Distinct alike (xs ++ x ∷ [])
  Distinct-snoc [] x d h = (tt, tt)
  Distinct-snoc (y ∷ ys) x d h =
      (All-append (λ z. alike y z ≡ false) ys (x ∷ []) d.0 (h.0, tt), Distinct-snoc ys x d.1 h.1)

  pub push_unique-Distinct :
      (xs : List A) (x : A) → Distinct alike xs → Distinct alike (push_unique alike xs x)
  push_unique-Distinct xs x d = elim (Bool-cases (any (λ y. alike y x) xs)) [
    | inl found ↦ rw found d
    | inr new ↦ rw new (Distinct-snoc xs x d (any-eq-false (λ y. alike y x) xs new))
  ]

  push_unique-All {κ} :
      (P : A → Type κ) (xs : List A) (x : A) → All P xs → P x → All P (push_unique alike xs x)
  push_unique-All P xs x h p = elim (Bool-cases (any (λ y. alike y x) xs)) [
    | inl found ↦ rw found h
    | inr new ↦ rw new (All-append P xs (x ∷ []) h (p, tt))
  ]

push_book-Distinct :
    (books : List HotBookState) (o : Option HotBookState)
    → Distinct same_book books
    → Distinct same_book (push_book books o)
push_book-Distinct books none d = d
push_book-Distinct books (some b) d = push_unique-Distinct same_book books b d

push_reference-Distinct :
    (references : List HotReferenceState) (o : Option HotReferenceState)
    → Distinct same_reference references
    → Distinct same_reference (push_reference references o)
push_reference-Distinct references none d = d
push_reference-Distinct references (some r) d = push_unique-Distinct same_reference references r d

push_inventory-Distinct :
    (inventory positions : List InventoryPosition)
    → Distinct same_position inventory
    → Distinct same_position (push_inventory inventory positions)
push_inventory-Distinct inventory [] d = d
push_inventory-Distinct inventory (p ∷ ps) d =
    push_inventory-Distinct (push_unique same_position inventory p) ps
      (push_unique-Distinct same_position inventory p d)

abbrev AllDistinct : Gathered → Type 0
AllDistinct got =
    Distinct same_book got.books
    × Distinct same_reference got.references
    × Distinct same_position got.inventory

any_self {ℓ} :
    {A : Type ℓ} (alike : A → A → Bool)
    → ((x : A) → alike x x ≡ true)
    → (xs : List A) → All (λ x. any (λ y. alike y x) xs ≡ true) xs
any_self alike self [] = tt
any_self alike self (x ∷ xs) =
    (ground (arith, self x), All-imp (λ z h. ground (arith, h)) xs (any_self alike self xs))

abbrev same_input : ProvisionedInput → ProvisionedInput → Bool
same_input a b = same_subject a.subject b.subject

-- Where a book of a view comes from: the store has it for the subject of the notice, in the version that
-- the notice announces, or for the subject of an input that has been seen.
abbrev pub IsCurrent : HotStateStore → SharedRuntimeScaffold → UpdateNotice → HotBookState → Type 0
IsCurrent store scaffold notice b =
    ((book_state store notice.source_id notice.subject.instrument_id ≡ some b)
      × (b.version ≡ notice.version))
    ⊎ ((input : ProvisionedInput) × (any (λ other. same_input other input) scaffold.topology.inputs
          ≡ true)
        × (contains (subject_key input.subject) scaffold.seen_subjects ≡ true)
        × (book_state store input.subject.source_id input.subject.instrument_id ≡ some b))

module _ (store : HotStateStore) (scaffold : SharedRuntimeScaffold) (notice : UpdateNotice) where
  gather_input-AllDistinct :
      (input : ProvisionedInput) (c : InputClass) (got : Gathered)
      → AllDistinct got
      → AllDistinct (gather_input store scaffold notice input c got)
  unfolding gather_input
  gather_input-AllDistinct input book_input got d = (push_book-Distinct got.books _ d.0, d.1, d.2)
  gather_input-AllDistinct input reference_input got d =
      (d.0, push_reference-Distinct got.references _ d.1, d.2)
  gather_input-AllDistinct input inventory_input got d = (
    d.0,
    d.1,
    push_inventory-Distinct got.inventory
        (positions_for scaffold.inventory input.requirement.selector) d.2,
  )

  gather-AllDistinct :
      (inputs : List ProvisionedInput) (got : Gathered)
      → AllDistinct got
      → AllDistinct (gather store scaffold notice inputs got)
  unfolding gather
  gather-AllDistinct [] got d = d
  gather-AllDistinct (input ∷ inputs) got d =
      gather-AllDistinct inputs (gather_input store scaffold notice input _ got)
        (gather_input-AllDistinct input _ got d)

  announced-current :
      (b : HotBookState)
      → book_of (resolve_notice store notice) ≡ some b
      → (book_state store notice.source_id notice.subject.instrument_id ≡ some b)
        × (b.version ≡ notice.version)
  unfolding resolve_notice resolve_book_notice book_state
  announced-current b h = ground arith

  resolve_book-IsCurrent :
      (input : ProvisionedInput) (b : HotBookState)
      → any (λ other. same_input other input) scaffold.topology.inputs ≡ true
      → resolve_book store scaffold notice input ≡ some b
      → IsCurrent store scaffold notice b
  unfolding resolve_book
  resolve_book-IsCurrent input b own h =
      elim (Bool-cases (same_subject input.subject notice.subject)) [
        | inl e ↦ inl (announced-current b (ground (arith, e, h)))
        | inr e ↦ elim (Bool-cases (contains (subject_key input.subject) scaffold.seen_subjects)) [
          | inl seen ↦ inr (input, own, seen, ground (arith, e, seen, h))
          | inr hidden ↦ ground (arith, e, hidden, h)
        ]
      ]

  push_book-IsCurrent :
      (books : List HotBookState) (o : Option HotBookState)
      → All (IsCurrent store scaffold notice) books
      → ((b : HotBookState) → o ≡ some b → IsCurrent store scaffold notice b)
      → All (IsCurrent store scaffold notice) (push_book books o)
  push_book-IsCurrent books none h f = h
  push_book-IsCurrent books (some b) h f =
      push_unique-All same_book (IsCurrent store scaffold notice) books b h (f b refl)

  gather_input-IsCurrent :
      (input : ProvisionedInput) (c : InputClass) (got : Gathered)
      → any (λ other. same_input other input) scaffold.topology.inputs ≡ true
      → All (IsCurrent store scaffold notice) got.books
      → All (IsCurrent store scaffold notice) (gather_input store scaffold notice input c got).books
  unfolding gather_input
  gather_input-IsCurrent input book_input got own h =
      push_book-IsCurrent got.books (resolve_book store scaffold notice input) h
        (λ b e. resolve_book-IsCurrent input b own e)
  gather_input-IsCurrent input reference_input got own h = h
  gather_input-IsCurrent input inventory_input got own h = h

  gather-IsCurrent :
      (inputs : List ProvisionedInput) (got : Gathered)
      → All (λ input. any (λ other. same_input other input) scaffold.topology.inputs ≡ true) inputs
      → All (IsCurrent store scaffold notice) got.books
      → All (IsCurrent store scaffold notice) (gather store scaffold notice inputs got).books
  unfolding gather
  gather-IsCurrent [] got own h = h
  gather-IsCurrent (input ∷ inputs) got own h =
      gather-IsCurrent inputs (gather_input store scaffold notice input _ got) own.1
        (gather_input-IsCurrent input _ got own.0 h)

-- A view holds no book twice, no reference twice and no position twice, and each of its books is what
-- the store holds: for the subject of the notice, in the version that it announces, or for the subject of
-- one of the strategy's inputs that is among the subjects seen before.
pub resolve_view-books :
    (store : HotStateStore) (scaffold : SharedRuntimeScaffold) (notice : UpdateNotice)
    (view : StrategyRuntimeView) (after : SharedRuntimeScaffold)
    → resolve_view store scaffold notice ≡ (some view, after)
    → Distinct same_book view.books
      × Distinct same_reference view.references
      × Distinct same_position view.inventory
      × All (IsCurrent store scaffold notice) view.books
unfolding resolve_view
resolve_view-books store scaffold notice view after h =
    let inputs = scaffold.topology.inputs in
    let nothing : Gathered = record { books = []; references = []; inventory = [] } in
    let got = gather store scaffold notice inputs nothing in
    let books : got.books ≡ view.books = ground (arith, h) in
    let references : got.references ≡ view.references = ground (arith, h) in
    let inventory : got.inventory ≡ view.inventory = ground (arith, h) in
    let own = any_self same_input (λ x. same_self (from_subject x.subject)) inputs in
    let distinct = gather-AllDistinct store scaffold notice inputs nothing (tt, tt, tt) in
    let current = gather-IsCurrent store scaffold notice inputs nothing own tt in
    (
      subst (λ (xs : List HotBookState). Distinct same_book xs) books distinct.0,
      subst (λ (xs : List HotReferenceState). Distinct same_reference xs) references distinct.1,
      subst (λ (xs : List InventoryPosition). Distinct same_position xs) inventory distinct.2,
      subst (λ (xs : List HotBookState). All (IsCurrent store scaffold notice) xs) books current,
    )
