-- ===== src/BTreeMap.antt =====
-- `std::collections::BTreeMap` and `BTreeSet`, as the program uses them: an association list in the
-- order of its keys. `HashMap` and `HashSet` are read the same way; the program looks keys up in
-- them, and no statement here rests on the order in which they iterate.
pub mod Lookup
pub mod Sorted
pub mod Size
use Prim.Native.Nat.Ordering.{lt, eq, gt}
use rtt.Prelude.{
  ℕ, ◌≡◌, Bool, true, false, not, List, [], ◌∷◌, Option, none, some, map, keep, length,
  if◌then◌else◌,
}
use rtt.Order.{Ord, ◌≺◌, same}

abbrev pub BTreeMap {ℓ κ} : Type ℓ → Type κ → Type (ℓ ⊔ κ)
BTreeMap K V = List (K × V)

module _ {ℓ κ} {K : Type ℓ} {V : Type κ} where
  abbrev pub keys : BTreeMap K V → List K
  keys [] = []
  keys ((k, v) ∷ m) = k ∷ keys m

  abbrev pub values : BTreeMap K V → List V
  values [] = []
  values ((k, v) ∷ m) = v ∷ values m

  -- `iter().next()`, the least entry, and `iter().next_back()`, the greatest.
  abbrev pub first : BTreeMap K V → Option (K × V)
  first [] = none
  first (e ∷ m) = some e

  abbrev pub last : BTreeMap K V → Option (K × V)
  last [] = none
  last (e ∷ []) = some e
  last (e ∷ d ∷ m) = last (d ∷ m)

  -- `retain` by key.
  abbrev pub retain : (K → Bool) → BTreeMap K V → BTreeMap K V
  retain p [] = []
  retain p ((k, v) ∷ m) = if p k then (k, v) ∷ retain p m else retain p m

module _ {ℓ κ} {K : Type ℓ} {V : Type κ} ⦃o : Ord K⦄ where
  unfoldable pub lookup : K → BTreeMap K V → Option V
  unfolding same
  lookup q [] = none
  lookup q ((k, v) ∷ m) = if same q k then some v else lookup q m

  unfoldable pub insert : K → V → BTreeMap K V → BTreeMap K V
  insert q w [] = (q, w) ∷ []
  insert q w ((k, v) ∷ m) = elim (o.cmp q k) [
    | lt ↦ (q, w) ∷ (k, v) ∷ m
    | eq ↦ (q, w) ∷ m
    | gt ↦ (k, v) ∷ insert q w m
  ]

  unfoldable pub remove : K → BTreeMap K V → BTreeMap K V
  unfolding same
  remove q [] = []
  remove q ((k, v) ∷ m) = if same q k then remove q m else (k, v) ∷ remove q m

  -- `collect()` of pairs: a later entry replaces an earlier one with its key.
  unfoldable pub insert_all : List (K × V) → BTreeMap K V → BTreeMap K V
  unfolding insert
  insert_all [] m = m
  insert_all ((k, v) ∷ es) m = insert_all es (insert k v m)

  unfoldable pub collect : List (K × V) → BTreeMap K V
  unfolding insert_all
  collect es = insert_all es []

  -- The keys ascend.
  abbrev pub Above : K → BTreeMap K V → Type 0
  Above b [] = Unit
  Above b ((k, v) ∷ m) = b ≺ k × Above b m

  abbrev pub IsSorted : BTreeMap K V → Type 0
  IsSorted [] = Unit
  IsSorted ((k, v) ∷ m) = Above k m × IsSorted m

  unfoldable pub contains : K → BTreeMap K V → Bool
  unfolding lookup
  contains q m = elim (lookup q m) [ none ↦ false | some v ↦ true ]

-- A set is a map to the unit type; `insert` says whether the key is new.
abbrev pub BTreeSet {ℓ} : Type ℓ → Type ℓ
BTreeSet K = BTreeMap K (Unit {0})

-- `difference` and `intersection` of sets, collected into a vector.
module _ {ℓ} {K : Type ℓ} ⦃o : Ord K⦄ where
  abbrev pub difference : BTreeSet K → BTreeSet K → List K
  difference a b = keep (λ k. not (contains k b)) (keys a)

  abbrev pub intersection : BTreeSet K → BTreeSet K → List K
  intersection a b = keep (λ k. contains k b) (keys a)
