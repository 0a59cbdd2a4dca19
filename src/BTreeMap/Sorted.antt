-- ===== src/BTreeMap/Sorted.antt =====
-- The keys of a map ascend, whatever is done to it; so each key stands in it once.
use rtt.Prelude.{All, ◌≡◌, refl, List, [], ◌∷◌, none, some, arith, Bool-cases, inl, inr}
use rtt.Order.{Ord, ◌≺◌, same_of_lt, same, eq_of_same}
use rtt.BTreeMap.{BTreeMap, lookup, insert, remove, insert_all, collect, Above, IsSorted}

module _ {ℓ κ} {K : Type ℓ} {V : Type κ} ⦃o : Ord K⦄ where
  Above-trans : (a b : K) (m : BTreeMap K V) → a ≺ b → Above b m → Above a m
  Above-trans a b [] h t = tt
  Above-trans a b ((k, v) ∷ m) h t = (o.lt_trans a b k h t.0, Above-trans a b m h t.1)

  Above-insert : (b q : K) (w : V) (m : BTreeMap K V) → b ≺ q → Above b m → Above b (insert q w m)
  unfolding insert
  Above-insert b q w [] h t = (h, tt)
  Above-insert b q w ((k, v) ∷ m) h t = ground (arith, Above-insert b q w m)

  pub insert-IsSorted : (q : K) (w : V) (m : BTreeMap K V) → IsSorted m → IsSorted (insert q w m)
  unfolding insert
  insert-IsSorted q w [] s = (tt, tt)
  insert-IsSorted q w ((k, v) ∷ m) s = ground (
    arith,
    insert-IsSorted q w m,
    Above-insert k q w m,
    Above-trans q k m,
    o.eq_of_cmp q k,
    o.flip_gt q k,
  )

  Above-remove : (b q : K) (m : BTreeMap K V) → Above b m → Above b (remove q m)
  unfolding remove
  Above-remove b q [] t = tt
  Above-remove b q ((k, v) ∷ m) t = ground (arith, Above-remove b q m)

  pub remove-IsSorted : (q : K) (m : BTreeMap K V) → IsSorted m → IsSorted (remove q m)
  unfolding remove
  remove-IsSorted q [] s = tt
  remove-IsSorted q ((k, v) ∷ m) s = ground (arith, remove-IsSorted q m, Above-remove k q m)

  insert_all-IsSorted :
      (es : List (K × V)) (m : BTreeMap K V) → IsSorted m → IsSorted (insert_all es m)
  unfolding insert_all
  insert_all-IsSorted [] m s = s
  insert_all-IsSorted ((k, v) ∷ es) m s =
      insert_all-IsSorted es (insert k v m) (insert-IsSorted k v m s)

  pub collect-IsSorted : (es : List (K × V)) → IsSorted (collect es)
  unfolding collect
  collect-IsSorted es = insert_all-IsSorted es [] tt

  -- A key below all others is not in the map.
  pub lookup-Above : (b : K) (m : BTreeMap K V) → Above b m → lookup b m ≡ none
  unfolding lookup
  lookup-Above b [] t = refl
  lookup-Above b ((k, v) ∷ m) t = ground (arith, same_of_lt b k, lookup-Above b m)

  pub lookup_beyond : (q b : K) (m : BTreeMap K V) → Above b m → q ≺ b → lookup q m ≡ none
  lookup_beyond q b m t h = lookup-Above q m (Above-trans q b m h t)

-- A property of the entries collected is a property of the entries of the map.
module _ {ℓ κ μ} {K : Type ℓ} {V : Type κ} ⦃o : Ord K⦄ (P : K × V → Type μ) where
  pub All-insert : (q : K) (w : V) (m : BTreeMap K V) → P (q, w) → All P m → All P (insert q w m)
  unfolding insert
  All-insert q w [] p a = (p, tt)
  All-insert q w ((k, v) ∷ m) p a = ground (arith, All-insert q w m p)

  All-insert_all :
      (es : List (K × V)) (m : BTreeMap K V) → All P es → All P m → All P (insert_all es m)
  unfolding insert_all
  All-insert_all [] m a b = b
  All-insert_all ((k, v) ∷ es) m a b = All-insert_all es (insert k v m) a.1 (All-insert k v m a.0 b)

  pub All-collect : (es : List (K × V)) → All P es → All P (collect es)
  unfolding collect
  All-collect es a = All-insert_all es [] a tt

  pub All-remove : (q : K) (m : BTreeMap K V) → All P m → All P (remove q m)
  unfolding remove
  All-remove q [] a = tt
  All-remove q ((k, v) ∷ m) a = ground (arith, All-remove q m)

  pub All-lookup : (q : K) (w : V) (m : BTreeMap K V) → All P m → lookup q m ≡ some w → P (q, w)
  unfolding lookup
  All-lookup q w [] a e = ground arith
  All-lookup q w ((k, v) ∷ m) a e = elim (Bool-cases (same q k)) [
    | inl here ↦ ground (arith, eq_of_same q k here)
    | inr there ↦ All-lookup q w m a.1 (ground (arith, e))
  ]
