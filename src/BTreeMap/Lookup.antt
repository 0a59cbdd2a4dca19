-- ===== src/BTreeMap/Lookup.antt =====
-- What a lookup reads after an insertion, a removal or a `retain`.
use rtt.Prelude.{◌≡◌, Bool, [], ◌∷◌, none, some, if◌then◌else◌, arith}
use rtt.Order.{Ord, same, same_iff, same_self}
use rtt.BTreeMap.{BTreeMap, lookup, insert, remove, retain}

module _ {ℓ κ} {K : Type ℓ} {V : Type κ} ⦃o : Ord K⦄ where
  pub lookup-insert :
      (p q : K) (w : V) (m : BTreeMap K V)
      → lookup p (insert q w m) ≡ (if same p q then some w else lookup p m)
  unfolding lookup insert
  lookup-insert p q w [] = ground arith
  lookup-insert p q w ((k, v) ∷ m) = ground (
    arith,
    lookup-insert p q w m,
    same_iff p k,
    same_iff p q,
    same_self q,
    same_iff q k,
    o.eq_of_cmp q k,
  )

  pub lookup-remove :
      (p q : K) (m : BTreeMap K V) → lookup p (remove q m) ≡ (if same p q then none else lookup p m)
  unfolding lookup remove
  lookup-remove p q [] = ground arith
  lookup-remove p q ((k, v) ∷ m) =
      ground (arith, lookup-remove p q m, same_iff p k, same_iff p q, same_iff q k)

  pub lookup-retain :
      (keeps : K → Bool) (p : K) (m : BTreeMap K V)
      → lookup p (retain keeps m) ≡ (if keeps p then lookup p m else none)
  unfolding lookup
  lookup-retain keeps p [] = ground arith
  lookup-retain keeps p ((k, v) ∷ m) = ground (arith, lookup-retain keeps p m, same_iff p k)
