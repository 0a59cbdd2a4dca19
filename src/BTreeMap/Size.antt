-- ===== src/BTreeMap/Size.antt =====
-- The size of a map after an insertion, and membership in a set.
use rtt.Prelude.{suc, ◌≡◌, refl, ◌||◌, [], ◌∷◌, length, if◌then◌else◌, arith}
use rtt.Order.{Ord, same, same_of_lt, same_of_gt, same_iff}
use rtt.BTreeMap.{BTreeMap, lookup, insert, contains, IsSorted}
use rtt.BTreeMap.Lookup.{lookup-insert}
use rtt.BTreeMap.Sorted.{lookup_beyond}

module _ {ℓ κ} {K : Type ℓ} {V : Type κ} ⦃o : Ord K⦄ where
  pub contains-insert :
      (p q : K) (w : V) (m : BTreeMap K V) → contains p (insert q w m) ≡ same p q || contains p m
  unfolding contains
  contains-insert p q w m = ground (arith, lookup-insert p q w m)

  -- A key that is there is replaced; a new one adds an entry.
  pub length-insert :
      (q : K) (w : V) (m : BTreeMap K V)
      → IsSorted m
      → length (insert q w m) ≡ (if contains q m then length m else suc (length m))
  unfolding insert contains lookup
  length-insert q w [] s = refl
  length-insert q w ((k, v) ∷ m) s = ground (
    arith,
    length-insert q w m s.1,
    same_iff q k,
    same_of_lt q k,
    same_of_gt q k,
    o.eq_of_cmp q k,
    o.cmp_self q,
    o.flip_gt q k,
    lookup_beyond q k m s.0,
  )
