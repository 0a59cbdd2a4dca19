-- ===== src/OrderBook/Ladder.antt =====
-- One side of a book of crates/pm-data/src/orderbook.rs.
use rtt.Prelude.{
  ◌≡◌, refl, ◌⊎◌, inl, inr, none, some, Option, List, [], ◌∷◌, if◌then◌else◌, arith, Bool-cases,
  sym, ap, ◌∙◌,
}
use rtt.Order.{Text, text_ord, same, same_self, eq_of_same, same_of_gt, ◌≺◌}
use rtt.BTreeMap.{IsSorted, Above, first, last, lookup, insert}
use rtt.BTreeMap.Lookup.{lookup-insert, lookup-remove}
use rtt.BTreeMap.Sorted.{insert-IsSorted, remove-IsSorted}
use rtt.Trigger.{PriceLevel}
use rtt.OrderBook.{PriceLadder, insert_levels, is_zero, upsert}

pub upsert-IsSorted :
    (ladder : PriceLadder) (price size : Text)
    → IsSorted ladder
    → IsSorted (upsert ladder price size)
unfolding upsert
upsert-IsSorted ladder price size s =
    ground (arith, insert-IsSorted price size ladder s, remove-IsSorted price ladder s)

pub insert_levels-IsSorted :
    (levels : List PriceLevel) (ladder : PriceLadder)
    → IsSorted ladder
    → IsSorted (insert_levels levels ladder)
insert_levels-IsSorted [] ladder s = s
insert_levels-IsSorted (level ∷ levels) ladder s =
    insert_levels-IsSorted levels (insert level.price level.size ladder)
      (insert-IsSorted level.price level.size ladder s)

pub lookup-upsert :
    (p : Text) (ladder : PriceLadder) (price size : Text)
    → lookup p (upsert ladder price size)
      ≡ (if same p price then (if is_zero size then none else some size) else lookup p ladder)
unfolding upsert
lookup-upsert p ladder price size =
    ground (arith, lookup-insert p price size ladder, lookup-remove p price ladder)

-- The size that a list of levels gives last for a price, or the one before it.
abbrev pub last_size : Text → List PriceLevel → Option Text → Option Text
last_size p [] size = size
last_size p (level ∷ levels) size =
    last_size p levels (if same p level.price then some level.size else size)

infix 40 ◌≼◌
abbrev pub ◌≼◌ : Text → Text → Type 0
p ≼ q = (p ≡ q) ⊎ (p ≺ q)

Above-lookup :
    (b p s : Text) (ladder : PriceLadder) → Above b ladder → lookup p ladder ≡ some s → b ≺ p
unfolding lookup
Above-lookup b p s [] h e = ground arith
Above-lookup b p s ((k, v) ∷ m) h e = elim (Bool-cases (same p k)) [
  | inl here ↦ ground (arith, eq_of_same p k here)
  | inr there ↦ Above-lookup b p s m h.1 (ground (arith, e))
]

-- The first level of a sorted ladder is the least.
pub first-least :
    (ladder : PriceLadder) (p s : Text)
    → IsSorted ladder
    → lookup p ladder ≡ some s
    → (lo : Text × Text) × (first ladder ≡ some lo) × (lo.0 ≼ p)
unfolding lookup
first-least [] p s h e = ground arith
first-least ((k, v) ∷ m) p s h e = elim (Bool-cases (same p k)) [
  | inl here ↦ ((k, v), refl, inl (sym (eq_of_same p k here)))
  | inr there ↦ ((k, v), refl, inr (Above-lookup k p s m h.0 (ground (arith, e))))
]

up : (a b c : Text) → a ≺ b → b ≼ c → a ≼ c
up a b c h k = ground (arith, text_ord.lt_trans a b c)

-- The last level of a sorted ladder is the greatest.
pub last-greatest :
    (ladder : PriceLadder) (p s : Text)
    → IsSorted ladder
    → lookup p ladder ≡ some s
    → (hi : Text × Text) × (last ladder ≡ some hi) × (p ≼ hi.0)
unfolding lookup
last-greatest [] p s h e = ground arith
last-greatest ((k, v) ∷ []) p s h e = elim (Bool-cases (same p k)) [
  | inl here ↦ ((k, v), refl, inl (eq_of_same p k here))
  | inr there ↦ ground arith
]
last-greatest ((k, v) ∷ (l, w) ∷ m) p s h e = elim (Bool-cases (same p k)) [
  | inl here ↦
      let (hi, e', le) = last-greatest ((l, w) ∷ m) l w h.1 (ground (arith, same_self l)) in
      (hi, e', rw (eq_of_same p k here) (up k l hi.0 h.0.0 le))
  | inr there ↦ last-greatest ((l, w) ∷ m) p s h.1 (ground (arith, e))
]

-- The first and the last level are levels of the ladder.
pub lookup-first :
    (ladder : PriceLadder) (e : Text × Text) → first ladder ≡ some e → lookup e.0 ladder ≡ some e.1
unfolding lookup
lookup-first [] e h = ground arith
lookup-first ((k, v) ∷ m) e h = ground (arith, h, same_self k)

pub lookup-last :
    (ladder : PriceLadder) (e : Text × Text)
    → IsSorted ladder
    → last ladder ≡ some e
    → lookup e.0 ladder ≡ some e.1
unfolding lookup
lookup-last [] e s h = ground arith
lookup-last ((k, v) ∷ []) e s h = ground (arith, h, same_self k)
lookup-last ((k, v) ∷ (l, w) ∷ m) e s h =
    let rest = lookup-last ((l, w) ∷ m) e s.1 h in
    let above = Above-lookup k e.0 e.1 ((l, w) ∷ m) s.0 rest in rw (same_of_gt e.0 k above) rest

pub lookup-insert_levels :
    (p : Text) (levels : List PriceLevel) (ladder : PriceLadder)
    → lookup p (insert_levels levels ladder) ≡ last_size p levels (lookup p ladder)
lookup-insert_levels p [] ladder = refl
lookup-insert_levels p (level ∷ levels) ladder =
    lookup-insert_levels p levels (insert level.price level.size ladder)
    ∙ ap (last_size p levels) (lookup-insert p level.price level.size ladder)
