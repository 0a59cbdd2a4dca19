-- ===== src/Inventory/Sums.antt =====
-- The positions of crates/pm-strategy/src/runtime.rs are the sums of what the strategy was told.
use rtt.Prelude.{
  ℕ, ◌+◌, ◌≤◌, ◌≡◌, refl, List, [], ◌∷◌, some, none, Option, max_u64, arith, saturating_add,
  if◌then◌else◌, unwrap_or,
}
use rtt.Order.{Text, text, text_ord, same, eq_of_same}
use rtt.BTreeMap.{lookup}
use rtt.BTreeMap.Lookup.{lookup-insert}
use rtt.Units.{parse_units}
use rtt.Strategy.{InventoryPosition, InventoryDelta}
use rtt.Inventory.{inventory_key, InventoryStore, apply_delta, empty_position, add_units}
use rtt.Inventory.Totals.{parse_units-format_units_trimmed}

parse_units-le : (value : Text) → parse_units value ≤ max_u64
unfolding parse_units
parse_units-le value = ground arith

-- A text that is added to reads as the sum.
pub parse_units-add_units :
    (held delta : Text)
    → parse_units (add_units held delta) ≡ saturating_add (parse_units held) (parse_units delta)
parse_units-add_units held delta =
    parse_units-format_units_trimmed (saturating_add (parse_units held) (parse_units delta))
      (ground arith)

abbrev pub deltas_applied : InventoryStore → List InventoryDelta → InventoryStore
deltas_applied positions [] = positions
deltas_applied positions (delta ∷ deltas) = deltas_applied (apply_delta positions delta) deltas

abbrev pub filled_of : Option InventoryPosition → ℕ
filled_of none = 0
filled_of (some position) = parse_units position.filled_size

abbrev pub notional_of : Option InventoryPosition → ℕ
notional_of none = 0
notional_of (some position) = parse_units position.net_notional

-- What the deltas of one asset and side add up to.
abbrev pub sum_for : (InventoryDelta → Text) → Text → List InventoryDelta → ℕ
sum_for amount key [] = 0
sum_for amount key (delta ∷ deltas) =
    let rest = sum_for amount key deltas in
    if same key (inventory_key delta.asset_id delta.side)
    then parse_units (amount delta) + rest
    else rest

zero_units : parse_units (text "0") ≡ 0
unfolding parse_units
zero_units = refl

entry_filled :
    (o : Option InventoryPosition) (delta : InventoryDelta)
    → parse_units (unwrap_or o (empty_position delta)).filled_size ≡ filled_of o
entry_filled none delta = zero_units
entry_filled (some position) delta = refl

entry_notional :
    (o : Option InventoryPosition) (delta : InventoryDelta)
    → parse_units (unwrap_or o (empty_position delta)).net_notional ≡ notional_of o
entry_notional none delta = zero_units
entry_notional (some position) delta = refl

module _ (key : Text) where
  step_filled :
      (positions : InventoryStore) (delta : InventoryDelta)
      → filled_of (lookup key (apply_delta positions delta)) ≡ (
          if same key (inventory_key delta.asset_id delta.side)
          then saturating_add
              (filled_of (lookup key positions))
              (parse_units delta.filled_size_delta)
          else filled_of (lookup key positions))
  unfolding apply_delta
  step_filled positions delta =
      let k = inventory_key delta.asset_id delta.side in
      let entry = unwrap_or (lookup k positions) (empty_position delta) in
      ground (
        arith,
        lookup-insert key k
            (record entry {
              filled_size = add_units entry.filled_size delta.filled_size_delta;
              net_notional = add_units entry.net_notional delta.notional_delta;
              updated_at_ms = delta.observed_at_ms;
            })
            positions,
        eq_of_same key k,
        entry_filled (lookup k positions) delta,
        parse_units-add_units entry.filled_size delta.filled_size_delta,
      )

  step_notional :
      (positions : InventoryStore) (delta : InventoryDelta)
      → notional_of (lookup key (apply_delta positions delta)) ≡ (
          if same key (inventory_key delta.asset_id delta.side)
          then saturating_add
              (notional_of (lookup key positions))
              (parse_units delta.notional_delta)
          else notional_of (lookup key positions))
  unfolding apply_delta
  step_notional positions delta =
      let k = inventory_key delta.asset_id delta.side in
      let entry = unwrap_or (lookup k positions) (empty_position delta) in
      ground (
        arith,
        lookup-insert key k
            (record entry {
              filled_size = add_units entry.filled_size delta.filled_size_delta;
              net_notional = add_units entry.net_notional delta.notional_delta;
              updated_at_ms = delta.observed_at_ms;
            })
            positions,
        eq_of_same key k,
        entry_notional (lookup k positions) delta,
        parse_units-add_units entry.net_notional delta.notional_delta,
      )

filled_of-le : (o : Option InventoryPosition) → filled_of o ≤ max_u64
filled_of-le none = omega arith
filled_of-le (some position) = parse_units-le position.filled_size

notional_of-le : (o : Option InventoryPosition) → notional_of o ≤ max_u64
notional_of-le none = omega arith
notional_of-le (some position) = parse_units-le position.net_notional

-- What the store holds of an asset on a side, after any deltas: the filled size and the notional, read
-- as millionths, are what it held before plus the amounts of the deltas of that asset and side, at most
-- the largest `u64`. Neither the other deltas nor the order or the formatting between them matters.
pub deltas_applied-sum :
    (positions : InventoryStore) (deltas : List InventoryDelta) (key : Text)
    → let after = lookup key (deltas_applied positions deltas) in
      let held = lookup key positions in
      (filled_of after
        ≡ saturating_add (filled_of held) (sum_for (λ d. d.filled_size_delta) key deltas))
      × (notional_of after
          ≡ saturating_add (notional_of held) (sum_for (λ d. d.notional_delta) key deltas))
deltas_applied-sum positions [] key =
    let held = lookup key positions in ground (arith, filled_of-le held, notional_of-le held)
deltas_applied-sum positions (delta ∷ deltas) key =
    let rest = deltas_applied-sum (apply_delta positions delta) deltas key in
    ground (arith, rest, step_filled key positions delta, step_notional key positions delta)
