-- ===== src/Inventory.antt =====
-- The `InventoryStore` of crates/pm-strategy/src/runtime.rs: how much of each asset a strategy has
-- bought and sold, as decimal texts.
pub mod Totals
pub mod Sums
use rtt.Prelude.{
  ℕ, ◌==◌, ◌&&◌, Bool, true, false, List, [], ◌∷◌, ◌++◌, Option, none, some, keep, if◌then◌else◌,
  saturating_add, unwrap_or,
}
use rtt.Order.{Text, text, text_ord, same}
use rtt.BTreeMap.{BTreeMap, lookup, insert, values}
use rtt.Trigger.{Side, buy, sell}
use rtt.Units.{parse_units, format_units}
use rtt.Strategy.{
  InventoryPosition, InventoryDelta, RequirementSelector, of_asset, of_symbol, of_market, of_source,
}

abbrev pub put_unless_end : ℕ → ℕ → Text → Text
put_unless_end c d [] = if d == c then [] else d ∷ []
put_unless_end c d (x ∷ rest) = d ∷ x ∷ rest

-- `trim_end_matches` of a character.
unfoldable pub trim_end : ℕ → Text → Text
trim_end c [] = []
trim_end c (d ∷ s) = put_unless_end c d (trim_end c s)

abbrev pub or_zero : Text → Text
or_zero [] = text "0"
or_zero (c ∷ s) = c ∷ s

unfoldable pub format_units_trimmed : ℕ → Text
unfolding trim_end format_units
format_units_trimmed units = or_zero (trim_end b'.' (trim_end b'0' (format_units units)))

-- `format!("{:?}", side)`.
abbrev pub side_text : Side → Text
side_text buy = text "Buy"
side_text sell = text "Sell"

unfoldable pub inventory_key : Text → Side → Text
inventory_key asset_id side = asset_id ++ b':' ∷ side_text side

abbrev pub InventoryStore : Type 0
InventoryStore = BTreeMap Text InventoryPosition

abbrev pub empty_position : InventoryDelta → InventoryPosition
empty_position delta = record {
  asset_id = delta.asset_id;
  side = delta.side;
  filled_size = text "0";
  net_notional = text "0";
  updated_at_ms = delta.observed_at_ms;
}

abbrev pub add_units : Text → Text → Text
add_units held delta = format_units_trimmed (saturating_add (parse_units held) (parse_units delta))

unfoldable pub apply_delta : InventoryStore → InventoryDelta → InventoryStore
apply_delta positions delta =
    let key = inventory_key delta.asset_id delta.side in
    let entry = unwrap_or (lookup key positions) (empty_position delta) in
    let changed : InventoryPosition = record entry {
      filled_size = add_units entry.filled_size delta.filled_size_delta;
      net_notional = add_units entry.net_notional delta.notional_delta;
      updated_at_ms = delta.observed_at_ms;
    } in
    insert key changed positions

abbrev pub selects : RequirementSelector → InventoryPosition → Bool
selects (of_asset asset_id) position = same position.asset_id asset_id
selects (of_source source_id) position = true
selects (of_market market_id) position = false
selects (of_symbol ticker) position = false

unfoldable pub positions_for : InventoryStore → RequirementSelector → List InventoryPosition
positions_for positions selector = keep (selects selector) (values positions)
