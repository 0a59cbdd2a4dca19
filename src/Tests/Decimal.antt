-- ===== src/Tests/Decimal.antt =====
-- Runs and witnesses for the decimal helpers.
use rtt.Prelude.{◌≡◌, refl, arith}
use rtt.Order.{text}
use rtt.Units.{parse_units, format_units}
use rtt.Units.RoundTrip.{parse_units-format_units}

reads :
    (parse_units (text "0.44") ≡ 440_000)
    × (parse_units (text "12") ≡ 12_000_000)
    × (parse_units (text "1.23456789") ≡ 1_234_567)
    × (parse_units (text "-3.5") ≡ 500_000)
    × (parse_units (text "x") ≡ 0)
unfolding parse_units
reads = (refl, refl, refl, refl, refl)

parse_units-format_units_example : parse_units (format_units 4_400_000) ≡ 4_400_000
parse_units-format_units_example = parse_units-format_units 4_400_000 (omega arith)
