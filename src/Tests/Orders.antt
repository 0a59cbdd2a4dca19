-- ===== src/Tests/Orders.antt =====
-- Runs and witnesses for crates/rtt-core/src/clob_order.rs.
use rtt.Prelude.{ℕ, ◌+◌, ◌-◌, ◌*◌, ◌^◌, ◌≤◌, ◌<◌, ◌≡◌, refl, ok, err, some, max_u128, arith}
use rtt.Order.{text}
use rtt.Trigger.{buy}
use rtt.Decimal.{parse_digits}
use rtt.ClobOrder.{
  invalid_format, base_unit_scale, scan, scan_byte, scaled, parse_scaled_decimal, compute_amounts,
}
use rtt.ClobOrder.Parse.{parse_scaled_decimal_exact}
use rtt.ClobOrder.Amounts.{Trades, compute_amounts_exact}

-- 50 tokens at 0.95: the maker gives 47.5 dollars.
buy_amounts : compute_amounts (text "0.95") (text "50") buy ≡ ok (47_500_000, 50_000_000)
unfolding compute_amounts parse_scaled_decimal scan scan_byte scaled
buy_amounts = refl

second_dot :
    parse_scaled_decimal (text "0.9.5") (text "price")
    ≡ err (invalid_format (text "price") (text "0.9.5"))
unfolding parse_scaled_decimal scan scan_byte
second_dot = refl

zero_read : parse_digits max_u128 0 (text "0") ≡ some 0
unfolding parse_digits
zero_read = refl

cents_read : parse_digits max_u128 0 (text "95") ≡ some 95
unfolding parse_digits
cents_read = refl

parse_scaled_decimal_exact_example :
    parse_scaled_decimal (text "0.95") (text "price") ≡ ok (0 * base_unit_scale + 95 * 10 ^ (6 - 2))
parse_scaled_decimal_exact_example =
    parse_scaled_decimal_exact (text "0") (text "95") (text "price") 0 95 zero_read cents_read
      (omega arith) (omega arith) (omega arith)

compute_amounts_exact_example :
    (p : ℕ) × (t : ℕ) × (cost : ℕ) × (parse_scaled_decimal (text "0.95") (text "price") ≡ ok p)
    × (parse_scaled_decimal (text "50") (text "size") ≡ ok t)
    × (p * t ≤ max_u128)
    × (cost * base_unit_scale ≤ p * t)
    × (p * t < (cost + 1) * base_unit_scale)
    × Trades buy 47_500_000 50_000_000 cost t
compute_amounts_exact_example =
    compute_amounts_exact (text "0.95") (text "50") buy 47_500_000 50_000_000 buy_amounts
