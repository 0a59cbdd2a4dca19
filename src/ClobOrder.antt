-- ===== src/ClobOrder.antt =====
-- crates/rtt-core/src/clob_order.rs: prices and sizes as amounts of the exchange, in units of a
-- millionth. The order itself and its JSON form are made of these by generated code.
pub mod Parse
pub mod Amounts
use rtt.Prelude.{
  ℕ, ◌+◌, ◌-◌, ◌*◌, ◌/◌, ◌^◌, Bool, true, false, not, ◌&&◌, Option, none, some, List, [], ◌∷◌, ◌++◌,
  leb, ◌==◌, if◌then◌else◌, Result, ok, err, and_then, checked_add, checked_mul,
}
use rtt.Order.{Text, text}
use rtt.Decimal.{is_digit}
use rtt.Trigger.{Side, buy, sell}

abbrev pub usdc_decimals : ℕ
usdc_decimals = 6

abbrev pub base_unit_scale : ℕ
base_unit_scale = 1_000_000

-- With the name of the field and its text.
pub data AmountError : Type 0 where
  invalid_format : Text → Text → AmountError
  unsupported_precision : Text → Text → ℕ → AmountError
  overflow : Text → Text → AmountError

-- The variables of the loop of `parse_scaled_decimal`.
pub record Scan : Type 0 where
  pub whole : ℕ
  pub fractional : ℕ
  pub fractional_digits : ℕ
  pub saw_dot : Bool
  pub saw_digit : Bool

-- `ok_or_else` with an overflow.
abbrev pub or_overflow : Text → Text → Option ℕ → Result AmountError ℕ
or_overflow field value none = err (overflow field value)
or_overflow field value (some n) = ok n

-- `checked_mul(10)`, then `checked_add` of the digit.
abbrev pub push_digit : ℕ → ℕ → Option ℕ
push_digit n digit = elim (checked_mul n 10) [ none ↦ none | some m ↦ checked_add m digit ]

module _ (field value : Text) where
  abbrev pub fraction_step : Scan → ℕ → Result AmountError Scan
  fraction_step s digit =
      if leb usdc_decimals s.fractional_digits
      then err (unsupported_precision field value usdc_decimals)
      else and_then (or_overflow field value (push_digit s.fractional digit)) (λ n. ok (record s {
        fractional = n;
        fractional_digits = s.fractional_digits + 1;
        saw_digit = true;
      }))

  abbrev pub whole_step : Scan → ℕ → Result AmountError Scan
  whole_step s digit =
      and_then (or_overflow field value (push_digit s.whole digit))
        (λ n. ok (record s { whole = n; saw_digit = true }))

  -- The `match` on a byte.
  unfoldable pub scan_byte : Scan → ℕ → Result AmountError Scan
  scan_byte s byte =
      if is_digit byte
      then (if s.saw_dot then fraction_step s (byte - b'0') else whole_step s (byte - b'0'))
      else if (byte == b'.') && not s.saw_dot
      then ok (record s { saw_dot = true })
      else err (invalid_format field value)

  unfoldable pub scan : Scan → Text → Result AmountError Scan
  scan s [] = ok s
  scan s (byte ∷ bytes) = and_then (scan_byte s byte) (λ s'. scan s' bytes)

  -- What follows the loop.
  unfoldable pub scaled : Scan → Result AmountError ℕ
  scaled s =
      let fractional_scale = 10 ^ (usdc_decimals - s.fractional_digits) in
      if not s.saw_digit
      then err (invalid_format field value)
      else and_then (or_overflow field value (checked_mul s.whole base_unit_scale)) (λ scaled_whole.
        and_then (or_overflow field value (checked_mul s.fractional fractional_scale))
          (λ scaled_fractional.
            or_overflow field value (checked_add scaled_whole scaled_fractional)))

abbrev pub start : Scan
start = record {
  whole = 0;
  fractional = 0;
  fractional_digits = 0;
  saw_dot = false;
  saw_digit = false;
}

unfoldable pub parse_scaled_decimal : Text → Text → Result AmountError ℕ
parse_scaled_decimal [] field = err (invalid_format field [])
parse_scaled_decimal (c ∷ cs) field =
    and_then (scan field (c ∷ cs) start (c ∷ cs)) (scaled field (c ∷ cs))

-- The text of an overflowing product names both factors.
abbrev pub price_and_size : Text → Text → Text
price_and_size price size = text "price=" ++ price ++ text " size=" ++ size

-- `checked_div` by a constant that is not 0.
abbrev pub usdc_of : ℕ → ℕ → Option ℕ
usdc_of price_scaled token_amount = elim (checked_mul price_scaled token_amount) [
  | none ↦ none
  | some n ↦ some (n / base_unit_scale)
]

-- What the maker gives and what the taker gives.
abbrev pub amounts_for : Side → ℕ → ℕ → ℕ × ℕ
amounts_for buy usdc_amount token_amount = (usdc_amount, token_amount)
amounts_for sell usdc_amount token_amount = (token_amount, usdc_amount)

unfoldable pub compute_amounts : Text → Text → Side → Result AmountError (ℕ × ℕ)
compute_amounts price size side =
    and_then (parse_scaled_decimal price (text "price")) (λ price_scaled.
      and_then (parse_scaled_decimal size (text "size")) (λ token_amount.
        and_then
          (or_overflow (text "makerAmount") (price_and_size price size)
            (usdc_of price_scaled token_amount))
          (λ usdc_amount. ok (amounts_for side usdc_amount token_amount))))
