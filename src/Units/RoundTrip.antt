-- ===== src/Units/RoundTrip.antt =====
-- Formatting an amount and parsing it back.
use rtt.Prelude.{
  ℕ, ◌/◌, ◌%◌, ◌≤◌, ◌<◌, ◌≡◌, ap, subst, ◌∙◌, [], ◌∷◌, some, length, take, take-length, max_u64,
  arith,
}
use mathlib.Core.List.{append-nil}
use rtt.Order.{Text}
use rtt.Decimal.{parse_unsigned, to_decimal, zero_padded, split}
use rtt.Decimal.RoundTrip.{
  to_decimal-IsDigits, zero_padded-IsDigits, length-zero_padded, split-digits, split-dot,
  parse_unsigned-to_decimal, parse_unsigned-IsDigits, parse_digits-zero_padded,
}
use rtt.Units.{scale, six_digits, parse_units, format_units}

six_digits_self : (s : Text) → length s ≡ 6 → six_digits s ≡ s
unfolding six_digits
six_digits_self s h =
    let whole : take 6 s ≡ s = subst (λ k. take k s ≡ s) h (take-length s) in
    rw (whole, h) (append-nil s)

parse_unsigned-zero_padded :
    (n : ℕ) → n < scale → parse_unsigned max_u64 (six_digits (zero_padded 6 n)) ≡ some n
parse_unsigned-zero_padded n h =
    let six = length-zero_padded 5 n h in
    rw (six_digits_self (zero_padded 6 n) six) (
      parse_unsigned-IsDigits max_u64 (zero_padded 6 n) (zero_padded-IsDigits 6 n) (omega arith)
      ∙ parse_digits-zero_padded max_u64 6 n (omega arith))

split-format_units :
    (n : ℕ) → split b'.' (format_units n) ≡ to_decimal (n / scale) ∷ zero_padded 6 (n % scale) ∷ []
split-format_units n =
    unfold format_units in
    (split-dot (to_decimal (n / scale)) (zero_padded 6 (n % scale))
        (to_decimal-IsDigits (n / scale))
      ∙ ap (◌∷◌ (to_decimal (n / scale))) (split-digits _ (zero_padded-IsDigits 6 (n % scale))))

-- An amount that fits a `u64` is read back as it was written.
pub parse_units-format_units : (n : ℕ) → n ≤ max_u64 → parse_units (format_units n) ≡ n
parse_units-format_units n h =
    let whole = parse_unsigned-to_decimal max_u64 (n / scale) (omega arith) in
    let frac = parse_unsigned-zero_padded (n % scale) (omega arith) in
    unfold parse_units in rw (split-format_units n, whole, frac) (ground arith)
