-- ===== src/Decimal.antt =====
-- Rust's `str::parse::<u64>`, the `Display` of unsigned integers and `str::split`, which the
-- decimal helpers of the program call.
pub mod RoundTrip
use rtt.Prelude.{
  ℕ, zero, suc, ◌+◌, ◌-◌, ◌*◌, ◌/◌, ◌%◌, ◌&&◌, Bool, List, [], ◌∷◌, ◌++◌, Option, none, some, leb,
  ltb, ◌==◌, if◌then◌else◌, length, replicate,
}
use rtt.Order.{Text}

abbrev pub is_digit : ℕ → Bool
is_digit c = leb b'0' c && leb c b'9'

-- The digits of an unsigned integer no larger than `limit`: `none` for another byte or an overflow.
unfoldable pub parse_digits : ℕ → ℕ → Text → Option ℕ
parse_digits limit acc [] = some acc
parse_digits limit acc (c ∷ s) =
    let n = acc * 10 + (c - b'0') in
    let rest = parse_digits limit n s in
    if is_digit c then (if leb n limit then rest else none) else none

-- `parse::<u64>()` with the largest value as a parameter: one leading `+` is allowed.
unfoldable pub parse_unsigned : ℕ → Text → Option ℕ
unfolding parse_digits
parse_unsigned limit [] = none
parse_unsigned limit (c ∷ []) = parse_digits limit 0 (c ∷ [])
parse_unsigned limit (c ∷ d ∷ s) =
    if c == b'+' then parse_digits limit 0 (d ∷ s) else parse_digits limit 0 (c ∷ d ∷ s)

-- The decimal digits of `n` put before `out`; one more round of fuel than `n` is enough.
unfoldable pub emit : ℕ → ℕ → Text → Text
emit zero n out = out
emit (suc fuel) n out =
    let digit = b'0' + n % 10 in
    let rest = emit fuel (n / 10) (digit ∷ out) in if ltb n 10 then digit ∷ out else rest

-- `n.to_string()`.
unfoldable pub to_decimal : ℕ → Text
unfolding emit
to_decimal n = emit (suc n) n []

-- `{n:0width$}`.
unfoldable pub zero_padded : ℕ → ℕ → Text
unfolding to_decimal
zero_padded width n = let digits = to_decimal n in replicate (width - length digits) b'0' ++ digits

abbrev pub prefix_first : ℕ → List Text → List Text
prefix_first c [] = (c ∷ []) ∷ []
prefix_first c (p ∷ ps) = (c ∷ p) ∷ ps

-- `s.split(sep)`: the pieces between the separators, one more than there are separators.
unfoldable pub split : ℕ → Text → List Text
split sep [] = [] ∷ []
split sep (c ∷ s) = let rest = split sep s in if c == sep then [] ∷ rest else prefix_first c rest
