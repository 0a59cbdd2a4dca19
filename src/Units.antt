-- ===== src/Units.antt =====
-- `parse_units` and `format_units` of crates/pm-executor/src/order_manager.rs: decimal texts as
-- millionths. crates/pm-strategy/src/runtime.rs holds a second copy of both, and
-- `format_units_trimmed`.
pub mod RoundTrip
use rtt.Prelude.{
  ℕ, ◌+◌, ◌-◌, ◌/◌, ◌%◌, List, [], ◌∷◌, ◌++◌, Option, none, some, leb, if◌then◌else◌, unwrap_or,
  length, take, replicate, max_u64, saturating_add, saturating_mul,
}
use rtt.Order.{Text, text}
use rtt.Decimal.{parse_unsigned, to_decimal, zero_padded, split}

abbrev pub scale : ℕ
scale = 1_000_000

-- `Iterator::next`.
abbrev pub next : List Text → Option Text × List Text
next [] = (none, [])
next (p ∷ ps) = (some p, ps)

-- `truncate(6)`, then zeros pushed up to six bytes.
unfoldable pub six_digits : Text → Text
six_digits frac = let kept = take 6 frac in kept ++ replicate (6 - length kept) b'0'

-- A cut character or any other byte that is no digit makes the fraction 0: `from_utf8` and
-- `parse` fail alike.
unfoldable pub parse_units : Text → ℕ
unfolding parse_unsigned split six_digits
parse_units value =
    let (first, parts) = next (split b'.' value) in
    let whole = unwrap_or (parse_unsigned max_u64 (unwrap_or first (b'0' ∷ []))) 0 in
    let (second, rest) = next parts in
    let frac_units = unwrap_or (parse_unsigned max_u64 (six_digits (unwrap_or second []))) 0 in
    saturating_add (saturating_mul whole scale) frac_units

-- `units` is a `u128` in order_manager.rs and a `u64` in runtime.rs.
unfoldable pub format_units : ℕ → Text
unfolding to_decimal zero_padded
format_units units = to_decimal (units / scale) ++ b'.' ∷ zero_padded 6 (units % scale)
