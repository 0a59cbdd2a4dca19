-- ===== src/HotState.antt =====
-- crates/rtt-core/src/hot_state.rs: the values that the strategies read. `HotState.Levels` has the
-- levels of a book.
pub mod Levels
mod Trim
pub mod Values
pub mod Store
pub mod Updates
pub mod References
pub mod Facade
pub mod Notices
use rtt.Prelude.{
  ℕ, zero, suc, ◌+◌, ◌-◌, ◌*◌, ◌/◌, ◌%◌, Bool, true, false, not, ◌&&◌, ◌||◌, Option, none, some,
  List, [], ◌∷◌, ◌++◌, leb, ◌==◌, if◌then◌else◌, length, take, replicate, max_u64, unwrap_or,
}
use rtt.Order.{Text, text}
use rtt.Decimal.{parse_unsigned, to_decimal, zero_padded, split}

abbrev pub hot_value_scale : ℕ
hot_value_scale = 1_000_000

-- `?` on an option, and `checked_add` and `checked_mul` of `u64`.
abbrev pub option_then {ℓ κ} : {A : Type ℓ} {B : Type κ} → Option A → (A → Option B) → Option B
option_then none f = none
option_then (some a) f = f a

abbrev pub checked_u64 : ℕ → Option ℕ
checked_u64 n = if leb n max_u64 then some n else none

-- `trim`: the encodings of the white space of Unicode.
abbrev pub white_space : List Text
white_space =
    (9 ∷ [])
    ∷ (10 ∷ [])
    ∷ (11 ∷ [])
    ∷ (12 ∷ [])
    ∷ (13 ∷ [])
    ∷ (32 ∷ [])
    ∷ (194 ∷ 133 ∷ [])
    ∷ (194 ∷ 160 ∷ [])
    ∷ (225 ∷ 154 ∷ 128 ∷ [])
    ∷ (226 ∷ 128 ∷ 128 ∷ [])
    ∷ (226 ∷ 128 ∷ 129 ∷ [])
    ∷ (226 ∷ 128 ∷ 130 ∷ [])
    ∷ (226 ∷ 128 ∷ 131 ∷ [])
    ∷ (226 ∷ 128 ∷ 132 ∷ [])
    ∷ (226 ∷ 128 ∷ 133 ∷ [])
    ∷ (226 ∷ 128 ∷ 134 ∷ [])
    ∷ (226 ∷ 128 ∷ 135 ∷ [])
    ∷ (226 ∷ 128 ∷ 136 ∷ [])
    ∷ (226 ∷ 128 ∷ 137 ∷ [])
    ∷ (226 ∷ 128 ∷ 138 ∷ [])
    ∷ (226 ∷ 128 ∷ 168 ∷ [])
    ∷ (226 ∷ 128 ∷ 169 ∷ [])
    ∷ (226 ∷ 128 ∷ 175 ∷ [])
    ∷ (226 ∷ 129 ∷ 159 ∷ [])
    ∷ (227 ∷ 128 ∷ 128 ∷ [])
    ∷ []

abbrev pub strip_prefix : Text → Text → Option Text
strip_prefix [] s = some s
strip_prefix (c ∷ p) [] = none
strip_prefix (c ∷ p) (d ∷ s) = if c == d then strip_prefix p s else none

abbrev pub strip_any : List Text → Text → Option Text
strip_any [] s = none
strip_any (p ∷ ps) s = elim (strip_prefix p s) [ none ↦ strip_any ps s | some rest ↦ some rest ]

-- Each round strips a byte at least, so the length is fuel enough.
abbrev pub strip_all : ℕ → List Text → Text → Text
strip_all zero ps s = s
strip_all (suc fuel) ps s = elim (strip_any ps s) [ none ↦ s | some rest ↦ strip_all fuel ps rest ]

abbrev pub backwards : Text → Text
backwards [] = []
backwards (c ∷ s) = backwards s ++ c ∷ []

abbrev pub all_backwards : List Text → List Text
all_backwards [] = []
all_backwards (s ∷ ss) = backwards s ∷ all_backwards ss

unfoldable pub trim : Text → Text
trim value =
    let front = strip_all (length value) white_space value in
    backwards (strip_all (length front) (all_backwards white_space) (backwards front))

abbrev pub starts_with : ℕ → Text → Bool
starts_with c [] = false
starts_with c (d ∷ s) = c == d

-- `chars().take(6)`, padded: a character that is not of one byte is no digit, so the parse fails as it
-- does for its bytes.
unfoldable pub padded : Text → Text
padded fraction = let kept = take 6 fraction in kept ++ replicate (6 - length kept) b'0'

abbrev pub whole_and_fraction : Text → Text → Option ℕ
whole_and_fraction whole fraction = option_then (parse_unsigned max_u64 whole) (λ w.
    option_then (parse_unsigned max_u64 (padded fraction))
      (λ f. option_then (checked_u64 (w * hot_value_scale)) (λ scaled. checked_u64 (scaled + f))))

-- One piece, or two, around the dot.
abbrev pub from_parts : List Text → Option ℕ
from_parts [] = none
from_parts (whole ∷ []) = whole_and_fraction whole []
from_parts (whole ∷ fraction ∷ []) = whole_and_fraction whole fraction
from_parts (whole ∷ fraction ∷ part ∷ parts) =
    option_then (parse_unsigned max_u64 whole) (λ w. none)

abbrev is_nil : Text → Bool
is_nil [] = true
is_nil (c ∷ s) = false

unfoldable pub parse_scaled : Text → Option ℕ
parse_scaled value =
    let trimmed = trim value in
    if is_nil trimmed || starts_with b'-' trimmed then none else from_parts (split b'.' trimmed)

-- The loop that pops zeros, on the text backwards.
abbrev pub pop_zeros : Text → Text
pop_zeros [] = []
pop_zeros (c ∷ s) = if c == b'0' then pop_zeros s else c ∷ s

unfoldable pub format_scaled : ℕ → Text
format_scaled units =
    let whole = units / hot_value_scale in
    let fraction = units % hot_value_scale in
    if fraction == 0
    then to_decimal whole
    else backwards (pop_zeros (backwards (to_decimal whole ++ b'.' ∷ zero_padded 6 fraction)))

unfoldable pub ticks_for : ℕ → Option ℕ → Option ℕ
ticks_for units none = none
ticks_for units (some step_units) =
    if (step_units == 0) || not (units % step_units == 0) then none else some (units / step_units)

pub record HotStateValue : Type 0 where
  pub exact : Text
  pub units : ℕ

unfoldable pub hot_value : Text → Option HotStateValue
hot_value exact =
    option_then (parse_scaled exact) (λ units. some (record { exact = exact; units = units }))
