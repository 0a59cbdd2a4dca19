-- ===== src/Decimal/RoundTrip.antt =====
-- Printing an unsigned integer and parsing it back.
use native.Mathlib.Nat.{pow-suc}
use rtt.Prelude.{
  ℕ, zero, suc, ◌+◌, ◌-◌, ◌*◌, ◌/◌, ◌%◌, ◌^◌, ◌≤◌, ◌<◌, ◌≡◌, refl, ap, ◌∙◌, true, [], ◌∷◌, ◌++◌,
  some, ltb, ◌==◌, inl, inr, Bool-cases, length, replicate, All, All-append, length-append,
  length-replicate, arith,
}
use rtt.Order.{Text}
use rtt.Decimal.{is_digit, parse_digits, parse_unsigned, emit, to_decimal, zero_padded, split}

abbrev pub IsDigits : Text → Type 0
IsDigits s = All (λ c. is_digit c ≡ true) s

digit-is_digit : (n : ℕ) → is_digit (b'0' + n % 10) ≡ true
digit-is_digit n = ground arith

emit-IsDigits : (f n : ℕ) (out : Text) → IsDigits out → IsDigits (emit f n out)
unfolding emit
emit-IsDigits zero n out h = h
emit-IsDigits (suc f) n out h = elim (Bool-cases (ltb n 10)) [
  | inl small ↦ rw small (digit-is_digit n, h)
  | inr large ↦ rw large (emit-IsDigits f (n / 10) _ (digit-is_digit n, h))
]

pub to_decimal-IsDigits : (n : ℕ) → IsDigits (to_decimal n)
unfolding to_decimal
to_decimal-IsDigits n = emit-IsDigits (suc n) n [] tt

-- One digit of the number printed is one round of the parser.
parse_digits-digit :
    (limit acc n : ℕ) (s : Text)
    → acc * 10 + n % 10 ≤ limit
    → parse_digits limit acc ((b'0' + n % 10) ∷ s) ≡ parse_digits limit (acc * 10 + n % 10) s
unfolding parse_digits
parse_digits-digit limit acc n s h = ground arith

parse_digits-emit :
    (limit f n : ℕ) (out : Text)
    → n < f
    → n ≤ limit
    → parse_digits limit 0 (emit f n out) ≡ parse_digits limit n out
unfolding emit
parse_digits-emit limit zero n out h k = elim h [ ]
parse_digits-emit limit (suc f) n out h k = elim (Bool-cases (ltb n 10)) [
  | inl small ↦ rw small (
      parse_digits-digit limit 0 n out (ground arith)
      ∙ ap (λ (m : ℕ). parse_digits limit m out) (ground arith))
  | inr large ↦ rw large (
      parse_digits-emit limit f (n / 10) _ (ground arith) (ground arith)
      ∙ (parse_digits-digit limit (n / 10) n out (omega arith)
          ∙ ap (λ (m : ℕ). parse_digits limit m out) (omega arith)))
]

pub parse_digits-to_decimal :
    (limit n : ℕ) → n ≤ limit → parse_digits limit 0 (to_decimal n) ≡ some n
unfolding to_decimal
parse_digits-to_decimal limit n h =
    parse_digits-emit limit (suc n) n [] (omega arith) h ∙ (unfold parse_digits in refl)

-- A text of digits has no sign.
pub parse_unsigned-digits :
    (limit : ℕ) (c : ℕ) (s : Text)
    → is_digit c ≡ true
    → parse_unsigned limit (c ∷ s) ≡ parse_digits limit 0 (c ∷ s)
unfolding parse_unsigned
parse_unsigned-digits limit c [] h = refl
parse_unsigned-digits limit c (d ∷ s) h = ground arith

pub parse_digits-zeros :
    (limit k : ℕ) (s : Text) → parse_digits limit 0 (replicate k b'0' ++ s) ≡ parse_digits limit 0 s
unfolding parse_digits
parse_digits-zeros limit zero s = refl
parse_digits-zeros limit (suc k) s = ground (arith, parse_digits-zeros limit k s)

emit-ne-nil : (f n : ℕ) (out : Text) → 0 < length (emit (suc f) n out)
unfolding emit
emit-ne-nil zero n out = ground arith
emit-ne-nil (suc f) n out = ground (arith, emit-ne-nil f (n / 10) ((b'0' + n % 10) ∷ out))

pub to_decimal-ne-nil : (n : ℕ) → 0 < length (to_decimal n)
unfolding to_decimal
to_decimal-ne-nil n = emit-ne-nil n n []

length-emit-le :
    (k f n : ℕ) (out : Text) → n < 10 ^ suc k → length (emit f n out) ≤ suc k + length out
unfolding emit
length-emit-le k zero n out h = omega arith
length-emit-le zero (suc f) n out h = ground arith
length-emit-le (suc k) (suc f) n out h =
    let fits : n / 10 < 10 ^ suc k = omega (arith, pow-suc 10 (suc k)) in
    ground (arith, length-emit-le k f (n / 10) ((b'0' + n % 10) ∷ out) fits)

-- A number below 10 ^ k has at most k digits.
pub length-to_decimal-le : (k n : ℕ) → n < 10 ^ suc k → length (to_decimal n) ≤ suc k
unfolding to_decimal
length-to_decimal-le k n h = omega (arith, length-emit-le k (suc n) n [] h)

pub length-zero_padded : (k n : ℕ) → n < 10 ^ suc k → length (zero_padded (suc k) n) ≡ suc k
unfolding zero_padded
length-zero_padded k n h = omega (
  arith,
  length-append (replicate (suc k - length (to_decimal n)) b'0') (to_decimal n),
  length-replicate {A = ℕ} (suc k - length (to_decimal n)) b'0',
  length-to_decimal-le k n h,
)

IsDigits-zeros : (k : ℕ) → IsDigits (replicate k b'0')
IsDigits-zeros zero = tt
IsDigits-zeros (suc k) = (refl, IsDigits-zeros k)

pub zero_padded-IsDigits : (width n : ℕ) → IsDigits (zero_padded width n)
unfolding zero_padded
zero_padded-IsDigits width n =
    All-append (λ c. is_digit c ≡ true) (replicate (width - length (to_decimal n)) b'0') _
      (IsDigits-zeros _) (to_decimal-IsDigits n)

pub parse_digits-zero_padded :
    (limit width n : ℕ) → n ≤ limit → parse_digits limit 0 (zero_padded width n) ≡ some n
unfolding zero_padded
parse_digits-zero_padded limit width n h =
    parse_digits-zeros limit (width - length (to_decimal n)) (to_decimal n)
    ∙ parse_digits-to_decimal limit n h

-- A text of digits has no dot, so it is one piece.
pub split-digits : (s : Text) → IsDigits s → split b'.' s ≡ s ∷ []
unfolding split
split-digits [] h = refl
split-digits (c ∷ s) h = ground (arith, split-digits s)

pub split-dot : (s t : Text) → IsDigits s → split b'.' (s ++ b'.' ∷ t) ≡ s ∷ split b'.' t
unfolding split
split-dot [] t h = refl
split-dot (c ∷ s) t h = ground (arith, split-dot s t)

pub parse_unsigned-IsDigits :
    (limit : ℕ) (s : Text)
    → IsDigits s
    → 0 < length s
    → parse_unsigned limit s ≡ parse_digits limit 0 s
parse_unsigned-IsDigits limit [] h pos = elim pos [ ]
parse_unsigned-IsDigits limit (c ∷ s) h pos = parse_unsigned-digits limit c s h.0

-- `n.to_string().parse()` gives `n` back.
pub parse_unsigned-to_decimal :
    (limit n : ℕ) → n ≤ limit → parse_unsigned limit (to_decimal n) ≡ some n
parse_unsigned-to_decimal limit n h =
    parse_unsigned-IsDigits limit (to_decimal n) (to_decimal-IsDigits n) (to_decimal-ne-nil n)
    ∙ parse_digits-to_decimal limit n h

parse_digits-le :
    (limit acc : ℕ) (s : Text) (n : ℕ) → acc ≤ limit → parse_digits limit acc s ≡ some n → n ≤ limit
unfolding parse_digits
parse_digits-le limit acc [] n h e = ground arith
parse_digits-le limit acc (c ∷ s) n h e =
    ground (arith, parse_digits-le limit (acc * 10 + (c - b'0')) s n)

-- What is parsed fits the type.
pub parse_unsigned-le : (limit : ℕ) (s : Text) (n : ℕ) → parse_unsigned limit s ≡ some n → n ≤ limit
parse_unsigned-le limit [] n e = unfold parse_unsigned in ground arith
parse_unsigned-le limit (c ∷ []) n e =
    parse_digits-le limit 0 (c ∷ []) n (omega arith) (unfold parse_unsigned in e)
parse_unsigned-le limit (c ∷ d ∷ s) n e = elim (Bool-cases (c == b'+')) [
  | inl plus ↦
      parse_digits-le limit 0 (d ∷ s) n (omega arith) (unfold parse_unsigned in rw plus at e)
  | inr bare ↦
      parse_digits-le limit 0 (c ∷ d ∷ s) n (omega arith) (unfold parse_unsigned in rw bare at e)
]

-- What one round of the parser has checked, when all of it succeeds.
pub parse_digits-first :
    (limit acc c : ℕ) (s : Text) (n : ℕ)
    → parse_digits limit acc (c ∷ s) ≡ some n
    → (is_digit c ≡ true)
      × (acc * 10 + (c - b'0') ≤ limit)
      × (parse_digits limit (acc * 10 + (c - b'0')) s ≡ some n)
unfolding parse_digits
parse_digits-first limit acc c s n h = ground arith
