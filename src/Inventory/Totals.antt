-- ===== src/Inventory/Totals.antt =====
-- The positions of crates/pm-strategy/src/runtime.rs are the sums of what the strategy was told.
use rtt.Prelude.{
  ℕ, zero, suc, ◌-◌, ◌/◌, ◌%◌, ◌≤◌, ◌<◌, ◌≡◌, refl, ap, ◌∙◌, true, false, [], ◌∷◌, ◌++◌, some,
  length, take, replicate, max_u64, arith, ◌==◌, subst,
}
use rtt.Order.{Text, text_ord}
use rtt.Decimal.{is_digit, parse_unsigned, to_decimal, zero_padded}
use rtt.Decimal.RoundTrip.{
  IsDigits, to_decimal-IsDigits, zero_padded-IsDigits, length-zero_padded, split-digits, split-dot,
  parse_unsigned-to_decimal, to_decimal-ne-nil, parse_unsigned-IsDigits, parse_digits-zero_padded,
}
use rtt.Units.{scale, six_digits, parse_units, format_units}
use rtt.Inventory.{trim_end, put_unless_end, or_zero, format_units_trimmed}

take_all : (k : ℕ) (s : Text) → length s ≤ k → take k s ≡ s
take_all zero [] h = refl
take_all zero (c ∷ s) h = elim h [ ]
take_all (suc k) [] h = refl
take_all (suc k) (c ∷ s) h = ap (◌∷◌ c) (take_all k s (omega arith))

length-put : (c d : ℕ) (s : Text) → length (put_unless_end c d s) ≤ suc (length s)
length-put c d [] = ground arith
length-put c d (x ∷ s) = ground arith

length-trim_end : (c : ℕ) (s : Text) → length (trim_end c s) ≤ length s
unfolding trim_end
length-trim_end c [] = omega arith
length-trim_end c (d ∷ s) = omega (arith, length-put c d (trim_end c s), length-trim_end c s)

put-padded :
    (c d n : ℕ) (r s : Text)
    → length r ≤ n
    → r ++ replicate (n - length r) c ≡ s
    → put_unless_end c d r ++ replicate (suc n - length (put_unless_end c d r)) c ≡ d ∷ s
put-padded c d n [] s h e = ground arith
put-padded c d n (x ∷ r) s h e =
    let less : suc n - suc (suc (length r)) ≡ n - suc (length r) = omega arith in
    rw less (ap (◌∷◌ d) e)

-- The zeros that are trimmed are the zeros that are padded.
trim_end-padded :
    (c : ℕ) (s : Text) → trim_end c s ++ replicate (length s - length (trim_end c s)) c ≡ s
unfolding trim_end
trim_end-padded c [] = refl
trim_end-padded c (d ∷ s) =
    put-padded c d (length s) (trim_end c s) s (length-trim_end c s) (trim_end-padded c s)

put-IsDigits :
    (c d : ℕ) (s : Text) → is_digit d ≡ true → IsDigits s → IsDigits (put_unless_end c d s)
put-IsDigits c d [] h k = ground arith
put-IsDigits c d (x ∷ s) h k = (h, k)

trim_end-IsDigits : (c : ℕ) (s : Text) → IsDigits s → IsDigits (trim_end c s)
unfolding trim_end
trim_end-IsDigits c [] h = tt
trim_end-IsDigits c (d ∷ s) h = put-IsDigits c d (trim_end c s) h.0 (trim_end-IsDigits c s h.1)

put-ne : (c d : ℕ) (s : Text) → (d == c) ≡ false → put_unless_end c d s ≡ d ∷ s
put-ne c d [] h = ground arith
put-ne c d (x ∷ s) h = refl

put-append : (c d x : ℕ) (s t : Text) → put_unless_end c d (s ++ x ∷ t) ≡ d ∷ s ++ x ∷ t
put-append c d x [] t = refl
put-append c d x (y ∷ s) t = refl

-- A text that is kept to its end keeps all that stands before it.
trim_end-append : (c x : ℕ) (s t u : Text) → trim_end c t ≡ x ∷ u → trim_end c (s ++ t) ≡ s ++ x ∷ u
unfolding trim_end
trim_end-append c x [] t u h = h
trim_end-append c x (d ∷ s) t u h =
    ap (put_unless_end c d) (trim_end-append c x s t u h) ∙ put-append c d x s u

trim_zeros : (w f : Text) → trim_end b'0' (w ++ b'.' ∷ f) ≡ w ++ b'.' ∷ trim_end b'0' f
trim_zeros w f =
    trim_end-append b'0' b'.' w (b'.' ∷ f) (trim_end b'0' f)
      (unfold trim_end in put-ne b'0' b'.' (trim_end b'0' f) refl)

digit-ne-dot : (d : ℕ) → is_digit d ≡ true → (d == b'.') ≡ false
digit-ne-dot d h = ground arith

trim_dot-digits : (s : Text) → IsDigits s → trim_end b'.' s ≡ s
unfolding trim_end
trim_dot-digits [] h = refl
trim_dot-digits (d ∷ s) h = rw (trim_dot-digits s h.1) (put-ne b'.' d s (digit-ne-dot d h.0))

trim_dot : (w : Text) → IsDigits w → trim_end b'.' (w ++ b'.' ∷ []) ≡ w
unfolding trim_end
trim_dot [] h = refl
trim_dot (d ∷ w) h = rw (trim_dot w h.1) (put-ne b'.' d w (digit-ne-dot d h.0))

trim_fraction :
    (w : Text) (x : ℕ) (g : Text)
    → IsDigits (x ∷ g)
    → trim_end b'.' (w ++ b'.' ∷ x ∷ g) ≡ w ++ b'.' ∷ x ∷ g
trim_fraction w x g h =
    trim_end-append b'.' b'.' w (b'.' ∷ x ∷ g) (x ∷ g)
      (unfold trim_end in ap (put_unless_end b'.' b'.') (trim_dot-digits (x ∷ g) h))

or_zero-kept : (s : Text) → 0 < length s → or_zero s ≡ s
or_zero-kept [] h = elim h [ ]
or_zero-kept (c ∷ s) h = refl

or_zero-append : (s : Text) (c : ℕ) (t : Text) → or_zero (s ++ c ∷ t) ≡ s ++ c ∷ t
or_zero-append [] c t = refl
or_zero-append (d ∷ s) c t = refl

-- An amount is written as its whole part alone, or with what is left of its fraction.
module _ (n : ℕ) where
  abbrev whole : Text
  whole = to_decimal (n / scale)

  abbrev fraction : Text
  fraction = zero_padded 6 (n % scale)

  format-whole : trim_end b'0' fraction ≡ [] → format_units_trimmed n ≡ whole
  unfolding format_units_trimmed format_units
  format-whole e =
      rw (trim_zeros whole fraction, e, trim_dot whole (to_decimal-IsDigits (n / scale)))
        (or_zero-kept whole (to_decimal-ne-nil (n / scale)))

  format-fraction :
      (x : ℕ) (g : Text)
      → trim_end b'0' fraction ≡ x ∷ g
      → format_units_trimmed n ≡ whole ++ b'.' ∷ x ∷ g
  unfolding format_units_trimmed format_units
  format-fraction x g e =
      let digits : IsDigits (x ∷ g) =
        subst IsDigits e (trim_end-IsDigits b'0' fraction (zero_padded-IsDigits 6 (n % scale))) in
      rw (trim_zeros whole fraction, e, trim_fraction whole x g digits)
        (or_zero-append whole b'.' (x ∷ g))

  six : length fraction ≡ 6
  six = length-zero_padded 5 (n % scale) (omega arith)

  six_digits-trimmed : six_digits (trim_end b'0' fraction) ≡ fraction
  unfolding six_digits
  six_digits-trimmed =
      let short : length (trim_end b'0' fraction) ≤ 6 =
        omega (arith, length-trim_end b'0' fraction, six) in
      rw (take_all 6 (trim_end b'0' fraction) short) (
        subst
          (λ (k : ℕ).
            trim_end b'0' fraction ++ replicate (k - length (trim_end b'0' fraction)) b'0'
            ≡ fraction)
          six (trim_end-padded b'0' fraction))

  parse-fraction : parse_unsigned max_u64 (six_digits (trim_end b'0' fraction)) ≡ some (n % scale)
  parse-fraction = rw six_digits-trimmed (
      parse_unsigned-IsDigits max_u64 fraction (zero_padded-IsDigits 6 (n % scale))
        (omega (arith, six))
      ∙ parse_digits-zero_padded max_u64 6 (n % scale) (omega arith))

-- An amount that fits a `u64` is read back from its trimmed text.
pub parse_units-format_units_trimmed :
    (n : ℕ) → n ≤ max_u64 → parse_units (format_units_trimmed n) ≡ n
parse_units-format_units_trimmed n h = go (trim_end b'0' (fraction n)) refl
  where
    first : parse_unsigned max_u64 (whole n) ≡ some (n / scale)
    first = parse_unsigned-to_decimal max_u64 (n / scale) (omega arith)

    second :
        (g : Text)
        → trim_end b'0' (fraction n) ≡ g
        → parse_unsigned max_u64 (six_digits g) ≡ some (n % scale)
    second g e =
        subst (λ (g : Text). parse_unsigned max_u64 (six_digits g) ≡ some (n % scale)) e
          (parse-fraction n)

    go : (g : Text) → trim_end b'0' (fraction n) ≡ g → parse_units (format_units_trimmed n) ≡ n
    go [] e = rw (format-whole n e) (
        unfold parse_units in
        rw (split-digits (whole n) (to_decimal-IsDigits (n / scale)), first)
          (ground (arith, second [] e)))
    go (x ∷ g) e =
        let digits : IsDigits (x ∷ g) =
          subst IsDigits e
            (trim_end-IsDigits b'0' (fraction n) (zero_padded-IsDigits 6 (n % scale))) in
        rw (format-fraction n x g e) (
          unfold parse_units in
          rw
            (
              split-dot (whole n) (x ∷ g) (to_decimal-IsDigits (n / scale)),
              split-digits (x ∷ g) digits,
              first,
              second (x ∷ g) e,
            )
            (ground arith))
