-- ===== src/ClobOrder/Parse.antt =====
-- What `parse_scaled_decimal` of crates/rtt-core/src/clob_order.rs reads.
use rtt.Prelude.{
  ℕ, suc, ◌+◌, ◌-◌, ◌*◌, ◌/◌, ◌%◌, ◌^◌, ◌≤◌, ◌<◌, ◌≡◌, refl, ◌∙◌, ap, Bool, true, false, some, [],
  ◌∷◌, ◌++◌, length, Result, ok, err, and_then, max_u128, arith,
}
use rtt.Order.{Text}
use rtt.Decimal.{is_digit, parse_digits, to_decimal, zero_padded}
use rtt.Decimal.RoundTrip.{
  parse_digits-first, length-zero_padded, parse_digits-to_decimal, parse_digits-zero_padded,
  to_decimal-ne-nil,
}
use rtt.Units.{scale, format_units}
use rtt.ClobOrder.{
  Scan, AmountError, unsupported_precision, scan_byte, scan, scaled, parse_scaled_decimal,
  base_unit_scale,
}

abbrev scan5 : ℕ → ℕ → ℕ → Bool → Bool → Scan
scan5 w f k dot digit = record {
  whole = w;
  fractional = f;
  fractional_digits = k;
  saw_dot = dot;
  saw_digit = digit;
}

abbrev saw : Bool → Text → Bool
saw b [] = b
saw b (c ∷ s) = true

saw-true : (ds : Text) → saw true ds ≡ true
saw-true [] = refl
saw-true (d ∷ ds) = refl

module _ (field value : Text) where
  digit_before :
      (w : ℕ) (b : Bool) (c : ℕ)
      → is_digit c ≡ true
      → w * 10 + (c - b'0') ≤ max_u128
      → scan_byte field value (scan5 w 0 0 false b) c
        ≡ ok (scan5 (w * 10 + (c - b'0')) 0 0 false true)
  unfolding scan_byte
  digit_before w b c h k = ground arith

  scan_step :
      (s s' : Scan) (c : ℕ) (cs : Text)
      → scan_byte field value s c ≡ ok s'
      → scan field value s (c ∷ cs) ≡ scan field value s' cs
  unfolding scan
  scan_step s s' c cs e =
      ap (λ (r : Result AmountError Scan). and_then r (λ t. scan field value t cs)) e

  scan_before :
      (w n : ℕ) (b : Bool) (ds rest : Text)
      → parse_digits max_u128 w ds ≡ some n
      → scan field value (scan5 w 0 0 false b) (ds ++ rest)
        ≡ scan field value (scan5 n 0 0 false (saw b ds)) rest
  unfolding scan parse_digits
  scan_before w n b [] rest h = ground arith
  scan_before w n b (c ∷ ds) rest h =
      let (digit, fits, more) = parse_digits-first max_u128 w c ds n h in
      let w' = w * 10 + (c - b'0') in
      scan_step (scan5 w 0 0 false b) (scan5 w' 0 0 false true) c (ds ++ rest)
        (digit_before w b c digit fits)
      ∙ scan_before w' n true ds rest more
      ∙ ap (λ (d : Bool). scan field value (scan5 n 0 0 false d) rest) (saw-true ds)

  digit_after :
      (w f k : ℕ) (b : Bool) (c : ℕ)
      → is_digit c ≡ true
      → f * 10 + (c - b'0') ≤ max_u128
      → k < 6
      → scan_byte field value (scan5 w f k true b) c
        ≡ ok (scan5 w (f * 10 + (c - b'0')) (k + 1) true true)
  unfolding scan_byte
  digit_after w f k b c h l m = ground arith

  scan_after :
      (w f k n : ℕ) (b : Bool) (fs : Text)
      → parse_digits max_u128 f fs ≡ some n
      → k + length fs ≤ 6
      → scan field value (scan5 w f k true b) fs ≡ ok (scan5 w n (k + length fs) true (saw b fs))
  unfolding scan parse_digits
  scan_after w f k n b [] h l = ground arith
  scan_after w f k n b (c ∷ fs) h l =
      let (digit, fits, more) = parse_digits-first max_u128 f c fs n h in
      let f' = f * 10 + (c - b'0') in
      let same_length : k + 1 + length fs ≡ k + suc (length fs) = omega arith in
      scan_step (scan5 w f k true b) (scan5 w f' (k + 1) true true) c fs
        (digit_after w f k b c digit fits (omega arith))
      ∙ scan_after w f' (k + 1) n true fs more (omega arith)
      ∙ ap (λ (d : Bool). ok (scan5 w n (k + 1 + length fs) true d)) (saw-true fs)
      ∙ ap (λ (j : ℕ). ok (scan5 w n j true true)) same_length

  -- A seventh decimal is refused, whatever follows it.
  scan_too_long :
      (w f n : ℕ) (k : ℕ) (b : Bool) (fs : Text) (c : ℕ) (rest : Text)
      → parse_digits max_u128 f fs ≡ some n
      → k + length fs ≡ 6
      → is_digit c ≡ true
      → scan field value (scan5 w f k true b) (fs ++ c ∷ rest)
        ≡ err (unsupported_precision field value 6)
  unfolding scan parse_digits scan_byte
  scan_too_long w f n k b [] c rest h l d = ground arith
  scan_too_long w f n k b (e ∷ fs) c rest h l d =
      let (digit, fits, more) = parse_digits-first max_u128 f e fs n h in
      let f' = f * 10 + (e - b'0') in
      scan_step (scan5 w f k true b) (scan5 w f' (k + 1) true true) e (fs ++ c ∷ rest)
        (digit_after w f k b e digit fits (omega arith))
      ∙ scan_too_long w f' n (k + 1) true fs c rest more (omega arith) d

  scan_dot :
      (w : ℕ) (b : Bool) (rest : Text)
      → scan field value (scan5 w 0 0 false b) (b'.' ∷ rest)
        ≡ scan field value (scan5 w 0 0 true b) rest
  unfolding scan scan_byte
  scan_dot w b rest = refl

  scaled_lem :
      (w f k : ℕ)
      → w * base_unit_scale + f * 10 ^ (6 - k) ≤ max_u128
      → scaled field value (scan5 w f k true true) ≡ ok (w * base_unit_scale + f * 10 ^ (6 - k))
  unfolding scaled
  scaled_lem w f k h = ground arith

-- A whole part and at most six decimals are read as millionths, exactly, if the value fits a `u128`.
pub parse_scaled_decimal_exact :
    (ds fs field : Text) (w f : ℕ)
    → parse_digits max_u128 0 ds ≡ some w
    → parse_digits max_u128 0 fs ≡ some f
    → 0 < length ds
    → length fs ≤ 6
    → w * base_unit_scale + f * 10 ^ (6 - length fs) ≤ max_u128
    → parse_scaled_decimal (ds ++ b'.' ∷ fs) field
      ≡ ok (w * base_unit_scale + f * 10 ^ (6 - length fs))
unfolding parse_scaled_decimal
parse_scaled_decimal_exact [] fs field w f a b h k l = ground arith
parse_scaled_decimal_exact (c ∷ ds) fs field w f a b h k l =
    let value = (c ∷ ds) ++ b'.' ∷ fs in
    let read =
      scan_before field value 0 w false (c ∷ ds) (b'.' ∷ fs) a
      ∙ scan_dot field value w true fs
      ∙ scan_after field value w 0 0 f true fs b (omega arith)
      ∙ ap (λ (d : Bool). ok (scan5 w f (0 + length fs) true d)) (saw-true fs)
      ∙ ap (λ (j : ℕ). ok (scan5 w f j true true)) (omega arith) in
    ap (λ (r : Result AmountError Scan). and_then r (scaled field value)) read
    ∙ scaled_lem field value w f (length fs) l

-- A seventh decimal is an error, however the text goes on: amounts are never rounded as they are read.
parse_scaled_decimal_seventh :
    (ds fs rest field : Text) (w f c : ℕ)
    → parse_digits max_u128 0 ds ≡ some w
    → parse_digits max_u128 0 fs ≡ some f
    → 0 < length ds
    → length fs ≡ 6
    → is_digit c ≡ true
    → parse_scaled_decimal (ds ++ (b'.' ∷ (fs ++ (c ∷ rest)))) field
      ≡ err (unsupported_precision field (ds ++ (b'.' ∷ (fs ++ (c ∷ rest)))) 6)
unfolding parse_scaled_decimal
parse_scaled_decimal_seventh [] fs rest field w f c a b h k d = ground arith
parse_scaled_decimal_seventh (e ∷ ds) fs rest field w f c a b h k d =
    let value = (e ∷ ds) ++ (b'.' ∷ (fs ++ (c ∷ rest))) in
    let read =
      scan_before field value 0 w false (e ∷ ds) (b'.' ∷ (fs ++ (c ∷ rest))) a
      ∙ scan_dot field value w true (fs ++ c ∷ rest)
      ∙ scan_too_long field value w 0 f 0 true fs c rest b (omega arith) d in
    ap (λ (r : Result AmountError Scan). and_then r (scaled field value)) read

-- An amount that fits a `u128` and was formatted by the order manager is read as the same amount.
pub parse_scaled_decimal-format_units :
    (n : ℕ) (field : Text) → n ≤ max_u128 → parse_scaled_decimal (format_units n) field ≡ ok n
unfolding format_units
parse_scaled_decimal-format_units n field h =
    let six = length-zero_padded 5 (n % scale) (omega arith) in
    let exact =
      parse_scaled_decimal_exact (to_decimal (n / scale)) (zero_padded 6 (n % scale)) field
        (n / scale) (n % scale) (parse_digits-to_decimal max_u128 (n / scale) (omega arith))
        (parse_digits-zero_padded max_u128 6 (n % scale) (omega arith))
        (to_decimal-ne-nil (n / scale)) (omega (arith, six)) in
    let value : n / scale * base_unit_scale
          + n % scale * 10 ^ (6 - length (zero_padded 6 (n % scale)))
        ≡ n =
      rw six (omega arith) in
    exact (omega (arith, value, h)) ∙ ap ok value
