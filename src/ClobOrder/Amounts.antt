-- ===== src/ClobOrder/Amounts.antt =====
-- What an order costs at most: `compute_amounts` of crates/rtt-core/src/clob_order.rs.
use rtt.Prelude.{
  ℕ, ◌+◌, ◌*◌, ◌/◌, ◌≤◌, ◌<◌, ◌≡◌, ok, and_then, max_u128, arith, Result-cases, inl, inr,
}
use rtt.Order.{Text, text}
use rtt.Trigger.{Side, buy, sell}
use rtt.ClobOrder.{
  parse_scaled_decimal, compute_amounts, amounts_for, base_unit_scale, price_and_size, usdc_of,
  or_overflow,
}

costs :
    (field value : Text) (side : Side) (p t : ℕ) (amounts : ℕ × ℕ)
    → and_then (or_overflow field value (usdc_of p t)) (λ u. ok (amounts_for side u t)) ≡ ok amounts
    → let cost = p * t / base_unit_scale in
      (p * t ≤ max_u128)
      × (cost * base_unit_scale ≤ p * t)
      × (p * t < (cost + 1) * base_unit_scale)
      × (amounts ≡ amounts_for side cost t)
costs field value side p t amounts h = ground arith

-- Who gives what: a buyer gives the cost and takes the tokens, a seller the other way round.
abbrev pub Trades : Side → ℕ → ℕ → ℕ → ℕ → Type 0
Trades buy maker taker cost tokens = (maker ≡ cost) × (taker ≡ tokens)
Trades sell maker taker cost tokens = (maker ≡ tokens) × (taker ≡ cost)

amounts_for-Trades :
    (side : Side) (maker taker cost tokens : ℕ)
    → (maker, taker) ≡ amounts_for side cost tokens
    → Trades side maker taker cost tokens
amounts_for-Trades buy maker taker cost tokens e = (ground (arith, e), ground (arith, e))
amounts_for-Trades sell maker taker cost tokens e = (ground (arith, e), ground (arith, e))

-- The cost of an order is its price times its size, rounded down to a millionth: a buyer never pays
-- more than the limit price for the size, which it receives, nor more than a millionth less. A seller
-- gives the size and receives that cost. Both amounts are the parsed ones, and an order whose text is
-- malformed or whose product does not fit a `u128` has no amounts.
pub compute_amounts_exact :
    (price size : Text) (side : Side) (maker taker : ℕ)
    → compute_amounts price size side ≡ ok (maker, taker)
    → (p : ℕ) × (t : ℕ) × (cost : ℕ) × (parse_scaled_decimal price (text "price") ≡ ok p)
      × (parse_scaled_decimal size (text "size") ≡ ok t)
      × (p * t ≤ max_u128)
      × (cost * base_unit_scale ≤ p * t)
      × (p * t < (cost + 1) * base_unit_scale)
      × Trades side maker taker cost t
unfolding compute_amounts
compute_amounts_exact price size side maker taker h =
    elim (Result-cases (parse_scaled_decimal price (text "price"))) [
      | inl (p, e) ↦ elim (Result-cases (parse_scaled_decimal size (text "size"))) [
        | inl (t, d) ↦
            let cost =
              costs (text "makerAmount") (price_and_size price size) side p t (maker, taker)
                (rw (e, d) at h) in
            (
              p,
              t,
              p * t / base_unit_scale,
              e,
              d,
              cost.0,
              cost.1,
              cost.2,
              amounts_for-Trades side maker taker (p * t / base_unit_scale) t cost.3,
            )
        | inr (f, d) ↦ ground (arith, e, d, h)
      ]
      | inr (f, e) ↦ ground (arith, e, h)
    ]
