-- ===== src/Strategies/Triggers.antt =====
-- The triggers of crates/pm-strategy/src/spread.rs and threshold.rs over a whole backtest.
use rtt.Prelude.{
  ℕ, zero, suc, ◌+◌, ◌<◌, ◌≤◌, ◌≡◌, refl, ap, ◌∙◌, List, [], ◌∷◌, Option, none, some, map, All,
  All-imp, length, max_u64, arith, ok, Option-cases, inl, inr,
}
use rtt.Order.{Text, text_ord}
use rtt.Safety.{wrap_u64}
use rtt.Trigger.{OrderBookSnapshot, TriggerMessage}
use rtt.Backtest.{backtest_loop, run_backtest}
use rtt.Strategies.{
  Float, PriceStrategy, BuiltStrategy, StrategyKind, spread, threshold, spread_price,
  threshold_price, trigger_price, make_trigger, on_book_update, price_strategy, StrategyConfig,
  build_strategy,
}

-- `n` numbers, from one on.
abbrev pub count_from : ℕ → ℕ → List ℕ
count_from first zero = []
count_from first (suc n) = first ∷ count_from (suc first) n

abbrev put_price : Option Text → List Text → List Text
put_price none prices = prices
put_price (some price) prices = price ∷ prices

-- A trigger of the asset, the side, the size and the type of the order that were configured.
abbrev pub Carries : {F64 : Type 0} → PriceStrategy F64 → TriggerMessage → Type 0
Carries s trigger =
    (trigger.token_id ≡ s.token_id)
    × (trigger.side ≡ s.side)
    × (trigger.size ≡ s.size)
    × (trigger.order_type ≡ s.order_type)

module _ {F64 : Type 0} (float : Float F64) where
  -- The prices at which the strategy fires, snapshot by snapshot.
  abbrev pub fired_prices : BuiltStrategy F64 → List (ℕ × OrderBookSnapshot) → List Text
  fired_prices s [] = []
  fired_prices s ((elapsed_ns, snapshot) ∷ snapshots) =
      put_price (trigger_price float s.0 s.1 snapshot) (fired_prices s snapshots)

  -- The number of the next trigger has no part in whether the strategy fires.
  price_renumbered :
      (kind : StrategyKind) (s : PriceStrategy F64) (n : ℕ) (snapshot : OrderBookSnapshot)
      → trigger_price float kind (record s { next_trigger_id = n }) snapshot
        ≡ trigger_price float kind s snapshot
  unfolding spread_price threshold_price
  price_renumbered spread s n snapshot = refl
  price_renumbered threshold s n snapshot = refl

  prices_renumbered :
      (kind : StrategyKind) (s : PriceStrategy F64) (n : ℕ)
      (snapshots : List (ℕ × OrderBookSnapshot))
      → fired_prices (kind, record s { next_trigger_id = n }) snapshots
        ≡ fired_prices (kind, s) snapshots
  prices_renumbered kind s n [] = refl
  prices_renumbered kind s n ((elapsed_ns, snapshot) ∷ snapshots) =
      ground (arith, price_renumbered kind s n snapshot, prices_renumbered kind s n snapshots)

  loop_triggers :
      (kind : StrategyKind) (s : PriceStrategy F64) (snapshots : List (ℕ × OrderBookSnapshot))
      → s.next_trigger_id + length snapshots ≤ max_u64
      → let out = (backtest_loop (price_strategy float) snapshots (kind, s)).0 in
        (map (λ t. t.trigger_id) out ≡ count_from s.next_trigger_id (length out))
        × (map (λ t. t.price) out ≡ fired_prices (kind, s) snapshots)
        × All (Carries s) out
  unfolding backtest_loop on_book_update make_trigger
  loop_triggers kind s [] h = (refl, refl, tt)
  loop_triggers kind s ((elapsed_ns, snapshot) ∷ snapshots) h =
      elim (Option-cases (trigger_price float kind s snapshot)) [
        | inl e ↦ rw e (loop_triggers kind s snapshots (omega arith))
        | inr (price, e) ↦
            let wraps : wrap_u64 (s.next_trigger_id + 1) ≡ suc s.next_trigger_id = omega arith in
            let n = wrap_u64 (s.next_trigger_id + 1) in
            let next : PriceStrategy F64 = record s { next_trigger_id = n } in
            let later = (backtest_loop (price_strategy float) snapshots (kind, next)).0 in
            let again = loop_triggers kind next snapshots (omega arith) in
            rw e (
              ap (◌∷◌ s.next_trigger_id)
                  (again.0 ∙ ap (λ (n : ℕ). count_from n (length later)) wraps),
              ap (◌∷◌ price) (again.1 ∙ prices_renumbered kind s n snapshots),
              ((refl, refl, refl, refl), again.2),
            )
      ]

build_strategy-fields :
    {F64 : Type 0} (config : StrategyConfig F64) (kind : StrategyKind) (s : PriceStrategy F64)
    → build_strategy config ≡ ok (kind, s)
    → (s.next_trigger_id ≡ 1)
      × (s.token_id ≡ config.token_id)
      × (s.side ≡ config.side)
      × (s.size ≡ config.size)
      × (s.order_type ≡ config.order_type)
unfolding build_strategy
build_strategy-fields config kind s h = ground (arith, h)

-- A strategy built from a configuration and run over snapshots gives triggers numbered from 1 on without a
-- gap, at the prices at which it fires, in order and one for each, and every one of them is for the asset,
-- the side, the size and the type of the configuration; there are fewer snapshots than the largest `u64`.
pub run_backtest-triggers :
    {F64 : Type 0} (float : Float F64) (config : StrategyConfig F64) (s : BuiltStrategy F64)
    (snapshots : List (ℕ × OrderBookSnapshot))
    → build_strategy config ≡ ok s
    → length snapshots < max_u64
    → let out = (run_backtest (price_strategy float) snapshots s).outputs in
      (map (λ t. t.trigger_id) out ≡ count_from 1 (length out))
      × (map (λ t. t.price) out ≡ fired_prices float s snapshots)
      × All
          (λ t.
            (t.token_id ≡ config.token_id)
            × (t.side ≡ config.side)
            × (t.size ≡ config.size)
            × (t.order_type ≡ config.order_type))
          out
unfolding run_backtest
run_backtest-triggers float config (kind, s) snapshots h k =
    let same_fields = build_strategy-fields config kind s h in
    let out = (backtest_loop (price_strategy float) snapshots (kind, s)).0 in
    let triggers = loop_triggers float kind s snapshots (omega (arith, same_fields.0)) in
    (
      triggers.0 ∙ ap (λ (n : ℕ). count_from n (length out)) same_fields.0,
      triggers.1,
      All-imp
          (λ t c.
            (c.0 ∙ same_fields.1, c.1 ∙ same_fields.2, c.2 ∙ same_fields.3, c.3 ∙ same_fields.4))
          out triggers.2,
    )
