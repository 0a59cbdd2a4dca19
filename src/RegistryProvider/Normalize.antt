-- ===== src/RegistryProvider/Normalize.antt =====
-- Which markets of the Gamma service crates/pm-data/src/registry_provider.rs accepts, and what it makes
-- of them.
use rtt.Prelude.{
  ◌≡◌, refl, ap, sym, ◌↔◌, inl, inr, true, false, Option, none, some, List, [], ◌∷◌, length, arith,
  Bool-cases, Option-cases, ok, err, and_then-eq-ok, ok_or-eq-ok, or_else, map_some, if◌then◌else◌,
}
use rtt.Order.{Text, text, text_ord, same, eq_of_same}
use rtt.Market.{MarketMeta, OutcomeToken, yes_side, no_side}
use rtt.RegistryProvider.Gamma.{
  StringArrayField, encoded, plain, ScalarField, GammaMarket, Decoder, to_ascii_lowercase, see,
  find_assets, into_string, status_of, reward_of, strings_of, yes_no_pair, meta_of,
  normalize_gamma_market,
}

-- The token beside the last outcome with this name, in small letters.
abbrev pub last_named : Text → List Text → List Text → Option Text
last_named name [] tokens = none
last_named name (outcome ∷ outcomes) [] = none
last_named name (outcome ∷ outcomes) (token ∷ tokens) =
    or_else (last_named name outcomes tokens)
      (if same (to_ascii_lowercase outcome) name then some token else none)

abbrev pub yes_token : Text → OutcomeToken
yes_token token = record { asset_id = token; side = yes_side }

abbrev pub no_token : Text → OutcomeToken
no_token token = record { asset_id = token; side = no_side }

yes-ne-no : same (text "yes") (text "no") ≡ false
unfolding same text_ord
yes-ne-no = refl

only_one : (name : Text) → same name (text "yes") ≡ true → same name (text "no") ≡ false
only_one name h = rw (eq_of_same name (text "yes") h) yes-ne-no

find_assets-last_named :
    (outcomes tokens : List Text) (yes_asset no_asset : Option OutcomeToken)
    → find_assets outcomes tokens (yes_asset, no_asset) ≡ (
      or_else (map_some yes_token (last_named (text "yes") outcomes tokens)) yes_asset,
      or_else (map_some no_token (last_named (text "no") outcomes tokens)) no_asset,
    )
unfolding find_assets see
find_assets-last_named [] tokens yes_asset no_asset = refl
find_assets-last_named (outcome ∷ outcomes) [] yes_asset no_asset = refl
find_assets-last_named (outcome ∷ outcomes) (token ∷ tokens) yes_asset no_asset =
    let name = to_ascii_lowercase outcome in
    elim (Bool-cases (same name (text "yes"))) [
      | inl y ↦ ground (
        arith,
        only_one name y,
        find_assets-last_named outcomes tokens (some (yes_token token)) no_asset,
      )
      | inr n ↦ ground (
        arith,
        find_assets-last_named outcomes tokens yes_asset (some (no_token token)),
        find_assets-last_named outcomes tokens yes_asset no_asset,
      )
    ]

abbrev Paired : List Text → List Text → OutcomeToken × OutcomeToken → Type 0
Paired outcomes tokens pair =
    (length outcomes ≡ length tokens)
    × (yes_id : Text) × (no_id : Text) × (last_named (text "yes") outcomes tokens ≡ some yes_id)
    × (last_named (text "no") outcomes tokens ≡ some no_id)
    × (pair ≡ (yes_token yes_id, no_token no_id))

yes_no_pair-Paired :
    (id : Text) (outcomes tokens : List Text) (pair : OutcomeToken × OutcomeToken)
    → yes_no_pair id outcomes tokens ≡ ok pair
    → Paired outcomes tokens pair
unfolding yes_no_pair
yes_no_pair-Paired id outcomes tokens pair h =
    let found = find_assets-last_named outcomes tokens none none in
    elim (Option-cases (last_named (text "yes") outcomes tokens)) [
      | inl y ↦ absurd (ground (arith, found, y))
      | inr (yes_id, y) ↦ elim (Option-cases (last_named (text "no") outcomes tokens)) [
        | inl n ↦ absurd (ground (arith, found, y, n))
        | inr (no_id, n) ↦ (ground arith, yes_id, no_id, y, n, ground (arith, found))
      ]
    ]

Paired-yes_no_pair :
    (id : Text) (outcomes tokens : List Text) (pair : OutcomeToken × OutcomeToken)
    → Paired outcomes tokens pair
    → yes_no_pair id outcomes tokens ≡ ok pair
unfolding yes_no_pair
Paired-yes_no_pair id outcomes tokens pair (as_many, yes_id, no_id, y, n, made) =
    ground (arith, find_assets-last_named outcomes tokens none none)

-- The list that a field stands for, where it is there and decodes.
abbrev pub listed :
    {Number : Type 0} → Decoder Number → Option StringArrayField → Option (List Text)
listed decoder none = none
listed decoder (some (plain values)) = some values
listed decoder (some (encoded raw)) = elim (decoder.parse_strings raw) [
  | ok values ↦ some values
  | err e ↦ none
]

module _ {Number : Type 0} (decoder : Decoder Number) (market : GammaMarket Number) where
  -- Both lists decode and have the same length, an outcome is named "yes" and one "no", and a tick size
  -- is given; the market is made of the tokens beside the last of each, and of that tick size.
  pub record Describes (meta : MarketMeta) : Type 0 where
    pub outcomes : List Text
    pub tokens : List Text
    pub yes_id : Text
    pub no_id : Text
    pub tick : ScalarField Number
    pub outcomes_listed : listed decoder market.outcomes ≡ some outcomes
    pub tokens_listed : listed decoder market.clob_token_ids ≡ some tokens
    pub as_many : length outcomes ≡ length tokens
    pub yes_last : last_named (text "yes") outcomes tokens ≡ some yes_id
    pub no_last : last_named (text "no") outcomes tokens ≡ some no_id
    pub tick_given : or_else market.order_price_min_tick_size market.tick_size ≡ some tick
    pub same_id : meta.market_id ≡ market.id
    pub yes_beside : meta.yes_asset ≡ yes_token yes_id
    pub no_beside : meta.no_asset ≡ no_token no_id
    pub same_condition : meta.condition_id ≡ market.condition_id
    pub tick_kept : meta.tick_size ≡ into_string decoder tick
    pub least_order :
        meta.min_order_size
        ≡ map_some (into_string decoder) (or_else market.order_min_size market.minimum_order_size)
    pub state : meta.status ≡ status_of market
    pub rewarded : meta.reward ≡ reward_of decoder market

  strings_of-listed :
      (id missing invalid : Text) (field : Option StringArrayField) (values : List Text)
      → (strings_of decoder id missing invalid field ≡ ok values)
        ↔ (listed decoder field ≡ some values)
  unfolding strings_of
  strings_of-listed id missing invalid none values = (λ e. ground arith, λ e. ground arith)
  strings_of-listed id missing invalid (some (plain vs)) values =
      (λ e. ground arith, λ e. ground arith)
  strings_of-listed id missing invalid (some (encoded raw)) values =
      (λ e. ground arith, λ e. ground arith)

  accepted-Describes :
      (meta : MarketMeta) → normalize_gamma_market decoder market ≡ ok meta → Describes meta
  unfolding normalize_gamma_market
  accepted-Describes meta h =
      let (names, got, h1) = and_then-eq-ok _ _ h in
      let (ids, got_ids, h2) = and_then-eq-ok _ _ h1 in
      let (pair, paired, h3) = and_then-eq-ok _ _ h2 in
      let (tick, given, h4) = and_then-eq-ok _ _ h3 in
      let (as_many, yes_id, no_id, y, n, e) = yes_no_pair-Paired market.id names ids pair paired in
      let made : meta
          ≡ meta_of decoder market (yes_token yes_id, no_token no_id) (into_string decoder tick) =
        ground (arith, h4, e) in
      record {
        outcomes = names;
        tokens = ids;
        yes_id = yes_id;
        no_id = no_id;
        tick = tick;
        outcomes_listed = (strings_of-listed _ _ _ market.outcomes names).0 got;
        tokens_listed = (strings_of-listed _ _ _ market.clob_token_ids ids).0 got_ids;
        as_many = as_many;
        yes_last = y;
        no_last = n;
        tick_given = ok_or-eq-ok _ _ given;
        same_id = ap (λ m. m.market_id) made;
        yes_beside = ap (λ m. m.yes_asset) made;
        no_beside = ap (λ m. m.no_asset) made;
        same_condition = ap (λ m. m.condition_id) made;
        tick_kept = ap (λ m. m.tick_size) made;
        least_order = ap (λ m. m.min_order_size) made;
        state = ap (λ m. m.status) made;
        rewarded = ap (λ m. m.reward) made;
      }

  Describes-accepted :
      (meta : MarketMeta) → Describes meta → normalize_gamma_market decoder market ≡ ok meta
  unfolding normalize_gamma_market
  Describes-accepted meta d =
      let pair : OutcomeToken × OutcomeToken = (yes_token d.yes_id, no_token d.no_id) in
      let made : meta ≡ meta_of decoder market pair (into_string decoder d.tick) = ground (
        arith, d.same_id, d.yes_beside, d.no_beside, d.same_condition, d.tick_kept, d.least_order,
        d.state, d.rewarded,
      ) in
      rw
        (
          (strings_of-listed _ _ _ market.outcomes d.outcomes).1 d.outcomes_listed,
          (strings_of-listed _ _ _ market.clob_token_ids d.tokens).1 d.tokens_listed,
          Paired-yes_no_pair market.id d.outcomes d.tokens pair
              (d.as_many, d.yes_id, d.no_id, d.yes_last, d.no_last, refl),
          d.tick_given,
        )
        (ap ok (sym made))

  -- A market is accepted exactly when both lists decode and are equally long, an outcome is named "yes"
  -- and one "no" (in any case), and a tick size is given; it then has the tokens beside the last of each
  -- name, that tick size, and the fields of the record.
  pub normalize_gamma_market-Describes :
      (meta : MarketMeta) → (normalize_gamma_market decoder market ≡ ok meta) ↔ Describes meta
  unfolding normalize_gamma_market
  normalize_gamma_market-Describes meta = (accepted-Describes meta, Describes-accepted meta)
