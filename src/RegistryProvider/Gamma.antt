-- ===== src/RegistryProvider/Gamma.antt =====
-- The provider of crates/pm-data/src/registry_provider.rs that reads the Gamma service. The requests
-- over HTTP and the decoding of JSON (serde_json and the derived `Deserialize`) are parameters.
use rtt.Prelude.{
  ℕ, ◌+◌, ◌%◌, ◌^◌, Bool, not, ◌&&◌, ◌||◌, Option, none, some, List, [], ◌∷◌, ◌++◌, map, is_some,
  length, leb, ltb, ◌==◌, if◌then◌else◌, Result, ok, err, and_then, ok_or, or_else, map_err,
  map_some,
}
use rtt.Order.{Text, text, text_ord, same}
use rtt.Decimal.{to_decimal}
use rtt.Market.{
  MarketStatus, MarketMeta, OutcomeToken, yes_side, no_side, RewardParams, RewardFreshness,
}
use rtt.Universe.{QuarantinedMarketRecord}
use rtt.RegistryProvider.{
  RegistryPageRequest, RegistryPage, RegistryProviderError, transient, permanent, RegistryProvider,
}

pub data StringArrayField : Type 0 where
  encoded : Text → StringArrayField
  plain : List Text → StringArrayField

pub data ScalarField (Number : Type 0) : Type 0 where
  string : Text → ScalarField Number
  number : Number → ScalarField Number

pub record GammaMarket (Number : Type 0) : Type 0 where
  pub id : Text
  pub condition_id : Option Text
  pub outcomes : Option StringArrayField
  pub clob_token_ids : Option StringArrayField
  pub active : Bool
  pub closed : Bool
  pub enable_order_book : Bool
  pub order_price_min_tick_size : Option (ScalarField Number)
  pub tick_size : Option (ScalarField Number)
  pub order_min_size : Option (ScalarField Number)
  pub minimum_order_size : Option (ScalarField Number)
  pub rewards_min_size : Option (ScalarField Number)
  pub rewards_max_spread : Option (ScalarField Number)

pub record GammaEvent (Number : Type 0) : Type 0 where
  pub markets : List (GammaMarket Number)

-- `serde_json`: the printed form of a number, and the decoders, with the error's text.
pub record Decoder (Number : Type 0) : Type 0 where
  pub show_number : Number → Text
  pub parse_strings : Text → Result Text (List Text)
  pub parse_events : Text → Result Text (List (GammaEvent Number))

pub record QuarantineReason : Type 0 where
  pub record_id : Option Text
  pub reason : Text

abbrev pub quarantine : Text → Text → QuarantineReason
quarantine id reason = record { record_id = some id; reason = reason }

abbrev pub lower : ℕ → ℕ
lower c = if leb b'A' c && leb c b'Z' then c + 32 else c

abbrev pub to_ascii_lowercase : Text → Text
to_ascii_lowercase s = map lower s

-- One round of the loop over the outcomes and their tokens.
unfoldable pub see :
    Text
    → Text
    → Option OutcomeToken × Option OutcomeToken
    → Option OutcomeToken × Option OutcomeToken
see outcome token (yes_asset, no_asset) =
    let name = to_ascii_lowercase outcome in
    if same name (text "yes")
    then (some (record { asset_id = token; side = yes_side }), no_asset)
    else if same name (text "no")
    then (yes_asset, some (record { asset_id = token; side = no_side }))
    else (yes_asset, no_asset)

unfoldable pub find_assets :
    List Text
    → List Text
    → Option OutcomeToken × Option OutcomeToken
    → Option OutcomeToken × Option OutcomeToken
find_assets [] tokens found = found
find_assets (outcome ∷ outcomes) [] found = found
find_assets (outcome ∷ outcomes) (token ∷ tokens) found =
    find_assets outcomes tokens (see outcome token found)

abbrev pub both {ℓ} : {E A B : Type ℓ} → Option A × Option B → E → Result E (A × B)
both (some a, some b) e = ok (a, b)
both _ e = err e

unfoldable pub yes_no_pair :
    Text → List Text → List Text → Result QuarantineReason (OutcomeToken × OutcomeToken)
yes_no_pair id outcomes tokens =
    if not (length outcomes == length tokens)
    then err (quarantine id (text "mismatched_outcomes_and_tokens"))
    else both (find_assets outcomes tokens (none, none))
        (quarantine id (text "missing_yes_no_pair"))

abbrev pub push_record :
    Text
    → Result QuarantineReason MarketMeta
    → List MarketMeta × List QuarantinedMarketRecord
    → List MarketMeta × List QuarantinedMarketRecord
push_record provider_name (ok market) (markets, quarantined) = (markets ++ market ∷ [], quarantined)
push_record provider_name (err reason) (markets, quarantined) =
    let entry : QuarantinedMarketRecord = record {
      record_id = reason.record_id;
      reason = provider_name ++ (text ": " ++ reason.reason);
    } in
    (markets, quarantined ++ entry ∷ [])

unfoldable pub page_of :
    RegistryPageRequest → List MarketMeta → List QuarantinedMarketRecord → RegistryPage
page_of request markets quarantined = record {
  markets = markets;
  quarantined = quarantined;
  next_offset =
      if request.limit == 0 || ltb (length markets + length quarantined) request.limit
      then none
      else some ((request.offset + request.limit) % 2 ^ 64);
}

abbrev pub status_of : {Number : Type 0} → GammaMarket Number → MarketStatus
status_of market =
    if market.closed
    then MarketStatus.closed
    else if market.active && market.enable_order_book
    then MarketStatus.active
    else if market.active
    then MarketStatus.suspended
    else MarketStatus.unknown

module _ {Number : Type 0} (decoder : Decoder Number) where
  abbrev pub into_vec : StringArrayField → Result RegistryProviderError (List Text)
  into_vec (encoded raw) =
      map_err (λ e. permanent (text "failed to parse encoded array: " ++ e))
        (decoder.parse_strings raw)
  into_vec (plain values) = ok values

  abbrev pub into_string : ScalarField Number → Text
  into_string (string value) = value
  into_string (number value) = decoder.show_number value

  -- A list that has to be there and to decode.
  unfoldable pub strings_of :
      Text → Text → Text → Option StringArrayField → Result QuarantineReason (List Text)
  strings_of id missing invalid field =
      and_then (ok_or field (quarantine id missing))
        λ raw. map_err (λ e. quarantine id invalid) (into_vec raw)

  unfoldable pub reward_of : GammaMarket Number → Option RewardParams
  reward_of market =
      let reward_min_size = map_some into_string market.rewards_min_size in
      let reward_max_spread = map_some into_string market.rewards_max_spread in
      if is_some reward_min_size || is_some reward_max_spread
      then some (record {
        rate_bps = none;
        max_spread = reward_max_spread;
        min_size = reward_min_size;
        min_notional = none;
        updated_at_ms = none;
        freshness = RewardFreshness.unknown;
      })
      else none

  abbrev pub meta_of : GammaMarket Number → OutcomeToken × OutcomeToken → Text → MarketMeta
  meta_of market (yes_asset, no_asset) tick_size = record {
    market_id = market.id;
    yes_asset = yes_asset;
    no_asset = no_asset;
    condition_id = market.condition_id;
    tick_size = tick_size;
    min_order_size = map_some into_string (or_else market.order_min_size market.minimum_order_size);
    status = status_of market;
    reward = reward_of market;
  }

  unfoldable pub normalize_gamma_market : GammaMarket Number → Result QuarantineReason MarketMeta
  normalize_gamma_market market =
      let id = market.id in
      let outcomes =
        strings_of id (text "missing_outcomes") (text "invalid_outcomes") market.outcomes in
      let tokens =
        strings_of id (text "missing_clob_token_ids") (text "invalid_clob_token_ids")
          market.clob_token_ids in
      let tick_size = or_else market.order_price_min_tick_size market.tick_size in
      and_then outcomes λ names. and_then tokens λ ids. and_then (yes_no_pair id names ids) λ pair.
        and_then (ok_or tick_size (quarantine id (text "missing_tick_size")))
          λ tick. ok (meta_of market pair (into_string tick))

  -- The loops over the markets of an event, and over the events.
  unfoldable pub push_markets :
      Text
      → List (GammaMarket Number)
      → List MarketMeta × List QuarantinedMarketRecord
      → List MarketMeta × List QuarantinedMarketRecord
  push_markets provider_name [] pushed = pushed
  push_markets provider_name (market ∷ markets) pushed =
      push_markets provider_name markets
        (push_record provider_name (normalize_gamma_market market) pushed)

  unfoldable pub push_events :
      Text
      → List (GammaEvent Number)
      → List MarketMeta × List QuarantinedMarketRecord
      → List MarketMeta × List QuarantinedMarketRecord
  push_events provider_name [] pushed = pushed
  push_events provider_name (event ∷ events) pushed =
      push_events provider_name events (push_markets provider_name event.markets pushed)

  unfoldable pub parse_page :
      Text → Text → RegistryPageRequest → Result RegistryProviderError RegistryPage
  parse_page provider_name body request =
      let events =
        map_err (λ e. permanent (text "failed to parse gamma events: " ++ e))
          (decoder.parse_events body) in
      and_then events λ found.
        let (markets, quarantined) = push_events provider_name found ([], []) in
        ok (page_of request markets quarantined)

-- `reqwest`: a request that failed, or a status with what reading the body gave.
pub data HttpReply : Type 0 where
  send_failed : Text → HttpReply
  answered : ℕ → Result Text Text → HttpReply

pub record HttpRequest : Type 0 where
  pub url : Text
  pub query : List (Text × Text)

pub record HttpClient (World : Type 0) : Type 0 where
  pub send : HttpRequest → World → HttpReply × World
  pub show_status : ℕ → Text

pub record GammaRegistryProvider (World : Type 0) : Type 0 where
  pub name : Text
  pub client : HttpClient World
  pub base_url : Text

abbrev pub put_unless_slash : ℕ → Text → Text
put_unless_slash c [] = if c == b'/' then [] else c ∷ []
put_unless_slash c (d ∷ s) = c ∷ d ∷ s

-- `trim_end_matches('/')`.
abbrev pub trim_slashes : Text → Text
trim_slashes [] = []
trim_slashes (c ∷ s) = put_unless_slash c (trim_slashes s)

unfoldable pub page_request : Text → RegistryPageRequest → HttpRequest
page_request base_url request = record {
  url = trim_slashes base_url ++ text "/events";
  query =
      (text "active", text "true")
      ∷ (text "closed", text "false")
      ∷ (text "limit", to_decimal request.limit)
      ∷ (text "offset", to_decimal request.offset)
      ∷ [];
}

module _ {Number World : Type 0} (decoder : Decoder Number) where
  unfoldable pub read_body :
      GammaRegistryProvider World
      → RegistryPageRequest
      → ℕ
      → Text
      → Result RegistryProviderError RegistryPage
  read_body gamma request status body =
      let shown = text "gamma returned " ++ gamma.client.show_status status in
      if status == 429 || (leb 500 status && ltb status 600)
      then err (transient shown)
      else if not (leb 200 status && ltb status 300)
      then err (permanent shown)
      else parse_page decoder gamma.name body request

  unfoldable pub read_reply :
      GammaRegistryProvider World
      → RegistryPageRequest
      → HttpReply
      → Result RegistryProviderError RegistryPage
  read_reply gamma request (send_failed error) =
      err (transient (text "gamma request failed: " ++ error))
  read_reply gamma request (answered status (err error)) =
      err (transient (text "gamma response body read failed: " ++ error))
  read_reply gamma request (answered status (ok body)) = read_body gamma request status body

  abbrev pub gamma_provider : GammaRegistryProvider World → RegistryProvider World
  gamma_provider gamma = record {
    provider_name = gamma.name;
    fetch_page = λ request world.
        let (reply, world') = gamma.client.send (page_request gamma.base_url request) world in
        (read_reply gamma request reply, world');
  }
