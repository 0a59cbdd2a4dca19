-- ===== src/Tests/Registry.antt =====
-- Runs and witnesses for crates/pm-data/src/market_registry.rs and registry_provider.rs.
use rtt.Prelude.{
  ℕ, ◌+◌, ◌*◌, ◌-◌, ◌^◌, ◌≡◌, ◌⊎◌, ◌↔◌, refl, true, false, none, some, List, [], ◌∷◌, ◌++◌, ◌==◌,
  if◌then◌else◌, arith, Result, ok, err,
}
use rtt.Order.{Text, text, text_ord}
use rtt.Market.{MarketMeta, MarketStatus, yes_side, no_side}
use rtt.Universe.{UniverseSelectionPolicy}
use rtt.RegistryProvider.{
  RegistryPageRequest, RegistryPage, RegistryProvider, RegistryProviderError, transient, permanent,
}
use rtt.RegistryProvider.Gamma.{
  plain, string, GammaMarket, GammaEvent, Decoder, normalize_gamma_market, parse_page,
}
use rtt.RegistryProvider.Normalize.{Describes, normalize_gamma_market-Describes}
use rtt.Registry.{
  RetryPolicy, RegistryRefreshPolicy, RegistryState, RegistryRefreshOutcome, RegistryRefreshError,
  Fetching, FetchError, backoff_for_retry, fetch_page_with_retry, refresh_once,
}
use rtt.Registry.Retries.{Retried, fetch_page_with_retry-Retried}
use rtt.Registry.Pages.{Advances}
use rtt.Registry.Refresh.{IsConsistent, Refreshed, refresh_once-Refreshed}
use rtt.Registry.Listing.{Lists, parse_page-records}

abbrev retries : RetryPolicy
retries = record { max_retries = 2; initial_backoff = 50; max_backoff = 120 }

-- 50, 100, and then the longest pause; a shift by 32 and more takes the largest multiplier.
backoff_run :
    (backoff_for_retry retries 0 ≡ 50)
    × (backoff_for_retry retries 1 ≡ 100)
    × (backoff_for_retry retries 2 ≡ 120)
    × (backoff_for_retry (record retries { max_backoff = 2 ^ 70 }) 40 ≡ 50 * (2 ^ 32 - 1))
unfolding backoff_for_retry
backoff_run = (refl, refl, refl, refl)

abbrev policy : RegistryRefreshPolicy
policy = record { page_size = 1; refresh_interval = 30_000; retry_policy = retries }

-- Two pages; the first call fails.
abbrev page_after : ℕ → RegistryPage
page_after offset = record {
  markets = [];
  quarantined = [];
  next_offset = if offset == 0 then some 1 else none;
}

abbrev provider : RegistryProvider ℕ
provider = record {
  provider_name = text "fixture";
  fetch_page = λ request calls. (
    if calls == 0 then err (transient (text "busy")) else ok (page_after request.offset),
    calls + 1,
  );
}

provider-Advances : Advances provider 1 1
provider-Advances offset world page next got more = ground arith

abbrev request : RegistryPageRequest
request = record { offset = 0; limit = 1 }

abbrev start : Fetching ℕ
start = record { attempts = 0; slept = []; world = 0 }

fetch_page_with_retry-Retried_example :
    (r : Result FetchError RegistryPage) × (f' : Fetching ℕ) × (fetch_page_with_retry provider
        policy request start
      ≡ some (r, f'))
    × Retried provider policy request 0 start r f'
fetch_page_with_retry-Retried_example = fetch_page_with_retry-Retried provider policy request start

abbrev selection : UniverseSelectionPolicy
selection = record {
  active_only = true;
  require_reward = false;
  include_markets = [];
  exclude_markets = [];
  bypass_registry = false;
}

abbrev new_state : RegistryState
new_state = record {
  current_snapshot = none;
  current_universe = none;
  last_good_snapshot = none;
  last_good_universe = none;
  next_sequence = 0;
}

new_state-IsConsistent : IsConsistent selection new_state
new_state-IsConsistent = record {
  current = refl;
  current_selected = refl;
  selected = refl;
  numbered = refl;
}

refresh_once-Refreshed_example :
    (r : Result RegistryRefreshError RegistryRefreshOutcome) × (after : RegistryState)
    × (world' : ℕ) × (refresh_once provider policy selection 2 7 new_state 0
        ≡ some ((r, after), world'))
    × Refreshed selection new_state r after
    × IsConsistent selection after
refresh_once-Refreshed_example =
    refresh_once-Refreshed selection new_state new_state-IsConsistent provider policy 1
      provider-Advances 7 0

abbrev accepted_market : GammaMarket ℕ
accepted_market = record {
  id = text "m1";
  condition_id = none;
  outcomes = some (plain (text "No" ∷ text "YES" ∷ []));
  clob_token_ids = some (plain (text "t0" ∷ text "t1" ∷ []));
  active = true;
  closed = false;
  enable_order_book = true;
  order_price_min_tick_size = none;
  tick_size = some (string (text "0.01"));
  order_min_size = none;
  minimum_order_size = none;
  rewards_min_size = none;
  rewards_max_spread = none;
}

-- A stand-in for serde_json: one body is a list of events.
abbrev decoder : Decoder ℕ
decoder = record {
  show_number = λ n. n ∷ [];
  parse_strings = λ raw. err raw;
  parse_events = λ body. elim body [
    | [] ↦ err (text "empty")
    | c ∷ s ↦ ok (
        record { markets = accepted_market ∷ record accepted_market { tick_size = none } ∷ [] }
        ∷ [])
  ];
}

abbrev meta : MarketMeta
meta = record {
  market_id = text "m1";
  yes_asset = record { asset_id = text "t1"; side = yes_side };
  no_asset = record { asset_id = text "t0"; side = no_side };
  condition_id = none;
  tick_size = text "0.01";
  min_order_size = none;
  status = MarketStatus.active;
  reward = none;
}

normalize_gamma_market-Describes_example :
    (normalize_gamma_market decoder accepted_market ≡ ok meta)
    ↔ Describes decoder accepted_market meta
normalize_gamma_market-Describes_example =
    normalize_gamma_market-Describes decoder accepted_market meta

normalized : normalize_gamma_market decoder accepted_market ≡ ok meta
unfolding normalize_gamma_market rtt.RegistryProvider.Gamma.strings_of
    rtt.RegistryProvider.Gamma.yes_no_pair rtt.RegistryProvider.Gamma.find_assets
    rtt.RegistryProvider.Gamma.see rtt.Order.same text_ord rtt.RegistryProvider.Gamma.reward_of
normalized = refl

abbrev body : Text
body = text "[..]"

parse_page-records_example :
    ((page : RegistryPage) × (events : List (GammaEvent ℕ)) × (parse_page decoder
          (text "gamma")
          body
          request
        ≡ ok page)
      × (decoder.parse_events body ≡ ok events)
      × Lists decoder (text "gamma") request events page)
    ⊎ ((e : Text) × (decoder.parse_events body ≡ err e)
        × (parse_page decoder (text "gamma") body request
            ≡ err (permanent (text "failed to parse gamma events: " ++ e))))
parse_page-records_example = parse_page-records decoder (text "gamma") body request
