-- ===== src/Registry.antt =====
-- crates/pm-data/src/market_registry.rs: the snapshot of the markets, page by page with retries, and
-- what a refresh leaves when the provider fails. A `Duration` is its nanoseconds. The lock around the
-- state is left out: one refresh at a time.
pub mod Retries
pub mod Pages
pub mod Refresh
pub mod Listing
use rtt.Prelude.{
  ℕ, zero, suc, ◌+◌, ◌-◌, ◌*◌, ◌/◌, ◌%◌, ◌^◌, Bool, true, false, ◌&&◌, Option, none, some, List, [],
  ◌∷◌, ◌++◌, leb, ltb, min, if◌then◌else◌, saturating_sub, Result, ok, err, map_some,
}
use rtt.Order.{Text, text_ord}
use rtt.BTreeMap.{BTreeMap, insert}
use rtt.Market.{MarketId, MarketMeta}
use rtt.Universe.{
  RegistrySnapshot, QuarantinedMarketRecord, SelectedUniverse, UniverseSelectionPolicy, resolve,
}
use rtt.RegistryProvider.{
  RegistryPageRequest, RegistryPage, RegistryProviderError, is_retryable, message_of,
  RegistryProvider,
}

pub record RetryPolicy : Type 0 where
  pub max_retries : ℕ
  pub initial_backoff : ℕ
  pub max_backoff : ℕ

pub record RegistryRefreshPolicy : Type 0 where
  pub page_size : ℕ
  pub refresh_interval : ℕ
  pub retry_policy : RetryPolicy

pub record RegistryRefreshOutcome : Type 0 where
  pub snapshot : RegistrySnapshot
  pub universe : SelectedUniverse
  pub degraded : Bool
  pub attempts : ℕ
  pub error : Option Text

pub record RegistryRefreshError : Type 0 where
  pub message : Text

pub record RegistryState : Type 0 where
  pub current_snapshot : Option RegistrySnapshot
  pub current_universe : Option SelectedUniverse
  pub last_good_snapshot : Option RegistrySnapshot
  pub last_good_universe : Option SelectedUniverse
  pub next_sequence : ℕ

-- `Duration::MAX`.
abbrev pub max_duration : ℕ
max_duration = (2 ^ 64 - 1) * 1_000_000_000 + 999_999_999

-- `1u32.checked_shl(n).unwrap_or(u32::MAX)`, with the index cut to 32 bits.
abbrev pub multiplier : ℕ → ℕ
multiplier retry_index =
    let shift = retry_index % 2 ^ 32 in if ltb shift 32 then 2 ^ shift else 2 ^ 32 - 1

unfoldable pub backoff_for_retry : RetryPolicy → ℕ → ℕ
backoff_for_retry policy retry_index =
    min (min (policy.initial_backoff * multiplier retry_index) max_duration) policy.max_backoff

unfoldable pub is_refresh_due : RegistryRefreshPolicy → Option ℕ → ℕ → Bool
is_refresh_due policy none now_ms = true
is_refresh_due policy (some last_refresh_ms) now_ms =
    leb (policy.refresh_interval / 1_000_000 % 2 ^ 64) (saturating_sub now_ms last_refresh_ms)

-- What a refresh has done so far: the calls of the provider, the pauses between them in their order,
-- and the state of the world.
pub record Fetching (World : Type 0) : Type 0 where
  pub attempts : ℕ
  pub slept : List ℕ
  pub world : World

-- The error of a provider with the attempts made.
abbrev pub FetchError : Type 0
FetchError = RegistryProviderError × ℕ

unfoldable pub insert_markets :
    List MarketMeta → BTreeMap MarketId MarketMeta → BTreeMap MarketId MarketMeta
insert_markets [] markets = markets
insert_markets (market ∷ rest) markets =
    insert_markets rest (insert market.market_id market markets)

-- After the loop: a success takes the next number of the sequence; a failure leaves the state alone.
unfoldable pub number_snapshot :
    {World : Type 0}
    → RegistryProvider World
    → ℕ
    → RegistryState
    → Fetching World
    → Result FetchError (BTreeMap MarketId MarketMeta × List QuarantinedMarketRecord)
    → Result FetchError (RegistrySnapshot × ℕ) × RegistryState
number_snapshot provider now_ms state f (err e) = (err e, state)
number_snapshot provider now_ms state f (ok (markets, quarantined)) =
    let sequence = (state.next_sequence + 1) % 2 ^ 64 in
    let snapshot : RegistrySnapshot = record {
      provider = provider.provider_name;
      sequence = sequence;
      refreshed_at_ms = now_ms;
      markets = markets;
      quarantined = quarantined;
    } in
    (ok (snapshot, f.attempts), record state { next_sequence = sequence })

module _ {World : Type 0} (provider : RegistryProvider World) (policy : RegistryRefreshPolicy) where
  abbrev pub attempt : RegistryPageRequest → Fetching World → Fetching World
  attempt request f = record f {
    attempts = f.attempts + 1;
    world = (provider.fetch_page request f.world).1;
  }

  abbrev pub sleep : ℕ → Fetching World → Fetching World
  sleep delay f = record f { slept = f.slept ++ delay ∷ [] }

  -- The loop of `fetch_page_with_retry`; `none` means that the fuel ran out.
  unfoldable pub fetch_loop :
      ℕ
      → RegistryPageRequest
      → ℕ
      → Fetching World
      → Option (Result FetchError RegistryPage × Fetching World)
  fetch_loop zero request retries f = none
  fetch_loop (suc fuel) request retries f =
      let f' = attempt request f in
      let delay = backoff_for_retry policy.retry_policy retries in
      elim (provider.fetch_page request f.world).0 [
        | ok page ↦ some (ok page, f')
        | err e ↦
            let again = fetch_loop fuel request (retries + 1) (sleep delay f') in
            if is_retryable e && ltb retries policy.retry_policy.max_retries
            then again
            else some (err (e, f'.attempts), f')
      ]

  unfoldable pub fetch_page_with_retry :
      RegistryPageRequest
      → Fetching World
      → Option (Result FetchError RegistryPage × Fetching World)
  fetch_page_with_retry request f = fetch_loop (suc policy.retry_policy.max_retries) request 0 f

  -- The loop of `collect_snapshot` over the pages, from an offset.
  unfoldable pub collect_pages :
      ℕ
      → ℕ
      → BTreeMap MarketId MarketMeta
      → List QuarantinedMarketRecord
      → Fetching World
      → Option (
          Result FetchError (BTreeMap MarketId MarketMeta × List QuarantinedMarketRecord)
          × Fetching World)
  collect_pages zero offset markets quarantined f = none
  collect_pages (suc fuel) offset markets quarantined f =
      let request : RegistryPageRequest = record { offset = offset; limit = policy.page_size } in
      elim (fetch_page_with_retry request f) [
        | none ↦ none
        | some (err e, f') ↦ some (err e, f')
        | some (ok page, f') ↦
            let markets' = insert_markets page.markets markets in
            let quarantined' = quarantined ++ page.quarantined in
            elim page.next_offset [
              | some next_offset ↦ collect_pages fuel next_offset markets' quarantined' f'
              | none ↦ some (ok (markets', quarantined'), f')
            ]
      ]

  unfoldable pub collect_snapshot :
      ℕ
      → ℕ
      → RegistryState
      → World
      → Option ((Result FetchError (RegistrySnapshot × ℕ) × RegistryState) × Fetching World)
  collect_snapshot fuel now_ms state world =
      map_some (λ (collected, f). (number_snapshot provider now_ms state f collected, f))
        (collect_pages fuel 0 [] [] (record { attempts = 0; slept = []; world = world }))

-- After a failure: the last good snapshot and its universe, if there are any.
unfoldable pub fall_back :
    Option RegistrySnapshot
    → Option SelectedUniverse
    → RegistryProviderError
    → ℕ
    → Result RegistryRefreshError RegistryRefreshOutcome
fall_back (some snapshot) (some universe) error attempts = ok (record {
  snapshot = snapshot;
  universe = universe;
  degraded = true;
  attempts = attempts;
  error = some (message_of error);
})
fall_back _ _ error attempts = err (record { message = message_of error })

abbrev pub install : RegistrySnapshot → SelectedUniverse → RegistryState → RegistryState
install snapshot universe state = record state {
  current_snapshot = some snapshot;
  current_universe = some universe;
  last_good_snapshot = some snapshot;
  last_good_universe = some universe;
}

-- What is made of the collected snapshot, and the state after it.
unfoldable pub settle :
    UniverseSelectionPolicy
    → Result FetchError (RegistrySnapshot × ℕ)
    → RegistryState
    → Result RegistryRefreshError RegistryRefreshOutcome × RegistryState
settle selection (err (error, attempts)) state =
    (fall_back state.last_good_snapshot state.last_good_universe error attempts, state)
settle selection (ok (snapshot, attempts)) state =
    let universe = resolve selection (some snapshot) in
    let outcome : RegistryRefreshOutcome = record {
      snapshot = snapshot;
      universe = universe;
      degraded = false;
      attempts = attempts;
      error = none;
    } in
    (ok outcome, install snapshot universe state)

module _ {World : Type 0} (provider : RegistryProvider World) (policy : RegistryRefreshPolicy)
    (selection : UniverseSelectionPolicy) where
  unfoldable pub refresh_once :
      ℕ
      → ℕ
      → RegistryState
      → World
      → Option ((Result RegistryRefreshError RegistryRefreshOutcome × RegistryState) × World)
  refresh_once fuel now_ms state world =
      map_some (λ ((collected, state'), f). (settle selection collected state', f.world))
        (collect_snapshot provider policy fuel now_ms state world)
