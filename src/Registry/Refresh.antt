-- ===== src/Registry/Refresh.antt =====
-- A refresh of crates/pm-data/src/market_registry.rs: it ends, and it never loses a good snapshot.
use rtt.Prelude.{
  ℕ, suc, ◌+◌, ◌%◌, ◌^◌, ◌≡◌, refl, if◌then◌else◌, inl, inr, none, some, Option, [], arith,
  Option-cases, Result, ok, err, map_some, is_some,
}
use rtt.Universe.{RegistrySnapshot, UniverseSelectionPolicy, resolve}
use rtt.RegistryProvider.{RegistryProvider, RegistryProviderError}
use rtt.Registry.{
  RegistryRefreshPolicy, RegistryState, RegistryRefreshOutcome, RegistryRefreshError, Fetching,
  FetchError, number_snapshot, collect_snapshot, settle, refresh_once, fall_back,
}
use rtt.Registry.Pages.{Advances, Collected, collect_pages-ends}

-- The state of a registry: the current snapshot is the last good one, its universe is what the policy
-- selects from it, and it carries the number that was given out last.
abbrev pub number_of : Option RegistrySnapshot → ℕ
number_of none = 0
number_of (some snapshot) = snapshot.sequence

pub record IsConsistent (selection : UniverseSelectionPolicy) (state : RegistryState) : Type 0 where
  pub current : state.current_snapshot ≡ state.last_good_snapshot
  pub current_selected : state.current_universe ≡ state.last_good_universe
  pub selected :
      state.last_good_universe
      ≡ map_some (λ snapshot. resolve selection (some snapshot)) state.last_good_snapshot
  pub numbered : state.next_sequence ≡ number_of state.last_good_snapshot

-- What a refresh hands out, by its result.
abbrev pub Refreshed :
    UniverseSelectionPolicy
    → RegistryState
    → Result RegistryRefreshError RegistryRefreshOutcome
    → RegistryState
    → Type 0
Refreshed selection before (err e) after = (before.last_good_snapshot ≡ none) × (after ≡ before)
Refreshed selection before (ok outcome) after =
    (after.last_good_snapshot ≡ some outcome.snapshot)
    × (outcome.universe ≡ resolve selection (some outcome.snapshot))
    × (outcome.degraded ≡ is_some outcome.error)
    × (if outcome.degraded
        then after ≡ before
        else outcome.snapshot.sequence ≡ (before.next_sequence + 1) % 2 ^ 64)

module _ (selection : UniverseSelectionPolicy) (before : RegistryState)
    (consistent : IsConsistent selection before) where
  fall_back-Refreshed :
      (error : RegistryProviderError) (attempts : ℕ)
      → let r = fall_back before.last_good_snapshot before.last_good_universe error attempts in
        Refreshed selection before r before
  unfolding fall_back
  fall_back-Refreshed error attempts = elim (Option-cases before.last_good_snapshot) [
    | inl e ↦ ground (arith, e)
    | inr (snapshot, e) ↦ ground (arith, e)
  ]

  settle-Refreshed :
      {World : Type 0} (provider : RegistryProvider World) (now_ms : ℕ) (f : Fetching World)
      (pages : Result FetchError Collected)
      → let (collected, numbered) = number_snapshot provider now_ms before f pages in
        let (r, after) = settle selection collected numbered in
        Refreshed selection before r after × IsConsistent selection after
  unfolding number_snapshot settle
  settle-Refreshed provider now_ms f (ok (markets, quarantined)) = (
    (refl, refl, refl, refl),
    record { current = refl; current_selected = refl; selected = refl; numbered = refl },
  )
  settle-Refreshed provider now_ms f (err (error, attempts)) =
      (fall_back-Refreshed error attempts, consistent)

  -- A refresh ends when the offsets of the provider advance through a listing: fuel of one page more
  -- than the listing is long is enough. It keeps the state consistent. A fresh outcome holds the
  -- snapshot that is now the last good one, numbered one above the last (modulo 2^64); a degraded one
  -- has an error, leaves the state as it was, and holds the last good snapshot; both hold the universe
  -- that the policy selects from their snapshot. An error means that there was no good snapshot, and
  -- changes nothing.
  pub refresh_once-Refreshed :
      {World : Type 0} (provider : RegistryProvider World) (policy : RegistryRefreshPolicy)
      (total : ℕ)
      → Advances provider policy.page_size total
      → (now_ms : ℕ) (world : World)
      → (r : Result RegistryRefreshError RegistryRefreshOutcome) × (after : RegistryState)
        × (world' : World) × (refresh_once provider policy selection (suc total) now_ms before world
            ≡ some ((r, after), world'))
        × Refreshed selection before r after
        × IsConsistent selection after
  unfolding refresh_once collect_snapshot
  refresh_once-Refreshed provider policy total advances now_ms world =
      let start : Fetching _ = record { attempts = 0; slept = []; world = world } in
      let (pages, f, run, le) =
        collect_pages-ends provider policy total advances (suc total) 0 [] [] start (omega arith) in
      let (collected, numbered) = number_snapshot provider now_ms before f pages in
      let (r, after) = settle selection collected numbered in
      let (refreshed, kept) = settle-Refreshed provider now_ms f pages in
      (r, after, f.world, rw run, refreshed, kept)
