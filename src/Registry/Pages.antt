-- ===== src/Registry/Pages.antt =====
-- The page loop of crates/pm-data/src/market_registry.rs: it ends when the provider's offsets advance
-- through a listing of bounded length.
use rtt.Prelude.{
  ℕ, zero, suc, ◌+◌, ◌-◌, ◌*◌, ◌++◌, ◌≤◌, ◌<◌, ◌≡◌, inl, inr, some, List, arith, Option-cases,
  Result, ok, err, Result-cases,
}
use rtt.BTreeMap.{BTreeMap}
use rtt.Market.{MarketId, MarketMeta}
use rtt.Universe.{QuarantinedMarketRecord}
use rtt.RegistryProvider.{RegistryPageRequest, RegistryPage, RegistryProvider}
use rtt.Registry.{RegistryRefreshPolicy, Fetching, FetchError, insert_markets, collect_pages}
use rtt.Registry.Retries.{fetch_page_with_retry-Retried}

-- A page that another follows is asked for below `total`, and the next offset is a later one.
abbrev pub Advances : {World : Type 0} → RegistryProvider World → ℕ → ℕ → Type 0
Advances {World} provider limit total =
    (offset : ℕ) (world : World) (page : RegistryPage) (next : ℕ)
    → let request : RegistryPageRequest = record { offset = offset; limit = limit } in
      (provider.fetch_page request world).0 ≡ ok page
      → page.next_offset ≡ some next
      → (offset < next) × (offset < total)

abbrev pub Collected : Type 0
Collected = BTreeMap MarketId MarketMeta × List QuarantinedMarketRecord

module _ {World : Type 0} (provider : RegistryProvider World) (policy : RegistryRefreshPolicy)
    (total : ℕ) (advances : Advances provider policy.page_size total) where
  abbrev page_at : ℕ → RegistryPageRequest
  page_at offset = record { offset = offset; limit = policy.page_size }

  pub collect_pages-ends :
      (fuel offset : ℕ) (markets : BTreeMap MarketId MarketMeta)
      (quarantined : List QuarantinedMarketRecord) (f : Fetching World)
      → total - offset < fuel
      → (r : Result FetchError Collected) × (f' : Fetching World) × (collect_pages provider policy
            fuel offset markets quarantined f
          ≡ some (r, f'))
        × (f'.attempts ≤ f.attempts + fuel * suc policy.retry_policy.max_retries)
  unfolding collect_pages
  collect_pages-ends zero offset markets quarantined f lt = absurd (omega arith)
  collect_pages-ends (suc fuel) offset markets quarantined f lt =
      let (r, f', run, h) = fetch_page_with_retry-Retried provider policy (page_at offset) f in
      elim (Result-cases r) [
        | inr (e, failed) ↦
            (err e, f', ground (arith, run, failed), grind (arith, h.called, h.within))
        | inl (page, got) ↦ elim (Option-cases page.next_offset) [
          | inl last ↦ (
            ok (insert_markets page.markets markets, quarantined ++ page.quarantined),
            f',
            ground (arith, run, got, last),
            grind (arith, h.called, h.within),
          )
          | inr (next, more) ↦
              let came = rw got at h.gives_up in
              let step = advances offset came.0 page next came.1 more in
              let (r', f'', run', le) =
                collect_pages-ends fuel next (insert_markets page.markets markets)
                  (quarantined ++ page.quarantined) f' (omega (arith, step)) in
              (r', f'', ground (arith, run, got, more, run'), grind (arith, h.called, h.within, le))
        ]
      ]
