-- ===== src/Registry/Listing.antt =====
-- The refresh of crates/pm-data/src/market_registry.rs over the Gamma pages of registry_provider.rs.
use mathlib.Core.List.{append-nil}
use rtt.Prelude.{
  map, append_assoc, sym, ◌∙◌, ◌%◌, ◌^◌, ap, suc, ℕ, ◌+◌, ◌≤◌, ◌<◌, ◌≡◌, ◌⊎◌, ◌||◌, ◌==◌, ltb,
  if◌then◌else◌, refl, inl, inr, none, some, List, [], ◌∷◌, ◌++◌, length, arith, Result, ok, err,
  Result-cases,
}
use rtt.Order.{Text, text}
use rtt.Market.{MarketMeta}
use rtt.Universe.{QuarantinedMarketRecord}
use rtt.RegistryProvider.{RegistryPageRequest, RegistryPage, permanent}
use rtt.RegistryProvider.Gamma.{
  GammaMarket, GammaEvent, Decoder, QuarantineReason, push_record, push_markets, push_events,
  normalize_gamma_market, page_of, parse_page, GammaRegistryProvider, HttpReply, answered,
  send_failed, page_request, read_body, read_reply, gamma_provider,
}
use rtt.Registry.Pages.{Advances}

-- The records of a body: the markets of all its events, in order.
abbrev pub records : {Number : Type 0} → List (GammaEvent Number) → List (GammaMarket Number)
records [] = []
records (event ∷ events) = event.markets ++ records events

-- The results that are there, and the errors.
abbrev pub oks {ℓ} : {E A : Type ℓ} → List (Result E A) → List A
oks [] = []
oks (ok a ∷ rs) = a ∷ oks rs
oks (err e ∷ rs) = oks rs

abbrev pub errs {ℓ} : {E A : Type ℓ} → List (Result E A) → List E
errs [] = []
errs (ok a ∷ rs) = errs rs
errs (err e ∷ rs) = e ∷ errs rs

-- The entry of a record that is refused: its id, and the provider before the reason.
abbrev pub refusal_of : Text → QuarantineReason → QuarantinedMarketRecord
refusal_of name r = record { record_id = r.record_id; reason = name ++ (text ": " ++ r.reason) }

length-map {ℓ} : {A B : Type ℓ} (f : A → B) (xs : List A) → length (map f xs) ≡ length xs
length-map f [] = refl
length-map f (x ∷ xs) = ap suc (length-map f xs)

length-oks {ℓ} :
    {E A : Type ℓ} (rs : List (Result E A)) → length (oks rs) + length (errs rs) ≡ length rs
length-oks [] = refl
length-oks (ok a ∷ rs) = omega (arith, length-oks rs)
length-oks (err e ∷ rs) = omega (arith, length-oks rs)

module _ {Number : Type 0} (decoder : Decoder Number) where
  abbrev pub normalized : List (GammaEvent Number) → List (Result QuarantineReason MarketMeta)
  normalized events = map (normalize_gamma_market decoder) (records events)

  push_markets-split :
      (name : Text) (ms : List (GammaMarket Number)) (markets : List MarketMeta)
      (quarantined : List QuarantinedMarketRecord)
      → let rs = map (normalize_gamma_market decoder) ms in
        push_markets decoder name ms (markets, quarantined)
        ≡ (markets ++ oks rs, quarantined ++ map (refusal_of name) (errs rs))
  unfolding push_markets
  push_markets-split name [] markets quarantined =
      rw (append-nil markets, append-nil quarantined) refl
  push_markets-split name (m ∷ ms) markets quarantined =
      go (normalize_gamma_market decoder m) λ ms' qs'. push_markets-split name ms ms' qs'
    where
      go :
          (r : Result QuarantineReason MarketMeta)
          → let rest = map (normalize_gamma_market decoder) ms in
            ((ms' : List MarketMeta) (qs' : List QuarantinedMarketRecord)
              → push_markets decoder name ms (ms', qs')
                ≡ (ms' ++ oks rest, qs' ++ map (refusal_of name) (errs rest)))
            → push_markets decoder name ms (push_record name r (markets, quarantined))
              ≡ (markets ++ oks (r ∷ rest), quarantined ++ map (refusal_of name) (errs (r ∷ rest)))
      go (ok market) ih =
          ih (markets ++ market ∷ []) quarantined ∙ rw (append_assoc markets (market ∷ []) _) refl
      go (err reason) ih =
          ih markets (quarantined ++ refusal_of name reason ∷ [])
          ∙ rw (append_assoc quarantined (refusal_of name reason ∷ []) _) refl

  push_markets-append :
      (name : Text) (ms ns : List (GammaMarket Number))
      (pushed : List MarketMeta × List QuarantinedMarketRecord)
      → push_markets decoder name (ms ++ ns) pushed
        ≡ push_markets decoder name ns (push_markets decoder name ms pushed)
  unfolding push_markets
  push_markets-append name [] ns pushed = refl
  push_markets-append name (m ∷ ms) ns pushed =
      push_markets-append name ms ns (push_record name (normalize_gamma_market decoder m) pushed)

  push_events-records :
      (name : Text) (events : List (GammaEvent Number))
      (pushed : List MarketMeta × List QuarantinedMarketRecord)
      → push_events decoder name events pushed ≡ push_markets decoder name (records events) pushed
  unfolding push_events push_markets
  push_events-records name [] pushed = refl
  push_events-records name (event ∷ events) pushed =
      push_events-records name events (push_markets decoder name event.markets pushed)
      ∙ sym (push_markets-append name event.markets (records events) pushed)

  -- The page that the records of a body make. Its markets are the records that are accepted, and its
  -- quarantined entries those that are refused, each in the order of the body; each record is one or the
  -- other. A page follows, one limit further on (modulo 2^64), exactly when the limit is not 0 and there are
  -- at least as many records.
  pub record Lists (name : Text) (request : RegistryPageRequest) (events : List (GammaEvent Number))
      (page : RegistryPage) : Type 0 where
    pub listed : page.markets ≡ oks (normalized events)
    pub refused : page.quarantined ≡ map (refusal_of name) (errs (normalized events))
    pub count : length page.markets + length page.quarantined ≡ length (records events)
    pub follows : page.next_offset ≡ (
        if request.limit == 0 || ltb (length (records events)) request.limit
        then none
        else some ((request.offset + request.limit) % 2 ^ 64))

  page_of-Lists :
      (name : Text) (request : RegistryPageRequest) (events : List (GammaEvent Number))
      → let (markets, quarantined) = push_events decoder name events ([], []) in
        Lists name request events (page_of request markets quarantined)
  unfolding page_of
  page_of-Lists name request events =
      let split =
        push_events-records name events ([], []) ∙ push_markets-split name (records events) [] [] in
      let rs = normalized events in
      let count : length (oks rs) + length (map (refusal_of name) (errs rs))
          ≡ length (records events) =
        omega (
          arith,
          length-oks rs,
          length-map (refusal_of name) (errs rs),
          length-map (normalize_gamma_market decoder) (records events),
        ) in
      rw split (record { listed = refl; refused = refl; count = count; follows = rw count refl })

  -- A body that decodes gives the page that its records make: the records that are accepted, in order, those
  -- that are refused, each with its id and its reason after the provider's name, and the offset of the page
  -- that follows, if one does. A body that does not decode is a permanent error.
  pub parse_page-records :
      (name body : Text) (request : RegistryPageRequest)
      → ((page : RegistryPage) × (events : List (GammaEvent Number)) × (parse_page decoder name body
              request
            ≡ ok page)
          × (decoder.parse_events body ≡ ok events)
          × Lists name request events page)
        ⊎ ((e : Text) × (decoder.parse_events body ≡ err e)
            × (parse_page decoder name body request
                ≡ err (permanent (text "failed to parse gamma events: " ++ e))))
  unfolding parse_page
  parse_page-records name body request = elim (Result-cases (decoder.parse_events body)) [
    | inr (e, failed) ↦ inr (e, failed, rw failed)
    | inl (events, got) ↦
        let (markets, quarantined) = push_events decoder name events ([], []) in
        inl (
          page_of request markets quarantined,
          events,
          rw got,
          got,
          page_of-Lists name request events,
        )
  ]

  module _ {World : Type 0} (gamma : GammaRegistryProvider World) (limit total : ℕ) where
    -- The service has fewer records than a page holds from the offset `total` on.
    abbrev pub RunsOut : Type 0
    RunsOut =
        (offset status : ℕ) (world : World) (body : Text) (events : List (GammaEvent Number))
        → let request : RegistryPageRequest = record { offset = offset; limit = limit } in
          total ≤ offset
          → (gamma.client.send (page_request gamma.base_url request) world).0
            ≡ answered status (ok body)
          → decoder.parse_events body ≡ ok events
          → length (records events) < limit

    -- A page was read from a body that came with a success.
    read_reply-page :
        (request : RegistryPageRequest) (reply : HttpReply) (page : RegistryPage)
        → read_reply decoder gamma request reply ≡ ok page
        → (status : ℕ) × (body : Text) × (reply ≡ answered status (ok body))
          × (parse_page decoder gamma.name body request ≡ ok page)
    unfolding read_reply read_body
    read_reply-page request (send_failed error) page h = cc
    read_reply-page request (answered status (err error)) page h = cc
    read_reply-page request (answered status (ok body)) page h = (status, body, refl, ground arith)

    -- The pages of the Gamma service advance, if it runs out of records before the offsets wrap around.
    pub gamma_provider-Advances :
        RunsOut → total + limit ≤ 2 ^ 64 → Advances (gamma_provider decoder gamma) limit total
    gamma_provider-Advances runs_out small offset world page next got more =
        let request : RegistryPageRequest = record { offset = offset; limit = limit } in
        let reply = (gamma.client.send (page_request gamma.base_url request) world).0 in
        let (status, body, replied, parsed) = read_reply-page request reply page got in
        elim (parse_page-records gamma.name body request) [
          | inr (e, failed, refused) ↦ absurd (ground (arith, parsed, refused))
          | inl (page', events, parsed', decoded, listed) ↦
              let few = runs_out offset status world body events in
              let follows = listed.follows in
              ground (arith, parsed, parsed', follows, more, few, replied, decoded, small)
        ]
