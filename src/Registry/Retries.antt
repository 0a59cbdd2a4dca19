-- ===== src/Registry/Retries.antt =====
-- The retries of crates/pm-data/src/market_registry.rs: how many calls a page takes, and the pauses.
use rtt.Prelude.{
  ℕ, zero, suc, ◌+◌, ◌≤◌, ◌<◌, ◌≡◌, refl, ◌⊎◌, inl, inr, false, some, List, [], ◌∷◌, ◌++◌, sym, ◌∙◌,
  subst, append_assoc, arith, Bool-cases, Result, ok, err, Result-cases, ltb, ◌&&◌,
}
use mathlib.Core.List.{append-nil}
use rtt.RegistryProvider.{RegistryPageRequest, RegistryPage, is_retryable, RegistryProvider}
use rtt.Registry.{
  RetryPolicy, RegistryRefreshPolicy, Fetching, FetchError, backoff_for_retry, attempt, sleep,
  fetch_loop, fetch_page_with_retry,
}

-- A pause is never longer than the policy's longest.
pub backoff-le-max :
    (policy : RetryPolicy) (i : ℕ) → backoff_for_retry policy i ≤ policy.max_backoff
unfolding backoff_for_retry
backoff-le-max policy i = ground arith

-- The pauses before `n` retries, the first of which is retry `i`.
abbrev pub backoffs : RetryPolicy → ℕ → ℕ → List ℕ
backoffs policy i zero = []
backoffs policy i (suc n) = backoff_for_retry policy i ∷ backoffs policy (i + 1) n

module _ {World : Type 0} (provider : RegistryProvider World) (policy : RegistryRefreshPolicy) where
  abbrev max_retries : ℕ
  max_retries = policy.retry_policy.max_retries

  -- A page that the provider gave for the request, or an error that carries the number of calls, and that cannot be retried or came when no
  -- retry was left.
  abbrev pub GivesUp :
      RegistryPageRequest → ℕ → Result FetchError RegistryPage → Fetching World → Type 0
  GivesUp request retried (ok page) f =
      (world : World) × ((provider.fetch_page request world).0 ≡ ok page)
  GivesUp request retried (err (e, n)) f =
      (n ≡ f.attempts) × ((is_retryable e ≡ false) ⊎ (retried ≡ max_retries))

  -- From `f` to `f'` after `retries` earlier ones: `pauses` retries, no more than are left, after the
  -- pauses that the policy gives them in turn, and one call more than there are pauses.
  pub record Retried (request : RegistryPageRequest) (retries : ℕ) (f : Fetching World)
      (r : Result FetchError RegistryPage) (f' : Fetching World) : Type 0 where
    pub pauses : ℕ
    pub within : retries + pauses ≤ max_retries
    pub called : f'.attempts ≡ f.attempts + suc pauses
    pub slept : f'.slept ≡ f.slept ++ backoffs policy.retry_policy retries pauses
    pub gives_up : GivesUp request (retries + pauses) r f'

  again-Retried :
      (retries : ℕ) (request : RegistryPageRequest) (f f' : Fetching World)
      (r : Result FetchError RegistryPage)
      → let delay = backoff_for_retry policy.retry_policy retries in
        Retried request
          (retries + 1)
          (sleep provider policy delay (attempt provider policy request f))
          r
          f'
        → Retried request retries f r f'
  again-Retried retries request f f' r h = record {
    pauses = suc h.pauses;
    within = omega arith;
    called = omega arith;
    slept = h.slept ∙ append_assoc f.slept _ _;
    gives_up =
        let e : retries + 1 + h.pauses ≡ retries + suc h.pauses = omega arith in
        subst (λ n. GivesUp request n r f') e h.gives_up;
  }

  last-Retried :
      (retries : ℕ) (request : RegistryPageRequest) (f : Fetching World)
      (r : Result FetchError RegistryPage)
      → retries ≤ max_retries
      → GivesUp request retries r (attempt provider policy request f)
      → Retried request retries f r (attempt provider policy request f)
  last-Retried retries request f r le h = record {
    pauses = 0;
    within = omega arith;
    called = omega arith;
    slept = sym (append-nil f.slept);
    gives_up =
        let e : retries ≡ retries + 0 = omega arith in
        subst (λ n. GivesUp request n r (attempt provider policy request f)) e h;
  }

  pub fetch_loop-Retried :
      (fuel : ℕ) (request : RegistryPageRequest) (retries : ℕ) (f : Fetching World)
      → retries ≤ max_retries
      → max_retries < fuel + retries
      → (r : Result FetchError RegistryPage) × (f' : Fetching World) × (fetch_loop provider policy
            fuel request retries f
          ≡ some (r, f'))
        × Retried request retries f r f'
  unfolding fetch_loop
  fetch_loop-Retried zero request retries f le lt = absurd (omega arith)
  fetch_loop-Retried (suc fuel) request retries f le lt =
      let f' = attempt provider policy request f in
      let delay = backoff_for_retry policy.retry_policy retries in
      let last = last-Retried retries request f in
      elim (Result-cases (provider.fetch_page request f.world).0) [
        | inl (page, got) ↦ (ok page, f', ground arith, last (ok page) le (f.world, got))
        | inr (e, got) ↦ elim (Bool-cases (is_retryable e && ltb retries max_retries)) [
          | inl more ↦
              let (r, f'', run, h) =
                fetch_loop-Retried fuel request (retries + 1) (sleep provider policy delay f')
                  (ground arith) (omega arith) in
              (r, f'', ground (arith, run), again-Retried retries request f f'' r h)
          | inr done ↦ (
            err (e, f'.attempts),
            f',
            ground arith,
            last (err (e, f'.attempts)) le (refl, ground arith),
          )
        ]
      ]

  -- Fetching a page ends, whatever the provider answers: the fuel of one call more than the policy
  -- has retries is enough. It makes one call more than it pauses, pauses at most as often as the
  -- policy has retries, for the backoffs of the policy in turn, and ends with a page that the provider gave, or with an error
  -- that counts the calls and that either cannot be retried or came when no retry was left.
  pub fetch_page_with_retry-Retried :
      (request : RegistryPageRequest) (f : Fetching World)
      → (r : Result FetchError RegistryPage) × (f' : Fetching World) × (fetch_page_with_retry
            provider policy request f
          ≡ some (r, f'))
        × Retried request 0 f r f'
  unfolding fetch_page_with_retry
  fetch_page_with_retry-Retried request f =
      fetch_loop-Retried (suc max_retries) request 0 f (omega arith) (omega arith)
