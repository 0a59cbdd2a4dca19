-- ===== src/Config/Assets.antt =====
-- Which assets crates/pm-executor/src/config.rs subscribes to.
use rtt.Prelude.{
  ◌≡◌, Bool, false, ◌||◌, ◌&&◌, List, [], ◌∷◌, ◌++◌, any, arith, Bool-cases, inl, inr,
}
use rtt.Order.{Text, text_ord, same, eq_of_same}
use rtt.Market.{AssetId}
use rtt.Runtime.Views.{Distinct, push_unique-Distinct}
use rtt.Config.{
  SourceBindingConfig, ExecutorConfig, push_unique_asset_id, push_asset_ids, is_polymarket_ws,
  push_bindings, push_token, resolved_subscription_asset_ids,
}

abbrev pub has : AssetId → List AssetId → Bool
has asset_id asset_ids = any (λ existing. same existing asset_id) asset_ids

-- Whether a binding of the market channel names the asset, and whether the strategy does.
abbrev pub bound : AssetId → List SourceBindingConfig → Bool
bound asset_id bindings =
    any (λ b. is_polymarket_ws b.source_kind && has asset_id b.asset_ids) bindings

abbrev pub is_token : AssetId → Text → Bool
is_token asset_id [] = false
is_token asset_id (c ∷ token_id) = same (c ∷ token_id) asset_id

has-append : (a b : AssetId) (xs : List AssetId) → has a (xs ++ b ∷ []) ≡ (has a xs || same b a)
has-append a b [] = ground arith
has-append a b (x ∷ xs) = ground (arith, has-append a b xs)

has-push :
    (a b : AssetId) (xs : List AssetId) → has a (push_unique_asset_id xs b) ≡ (has a xs || same b a)
unfolding push_unique_asset_id
has-push a b xs = elim (Bool-cases (has b xs)) [
  | inl e ↦ ground (arith, e, eq_of_same b a)
  | inr e ↦ rw e (has-append a b xs)
]

has-push_asset_ids :
    (a : AssetId) (xs more : List AssetId)
    → has a (push_asset_ids xs more) ≡ (has a xs || has a more)
has-push_asset_ids a xs [] = ground arith
has-push_asset_ids a xs (b ∷ more) =
    ground (arith, has-push_asset_ids a (push_unique_asset_id xs b) more, has-push a b xs)

has-push_bindings :
    (a : AssetId) (xs : List AssetId) (bindings : List SourceBindingConfig)
    → has a (push_bindings xs bindings) ≡ (has a xs || bound a bindings)
has-push_bindings a xs [] = ground arith
has-push_bindings a xs (b ∷ bindings) = elim (Bool-cases (is_polymarket_ws b.source_kind)) [
  | inl e ↦ ground (
    arith,
    e,
    has-push_bindings a (push_asset_ids xs b.asset_ids) bindings,
    has-push_asset_ids a xs b.asset_ids,
  )
  | inr e ↦ ground (arith, e, has-push_bindings a xs bindings)
]

has-push_token :
    (a : AssetId) (xs : List AssetId) (token_id : Text)
    → has a (push_token xs token_id) ≡ (has a xs || is_token a token_id)
has-push_token a xs [] = ground arith
has-push_token a xs (c ∷ token_id) = has-push a (c ∷ token_id) xs

abbrev Once : List AssetId → Type 0
Once asset_ids = Distinct (λ a b. same a b) asset_ids

push-Once : (xs : List AssetId) (b : AssetId) → Once xs → Once (push_unique_asset_id xs b)
unfolding push_unique_asset_id
push-Once xs b d = push_unique-Distinct (λ a b. same a b) xs b d

push_asset_ids-Once : (xs more : List AssetId) → Once xs → Once (push_asset_ids xs more)
push_asset_ids-Once xs [] d = d
push_asset_ids-Once xs (b ∷ more) d =
    push_asset_ids-Once (push_unique_asset_id xs b) more (push-Once xs b d)

push_bindings-Once :
    (xs : List AssetId) (bindings : List SourceBindingConfig)
    → Once xs
    → Once (push_bindings xs bindings)
push_bindings-Once xs [] d = d
push_bindings-Once xs (b ∷ bindings) d = elim (Bool-cases (is_polymarket_ws b.source_kind)) [
  | inl e ↦ rw e (
      push_bindings-Once (push_asset_ids xs b.asset_ids) bindings
        (push_asset_ids-Once xs b.asset_ids d))
  | inr e ↦ rw e (push_bindings-Once xs bindings d)
]

push_token-Once : (xs : List AssetId) (token_id : Text) → Once xs → Once (push_token xs token_id)
push_token-Once xs [] d = d
push_token-Once xs (c ∷ token_id) d = push-Once xs (c ∷ token_id) d

-- The assets that are subscribed to are exactly those listed, those of the bindings of the market
-- channel, and the strategy's, where it names one; and none comes twice if none is listed twice.
pub resolved_subscription_asset_ids-exact :
    {F64 : Type 0} (config : ExecutorConfig F64)
    → Distinct (λ a b. same a b) config.websocket.asset_ids
    → Distinct (λ a b. same a b) (resolved_subscription_asset_ids config)
      × ((a : AssetId)
          → has a (resolved_subscription_asset_ids config) ≡ (
              has a config.websocket.asset_ids
              || (bound a config.websocket.source_bindings || is_token a config.strategy.token_id)))
unfolding resolved_subscription_asset_ids
resolved_subscription_asset_ids-exact config d =
    let bindings = config.websocket.source_bindings in
    let xs = push_bindings config.websocket.asset_ids bindings in
    (
      push_token-Once xs config.strategy.token_id
          (push_bindings-Once config.websocket.asset_ids bindings d),
      λ a. ground (
        arith,
        has-push_token a xs config.strategy.token_id,
        has-push_bindings a config.websocket.asset_ids bindings,
      ),
    )
