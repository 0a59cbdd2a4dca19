-- ===== src/Feed/Reconfigure.antt =====
-- A new set of assets for a feed of crates/pm-data/src/feed.rs.
use rtt.Prelude.{
  ◌≡◌, refl, sym, ◌∙◌, ap, inl, inr, Bool, true, not, ◌&&◌, none, List, [], ◌∷◌, any, arith,
  Bool-cases, if◌then◌else◌,
}
use rtt.Order.{Text, text_ord, same, same_self, eq_of_same}
use rtt.BTreeMap.{BTreeSet, keys, lookup}
use rtt.BTreeMap.Lookup.{lookup-remove}
use rtt.Events.{asset, asset_ref, kind_text}
use rtt.OrderBook.{clear_asset}
use rtt.ReferenceStore.{resolve_subject}
use rtt.ReferenceStore.Resolve.{resolve_subject-clear_instrument}
use rtt.Subscription.{plan_subscription_diff, assigned_asset_ids_for_config, set_of}
use rtt.Subscription.Served.{any-keys, any-difference, contains-set_of}
use rtt.Feed.{
  FeedStores, clear_feed_asset, PolymarketFeedManager, same_keys, clear_removed, reconfigure_feed,
}

same_keys_sound : (xs ys : List Text) → same_keys xs ys ≡ true → xs ≡ ys
unfolding same_keys
same_keys_sound [] [] h = refl
same_keys_sound [] (y ∷ ys) h = cc
same_keys_sound (x ∷ xs) [] h = cc
same_keys_sound (x ∷ xs) (y ∷ ys) h = ground (arith, eq_of_same x y, same_keys_sound xs ys)

module _ (source_id a : Text) where
  lookup-clear_feed_asset :
      (stores : FeedStores) (b : Text)
      → lookup a (clear_feed_asset stores source_id b).order_books
        ≡ (if same a b then none else lookup a stores.order_books)
  unfolding clear_feed_asset clear_asset
  lookup-clear_feed_asset stores b = lookup-remove a b stores.order_books

  resolve-clear_feed_asset :
      (stores : FeedStores) (b : Text)
      → resolve_subject
          (clear_feed_asset stores source_id b).reference_store
          (asset_ref source_id a)
        ≡ (if same a b
            then none
            else resolve_subject stores.reference_store (asset_ref source_id a))
  unfolding clear_feed_asset
  resolve-clear_feed_asset stores b = ground (
    arith,
    resolve_subject-clear_instrument stores.reference_store source_id asset b
        (asset_ref source_id a),
    same_self source_id,
    same_self (kind_text asset),
  )

  lookup-clear_removed :
      (ids : List Text) (stores : FeedStores)
      → lookup a (clear_removed source_id ids stores).order_books
        ≡ (if any (same a) ids then none else lookup a stores.order_books)
  lookup-clear_removed [] stores = refl
  lookup-clear_removed (b ∷ ids) stores = ground (
    arith,
    lookup-clear_removed ids (clear_feed_asset stores source_id b),
    lookup-clear_feed_asset stores b,
  )

  resolve-clear_removed :
      (ids : List Text) (stores : FeedStores)
      → resolve_subject (clear_removed source_id ids stores).reference_store (asset_ref source_id a)
        ≡ (if any (same a) ids
            then none
            else resolve_subject stores.reference_store (asset_ref source_id a))
  resolve-clear_removed [] stores = refl
  resolve-clear_removed (b ∷ ids) stores = ground (
    arith,
    resolve-clear_removed ids (clear_feed_asset stores source_id b),
    resolve-clear_feed_asset stores b,
  )

-- Whether the feed serves an asset, now and with a new set of assets.
abbrev pub serves : PolymarketFeedManager → Text → Bool
serves manager a = any (same a) manager.asset_ids

abbrev pub would_serve : PolymarketFeedManager → List Text → Text → Bool
would_serve manager asset_ids a =
    any (same a) (assigned_asset_ids_for_config (set_of asset_ids) manager.subscription_planner)

abbrev pub drops : PolymarketFeedManager → List Text → Text → Bool
drops manager asset_ids a = serves manager a && not (would_serve manager asset_ids a)

module _ (manager : PolymarketFeedManager) (asset_ids : List Text) (a : Text) where
  abbrev current : BTreeSet Text
  current = set_of manager.asset_ids

  abbrev next_ids : List Text
  next_ids = assigned_asset_ids_for_config (set_of asset_ids) manager.subscription_planner

  named-removed :
      any (same a) (plan_subscription_diff current (set_of next_ids)).removes
      ≡ drops manager asset_ids a
  unfolding plan_subscription_diff
  named-removed = ground (
    arith,
    any-difference a current (set_of next_ids),
    contains-set_of a manager.asset_ids,
    contains-set_of a next_ids,
  )

  unchanged :
      same_keys (keys current) (keys (set_of next_ids)) ≡ true
      → serves manager a ≡ would_serve manager asset_ids a
  unchanged h =
      sym (contains-set_of a manager.asset_ids)
      ∙ sym (any-keys a current)
      ∙ ap (any (same a)) (same_keys_sound (keys current) (keys (set_of next_ids)) h)
      ∙ any-keys a (set_of next_ids)
      ∙ contains-set_of a next_ids

  -- With a new set of assets the feed serves exactly those assigned to its shard; the book and the
  -- reference state of an asset that it served and does not serve any more are gone, and those of every
  -- other asset are as they were.
  pub reconfigure_feed-serves :
      let manager' = (reconfigure_feed manager asset_ids).0 in
      let gone = drops manager asset_ids a in
      (serves manager' a ≡ would_serve manager asset_ids a)
      × (lookup a manager'.stores.order_books
          ≡ (if gone then none else lookup a manager.stores.order_books))
      × (resolve_subject manager'.stores.reference_store (asset_ref manager.source_id a) ≡ (
          if gone
          then none
          else resolve_subject manager.stores.reference_store (asset_ref manager.source_id a)))
  unfolding reconfigure_feed
  reconfigure_feed-serves =
      let removes = (plan_subscription_diff current (set_of next_ids)).removes in
      let source_id = manager.source_id in
      let books = lookup-clear_removed source_id a removes manager.stores in
      let references = resolve-clear_removed source_id a removes manager.stores in
      elim (Bool-cases (same_keys (keys current) (keys (set_of next_ids)))) [
        | inl same_set ↦ ground (arith, same_set, unchanged same_set)
        | inr other ↦ ground (arith, other, books, references, named-removed)
      ]
