-- ===== src/Subscription/Shards.antt =====
-- How crates/pm-data/src/subscription_plan.rs deals the assets out to the shards.
use rtt.Prelude.{
  ℕ, zero, suc, ◌+◌, ◌%◌, ◌<◌, ◌≡◌, refl, List, [], ◌∷◌, ◌++◌, length, if◌then◌else◌, max, arith,
  get_elem?, some, Bool-cases, inl, inr, ◌==◌, ◌∙◌, ap, append_assoc,
}
use mathlib.Core.List.{append-nil}
use native.Mathlib.Nat.{mod-lt}
use rtt.Order.{Text, text_ord, same, eq_of_same}
use rtt.BTreeMap.{BTreeSet, keys, contains, lookup, IsSorted}
use rtt.BTreeMap.Sorted.{lookup-Above}
use rtt.Subscription.{SubscriptionShard, empty_shards, push_at, deal, assign_subscription_shards}

-- How often an asset stands in a list, and in the shards.
abbrev pub count : Text → List Text → ℕ
count p [] = 0
count p (x ∷ xs) = (if same p x then 1 else 0) + count p xs

abbrev pub count_in_shards : Text → List SubscriptionShard → ℕ
count_in_shards p [] = 0
count_in_shards p (shard ∷ shards) = count p shard.asset_ids + count_in_shards p shards

count-append : (p : Text) (xs ys : List Text) → count p (xs ++ ys) ≡ count p xs + count p ys
count-append p [] ys = ground arith
count-append p (x ∷ xs) ys = ground (arith, count-append p xs ys)

push_at-count :
    (p : Text) (i : ℕ) (id : Text) (shards : List SubscriptionShard)
    → i < length shards
    → (count_in_shards p (push_at i id shards)
        ≡ (if same p id then 1 else 0) + count_in_shards p shards)
      × (length (push_at i id shards) ≡ length shards)
push_at-count p i id [] h = ground arith
push_at-count p zero id (shard ∷ shards) h =
    ground (arith, count-append p shard.asset_ids (id ∷ []))
push_at-count p (suc i) id (shard ∷ shards) h =
    ground (arith, push_at-count p i id shards (omega arith))

deal-count :
    (p : Text) (n index : ℕ) (ids : List Text) (shards : List SubscriptionShard)
    → 0 < n
    → length shards ≡ n
    → (count_in_shards p (deal n index ids shards) ≡ count p ids + count_in_shards p shards)
      × (length (deal n index ids shards) ≡ n)
unfolding deal
deal-count p n index [] shards h k = ground arith
deal-count p n index (id ∷ ids) shards h k =
    let one = push_at-count p (index % n) id shards (omega (arith, mod-lt index h)) in
    let rest =
      deal-count p n (index + 1) ids (push_at (index % n) id shards) h (omega (arith, one)) in
    ground (arith, one, rest)

empty_shards-count :
    (p : Text) (i n : ℕ)
    → (count_in_shards p (empty_shards i n) ≡ 0) × (length (empty_shards i n) ≡ n)
empty_shards-count p i zero = (refl, refl)
empty_shards-count p i (suc n) = ground (arith, empty_shards-count p (i + 1) n)

-- Every `n`-th asset, those at the positions that leave the remainder `i`, counted from an index on.
abbrev pub every_nth : ℕ → ℕ → ℕ → List Text → List Text
every_nth n i index [] = []
every_nth n i index (id ∷ ids) =
    let rest = every_nth n i (index + 1) ids in if index % n == i then id ∷ rest else rest

get-push_at :
    (i j : ℕ) (id : Text) (shards : List SubscriptionShard) (s : SubscriptionShard)
    → get_elem? shards i ≡ some s
    → get_elem? (push_at j id shards) i
      ≡ some (if j == i then record s { asset_ids = s.asset_ids ++ id ∷ [] } else s)
get-push_at i j id [] s h = ground arith
get-push_at zero zero id (shard ∷ shards) s h = ground (arith, h)
get-push_at zero (suc j) id (shard ∷ shards) s h = ground (arith, h)
get-push_at (suc i) zero id (shard ∷ shards) s h = ground (arith, h)
get-push_at (suc i) (suc j) id (shard ∷ shards) s h = get-push_at i j id shards s h ∙ ground arith

get-deal :
    (n i index : ℕ) (ids : List Text) (shards : List SubscriptionShard) (s : SubscriptionShard)
    → get_elem? shards i ≡ some s
    → get_elem? (deal n index ids shards) i
      ≡ some (record s { asset_ids = s.asset_ids ++ every_nth n i index ids })
unfolding deal
get-deal n i index [] shards s h = rw (append-nil s.asset_ids) h
get-deal n i index (id ∷ ids) shards s h = elim (Bool-cases (index % n == i)) [
  | inl e ↦
      let s' : SubscriptionShard = record s { asset_ids = s.asset_ids ++ id ∷ [] } in
      let one : get_elem? (push_at (index % n) id shards) i ≡ some s' =
        ground (arith, e, get-push_at i (index % n) id shards s h) in
      let rest = get-deal n i (index + 1) ids (push_at (index % n) id shards) s' one in
      let joined = append_assoc s.asset_ids (id ∷ []) (every_nth n i (index + 1) ids) in
      rw e (rest ∙ ap (λ (xs : List Text). some (record s { asset_ids = xs })) joined)
  | inr e ↦
      let one : get_elem? (push_at (index % n) id shards) i ≡ some s =
        ground (arith, e, get-push_at i (index % n) id shards s h) in
      rw e (get-deal n i (index + 1) ids (push_at (index % n) id shards) s one)
]

get-empty_shards :
    (i k n : ℕ)
    → i < n
    → get_elem? (empty_shards k n) i ≡ some (record { shard_index = k + i; asset_ids = [] })
get-empty_shards i k zero h = elim h [ ]
get-empty_shards zero k (suc n) h = ground arith
get-empty_shards (suc i) k (suc n) h =
    get-empty_shards i (k + 1) n (omega arith)
    ∙ ap (λ (m : ℕ). some (record { shard_index = m; asset_ids = [] })) (omega arith)

-- An asset of a set stands in it once.
count-keys :
    (p : Text) (desired : BTreeSet Text)
    → IsSorted desired
    → count p (keys desired) ≡ (if contains p desired then 1 else 0)
unfolding contains lookup
count-keys p [] s = refl
count-keys p ((k, v) ∷ m) s =
    ground (arith, count-keys p m s.1, eq_of_same p k, lookup-Above k m s.0)

-- The shards share a set of assets out: there are as many shards as asked for, at least one; each desired
-- asset stands in them once, and any other not at all; and the shard with the index `i` holds every n-th
-- asset of the set from the i-th on, so that the assets are dealt round.
pub assign-count :
    (desired : BTreeSet Text) (shard_count i : ℕ) (p : Text)
    → IsSorted desired
    → i < max shard_count 1
    → let shards = assign_subscription_shards desired shard_count in
      (count_in_shards p shards ≡ (if contains p desired then 1 else 0))
      × (length shards ≡ max shard_count 1)
      × (get_elem? shards i
          ≡ some (record {
            shard_index = i;
            asset_ids = every_nth (max shard_count 1) i 0 (keys desired);
          }))
unfolding assign_subscription_shards
assign-count desired shard_count i p sorted h =
    let n = max shard_count 1 in
    let start = empty_shards-count p 0 n in
    let dealt = deal-count p n 0 (keys desired) (empty_shards 0 n) (ground arith) start.1 in
    (
      omega (arith, dealt.0, start.0, count-keys p desired sorted),
      dealt.1,
      get-deal n i 0 (keys desired) (empty_shards 0 n) (record { shard_index = i; asset_ids = [] })
          (get-empty_shards i 0 n h
            ∙ ap (λ (m : ℕ). some (record { shard_index = m; asset_ids = [] })) (omega arith)),
    )
