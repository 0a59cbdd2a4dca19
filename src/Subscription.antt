-- ===== src/Subscription.antt =====
-- crates/pm-data/src/subscription_plan.rs: which assets a connection of the feed subscribes to, and the
-- commands that take it there. `market_subscription_semantics` is a constant that nothing here reads.
pub mod Batches
pub mod Served
pub mod Shards
use rtt.Prelude.{
  ℕ, zero, suc, ◌+◌, ◌-◌, ◌%◌, Bool, true, false, Option, none, some, List, [], ◌∷◌, ◌++◌, map,
  if◌then◌else◌, ◌==◌, max, min,
}
use rtt.Order.{Text, text_ord}
use rtt.BTreeMap.{BTreeSet, keys, collect, difference, intersection}

pub data SubscriptionOperation : Type 0 where
  subscribe unsubscribe : SubscriptionOperation

pub record SubscriptionDiff : Type 0 where
  pub adds : List Text
  pub removes : List Text
  pub unchanged : List Text

pub record SubscriptionCommand : Type 0 where
  pub operation : SubscriptionOperation
  pub asset_ids : List Text
  pub shard_index : ℕ
  pub pacing_ms : ℕ

pub record SubscriptionPlannerConfig : Type 0 where
  pub max_batch_size : ℕ
  pub pacing_ms : ℕ
  pub shard_count : ℕ
  pub shard_index : ℕ

pub record SubscriptionShard : Type 0 where
  pub shard_index : ℕ
  pub asset_ids : List Text

unfoldable pub plan_subscription_diff : BTreeSet Text → BTreeSet Text → SubscriptionDiff
plan_subscription_diff current desired = record {
  adds = difference desired current;
  removes = difference current desired;
  unchanged = intersection current desired;
}

-- `n` empty shards, from index `i` on.
abbrev pub empty_shards : ℕ → ℕ → List SubscriptionShard
empty_shards i zero = []
empty_shards i (suc n) = record { shard_index = i; asset_ids = [] } ∷ empty_shards (i + 1) n

-- `shards[i].asset_ids.push(..)`; the index is in range.
abbrev pub push_at : ℕ → Text → List SubscriptionShard → List SubscriptionShard
push_at i asset_id [] = []
push_at zero asset_id (shard ∷ shards) =
    record shard { asset_ids = shard.asset_ids ++ asset_id ∷ [] } ∷ shards
push_at (suc i) asset_id (shard ∷ shards) = shard ∷ push_at i asset_id shards

-- The loop, from the index of the first asset.
unfoldable pub deal : ℕ → ℕ → List Text → List SubscriptionShard → List SubscriptionShard
deal shard_count index [] shards = shards
deal shard_count index (asset_id ∷ asset_ids) shards =
    deal shard_count (index + 1) asset_ids (push_at (index % shard_count) asset_id shards)

unfoldable pub assign_subscription_shards : BTreeSet Text → ℕ → List SubscriptionShard
assign_subscription_shards desired shard_count =
    let count = max shard_count 1 in deal count 0 (keys desired) (empty_shards 0 count)

-- `find` by the index, with the assets found.
abbrev pub assets_of : ℕ → List SubscriptionShard → List Text
assets_of i [] = []
assets_of i (shard ∷ shards) =
    if shard.shard_index == i then shard.asset_ids else assets_of i shards

unfoldable pub assigned_asset_ids_for_config : BTreeSet Text → SubscriptionPlannerConfig → List Text
assigned_asset_ids_for_config desired config =
    let shard_count = max config.shard_count 1 in
    let shard_index = min config.shard_index (shard_count - 1) in
    assets_of shard_index (assign_subscription_shards desired shard_count)

-- `chunks(n)`: the rest of an open batch with room for `k` more, and the batches after it.
unfoldable pub batches {ℓ} : {A : Type ℓ} → ℕ → ℕ → List A → List A × List (List A)
batches n k [] = ([], [])
batches n zero (x ∷ xs) = let (batch, rest) = batches n (n - 1) xs in ([], (x ∷ batch) ∷ rest)
batches n (suc k) (x ∷ xs) = let (batch, rest) = batches n k xs in (x ∷ batch, rest)

unfoldable pub chunks {ℓ} : {A : Type ℓ} → ℕ → List A → List (List A)
chunks n xs = (batches n 0 xs).1

abbrev pub pacing : List SubscriptionCommand → ℕ → ℕ
pacing [] pacing_ms = 0
pacing (c ∷ cs) pacing_ms = pacing_ms

-- The loop of `append_batched_commands` over the batches.
unfoldable pub push_batches :
    List SubscriptionCommand
    → SubscriptionOperation
    → List (List Text)
    → ℕ
    → ℕ
    → List SubscriptionCommand
push_batches commands operation [] shard_index pacing_ms = commands
push_batches commands operation (batch ∷ rest) shard_index pacing_ms =
    let command : SubscriptionCommand = record {
      operation = operation;
      asset_ids = batch;
      shard_index = shard_index;
      pacing_ms = pacing commands pacing_ms;
    } in
    push_batches (commands ++ command ∷ []) operation rest shard_index pacing_ms

unfoldable pub append_batched_commands :
    List SubscriptionCommand
    → SubscriptionOperation
    → List Text
    → ℕ
    → ℕ
    → ℕ
    → List SubscriptionCommand
append_batched_commands commands operation asset_ids shard_index max_batch_size pacing_ms =
    push_batches commands operation (chunks max_batch_size asset_ids) shard_index pacing_ms

abbrev pub set_of : List Text → BTreeSet Text
set_of ids = collect (map (λ id. (id, tt)) ids)

unfoldable pub plan_subscription_commands :
    BTreeSet Text → BTreeSet Text → SubscriptionPlannerConfig → List SubscriptionCommand
plan_subscription_commands current desired config =
    let shard_count = max config.shard_count 1 in
    let shard_index = min config.shard_index (shard_count - 1) in
    let max_batch_size = max config.max_batch_size 1 in
    let desired_for_shard = set_of (assigned_asset_ids_for_config desired config) in
    let diff = plan_subscription_diff current desired_for_shard in
    let commands =
      append_batched_commands [] unsubscribe diff.removes shard_index max_batch_size
        config.pacing_ms in
    append_batched_commands commands subscribe diff.adds shard_index max_batch_size config.pacing_ms
