-- ===== src/Subscription/Batches.antt =====
-- The commands of crates/pm-data/src/subscription_plan.rs come in batches of the size configured.
use rtt.Prelude.{
  ℕ, zero, suc, ◌-◌, ◌≤◌, ◌<◌, ◌≡◌, refl, ap, List, [], ◌∷◌, ◌++◌, All, length, max, min, arith,
  All-append,
}
use rtt.Order.{Text, text_ord}
use rtt.BTreeMap.{BTreeSet, difference}
use rtt.Subscription.{
  SubscriptionOperation, subscribe, unsubscribe, SubscriptionCommand, SubscriptionPlannerConfig,
  batches, chunks, push_batches, append_batched_commands, set_of, plan_subscription_diff, pacing,
  assigned_asset_ids_for_config, plan_subscription_commands,
}

abbrev pub concat {ℓ} : {A : Type ℓ} → List (List A) → List A
concat [] = []
concat (xs ∷ xss) = xs ++ concat xss

batches-concat {ℓ} :
    {A : Type ℓ} (n k : ℕ) (xs : List A)
    → let (batch, rest) = batches n k xs in batch ++ concat rest ≡ xs
unfolding batches
batches-concat n k [] = refl
batches-concat n zero (x ∷ xs) = ap (◌∷◌ x) (batches-concat n (n - 1) xs)
batches-concat n (suc k) (x ∷ xs) = ap (◌∷◌ x) (batches-concat n k xs)

pub chunks-concat {ℓ} : {A : Type ℓ} (n : ℕ) (xs : List A) → concat (chunks n xs) ≡ xs
unfolding chunks batches
chunks-concat n [] = refl
chunks-concat n (x ∷ xs) = ap (◌∷◌ x) (batches-concat n (n - 1) xs)

-- A batch is not empty and not too long.
abbrev pub IsBatch {ℓ} : {A : Type ℓ} → ℕ → List A → Type 0
IsBatch n xs = (0 < length xs) × (length xs ≤ n)

batches-IsBatch {ℓ} :
    {A : Type ℓ} (n k : ℕ) (xs : List A)
    → 0 < n
    → let (batch, rest) = batches n k xs in (length batch ≤ k) × All (IsBatch n) rest
unfolding batches
batches-IsBatch n k [] h = (omega arith, tt)
batches-IsBatch n zero (x ∷ xs) h =
    let one = batches-IsBatch n (n - 1) xs h in
    (omega arith, ((omega arith, omega (arith, one.0)), one.1))
batches-IsBatch n (suc k) (x ∷ xs) h =
    let one = batches-IsBatch n k xs h in (omega (arith, one.0), one.1)

push_batches-All :
    (n : ℕ) (cs : List SubscriptionCommand) (op : SubscriptionOperation) (bs : List (List Text))
    (i pacing_ms : ℕ)
    → All (λ c. IsBatch n c.asset_ids) cs
    → All (IsBatch n) bs
    → All (λ c. IsBatch n c.asset_ids) (push_batches cs op bs i pacing_ms)
unfolding push_batches
push_batches-All n cs op [] i pacing_ms h k = h
push_batches-All n cs op (b ∷ bs) i pacing_ms h k =
    let c : SubscriptionCommand = record {
      operation = op;
      asset_ids = b;
      shard_index = i;
      pacing_ms = pacing cs pacing_ms;
    } in
    push_batches-All n (cs ++ c ∷ []) op bs i pacing_ms
      (All-append (λ c. IsBatch n c.asset_ids) cs (c ∷ []) h (k.0, tt)) k.1

append-IsBatch :
    (n : ℕ) (cs : List SubscriptionCommand) (op : SubscriptionOperation) (ids : List Text)
    (i pacing_ms : ℕ)
    → 0 < n
    → All (λ c. IsBatch n c.asset_ids) cs
    → All (λ c. IsBatch n c.asset_ids) (append_batched_commands cs op ids i n pacing_ms)
unfolding append_batched_commands chunks
append-IsBatch n cs op ids i pacing_ms h k =
    push_batches-All n cs op (chunks n ids) i pacing_ms k (batches-IsBatch n 0 ids h).1

-- Every command names at least one asset, and no more than the batch size, which counts as 1 if it is 0.
plan-IsBatch :
    (current desired : BTreeSet Text) (config : SubscriptionPlannerConfig)
    → All
        (λ c. IsBatch (max config.max_batch_size 1) c.asset_ids)
        (plan_subscription_commands current desired config)
unfolding plan_subscription_commands plan_subscription_diff
plan-IsBatch current desired config =
    let wanted = set_of (assigned_asset_ids_for_config desired config) in
    let shard_index = min config.shard_index (max config.shard_count 1 - 1) in
    let size = max config.max_batch_size 1 in
    let removes = difference current wanted in
    let first = append_batched_commands [] unsubscribe removes shard_index size config.pacing_ms in
    append-IsBatch size first subscribe (difference wanted current) shard_index config.pacing_ms
      (ground arith)
      (append-IsBatch size [] unsubscribe removes shard_index config.pacing_ms (ground arith) tt)
