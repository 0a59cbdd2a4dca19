-- ===== src/Subscription/Served.antt =====
-- The commands of crates/pm-data/src/subscription_plan.rs take a connection to the assets wanted.
use rtt.Prelude.{
  ℕ, ◌-◌, ◌≡◌, refl, ◌∙◌, ap, sym, Bool, false, not, ◌||◌, ◌&&◌, List, [], ◌∷◌, ◌++◌, any, keep,
  if◌then◌else◌, map, max, min, arith,
}
use rtt.Order.{Text, text_ord, same, eq_of_same}
use rtt.BTreeMap.{BTreeSet, keys, contains, lookup, insert, remove, collect, insert_all, difference}
use rtt.BTreeMap.Lookup.{lookup-remove}
use rtt.BTreeMap.Size.{contains-insert}
use rtt.Subscription.{
  SubscriptionOperation, subscribe, unsubscribe, SubscriptionCommand, SubscriptionPlannerConfig,
  chunks, push_batches, append_batched_commands, set_of, plan_subscription_diff, pacing,
  assigned_asset_ids_for_config, plan_subscription_commands,
}
use rtt.Subscription.Batches.{concat, chunks-concat}

-- What the exchange's side of the connection makes of the commands.
abbrev pub insert_ids : List Text → BTreeSet Text → BTreeSet Text
insert_ids [] set = set
insert_ids (id ∷ ids) set = insert_ids ids (insert id tt set)

abbrev pub remove_ids : List Text → BTreeSet Text → BTreeSet Text
remove_ids [] set = set
remove_ids (id ∷ ids) set = remove_ids ids (remove id set)

abbrev pub serve : BTreeSet Text → SubscriptionCommand → BTreeSet Text
serve set command = elim command.operation [
  | subscribe ↦ insert_ids command.asset_ids set
  | unsubscribe ↦ remove_ids command.asset_ids set
]

unfoldable pub serve_all : BTreeSet Text → List SubscriptionCommand → BTreeSet Text
serve_all set [] = set
serve_all set (command ∷ commands) = serve_all (serve set command) commands

contains-remove :
    (p q : Text) (m : BTreeSet Text) → contains p (remove q m) ≡ not (same p q) && contains p m
unfolding contains
contains-remove p q m = ground (arith, lookup-remove p q m)

contains-insert_ids :
    (p : Text) (ids : List Text) (set : BTreeSet Text)
    → contains p (insert_ids ids set) ≡ any (same p) ids || contains p set
contains-insert_ids p [] set = refl
contains-insert_ids p (id ∷ ids) set =
    ground (arith, contains-insert_ids p ids (insert id tt set), contains-insert p id tt set)

contains-remove_ids :
    (p : Text) (ids : List Text) (set : BTreeSet Text)
    → contains p (remove_ids ids set) ≡ not (any (same p) ids) && contains p set
contains-remove_ids p [] set = refl
contains-remove_ids p (id ∷ ids) set =
    ground (arith, contains-remove_ids p ids (remove id set), contains-remove p id set)

any-append :
    (p : Text) (xs ys : List Text) → any (same p) (xs ++ ys) ≡ any (same p) xs || any (same p) ys
any-append p [] ys = refl
any-append p (x ∷ xs) ys = ground (arith, any-append p xs ys)

pub serve_all-append :
    (set : BTreeSet Text) (cs ds : List SubscriptionCommand)
    → serve_all set (cs ++ ds) ≡ serve_all (serve_all set cs) ds
unfolding serve_all
serve_all-append set [] ds = refl
serve_all-append set (c ∷ cs) ds = serve_all-append (serve set c) cs ds

-- Whether an asset is subscribed to after the batches of one operation, given whether it was before.
abbrev pub after : SubscriptionOperation → Bool → Bool → Bool
after subscribe named before = named || before
after unsubscribe named before = not named && before

after-append :
    (op : SubscriptionOperation) (m n b : Bool) → after op n (after op m b) ≡ after op (m || n) b
after-append subscribe m n b = ground arith
after-append unsubscribe m n b = ground arith

pub serve_one :
    (p : Text) (set : BTreeSet Text) (c : SubscriptionCommand)
    → contains p (serve_all set (c ∷ []))
      ≡ after c.operation (any (same p) c.asset_ids) (contains p set)
unfolding serve_all
serve_one p set c =
    ground (arith, contains-insert_ids p c.asset_ids set, contains-remove_ids p c.asset_ids set)

push_batches-serve :
    (p : Text) (set : BTreeSet Text) (cs : List SubscriptionCommand) (op : SubscriptionOperation)
    (bs : List (List Text)) (i pacing_ms : ℕ)
    → contains p (serve_all set (push_batches cs op bs i pacing_ms))
      ≡ after op (any (same p) (concat bs)) (contains p (serve_all set cs))
unfolding push_batches
push_batches-serve p set cs subscribe [] i pacing_ms = refl
push_batches-serve p set cs unsubscribe [] i pacing_ms = refl
push_batches-serve p set cs op (b ∷ bs) i pacing_ms =
    let c : SubscriptionCommand = record {
      operation = op;
      asset_ids = b;
      shard_index = i;
      pacing_ms = pacing cs pacing_ms;
    } in
    let rest = push_batches-serve p set (cs ++ c ∷ []) op bs i pacing_ms in
    let one = serve_one p (serve_all set cs) c in
    let named : List Text → Bool = any (same p) in
    let before = contains p (serve_all set cs) in
    rest
    ∙ ap (after op (named (concat bs))) (ap (contains p) (serve_all-append set cs (c ∷ [])) ∙ one)
    ∙ after-append op (named b) (named (concat bs)) before
    ∙ ap (λ n. after op n before) (sym (any-append p b (concat bs)))

append-serve :
    (p : Text) (set : BTreeSet Text) (cs : List SubscriptionCommand) (op : SubscriptionOperation)
    (ids : List Text) (i n pacing_ms : ℕ)
    → contains p (serve_all set (append_batched_commands cs op ids i n pacing_ms))
      ≡ after op (any (same p) ids) (contains p (serve_all set cs))
unfolding append_batched_commands
append-serve p set cs op ids i n pacing_ms =
    push_batches-serve p set cs op (chunks n ids) i pacing_ms
    ∙ ap (λ ids. after op (any (same p) ids) (contains p (serve_all set cs))) (chunks-concat n ids)

any-keep :
    (p : Text) (keeps : Text → Bool) (ids : List Text)
    → any (same p) (keep keeps ids) ≡ keeps p && any (same p) ids
any-keep p keeps [] = ground arith
any-keep p keeps (id ∷ ids) = ground (arith, any-keep p keeps ids, eq_of_same p id)

pub any-keys : (p : Text) (set : BTreeSet Text) → any (same p) (keys set) ≡ contains p set
unfolding contains lookup
any-keys p [] = refl
any-keys p ((k, v) ∷ m) = ground (arith, any-keys p m)

pub any-difference :
    (p : Text) (a b : BTreeSet Text)
    → any (same p) (difference a b) ≡ not (contains p b) && contains p a
any-difference p a b =
    any-keep p (λ k. not (contains k b)) (keys a) ∙ ap (λ x. not (contains p b) && x) (any-keys p a)

contains-insert_all :
    (p : Text) (ids : List Text) (set : BTreeSet Text)
    → contains p (insert_all (map (λ id. (id, tt)) ids) set) ≡ any (same p) ids || contains p set
unfolding insert_all
contains-insert_all p [] set = refl
contains-insert_all p (id ∷ ids) set =
    ground (arith, contains-insert_all p ids (insert id tt set), contains-insert p id tt set)

pub contains-set_of : (p : Text) (ids : List Text) → contains p (set_of ids) ≡ any (same p) ids
unfolding collect
contains-set_of p ids =
    let none_yet : BTreeSet Text = [] in
    let nothing : contains p none_yet ≡ false = unfold contains lookup in refl in
    ground (arith, contains-insert_all p ids [], nothing)

-- From any set: what the plan does not name stays as it was.
pub plan-serve_from :
    (set current desired : BTreeSet Text) (config : SubscriptionPlannerConfig) (p : Text)
    → let wanted = any (same p) (assigned_asset_ids_for_config desired config) in
      contains p (serve_all set (plan_subscription_commands current desired config))
      ≡ (if contains p current then wanted && contains p set else wanted || contains p set)
unfolding plan_subscription_commands plan_subscription_diff
plan-serve_from set current desired config p =
    let wanted = set_of (assigned_asset_ids_for_config desired config) in
    let shard_index = min config.shard_index (max config.shard_count 1 - 1) in
    let size = max config.max_batch_size 1 in
    let removes = difference current wanted in
    let first = append_batched_commands [] unsubscribe removes shard_index size config.pacing_ms in
    let start : serve_all set [] ≡ set = unfold serve_all in refl in
    ground (
      arith,
      start,
      append-serve p set [] unsubscribe removes shard_index size config.pacing_ms,
      append-serve p set first subscribe (difference wanted current) shard_index size
          config.pacing_ms,
      any-difference p current wanted,
      any-difference p wanted current,
      contains-set_of p (assigned_asset_ids_for_config desired config),
    )

-- The commands take a connection from any subscriptions to exactly those that its shard wants: after
-- they are served, an asset is subscribed to if and only if it is assigned to the configured shard.
pub plan-serve :
    (current desired : BTreeSet Text) (config : SubscriptionPlannerConfig) (p : Text)
    → contains p (serve_all current (plan_subscription_commands current desired config))
      ≡ any (same p) (assigned_asset_ids_for_config desired config)
plan-serve current desired config p =
    ground (arith, plan-serve_from current current desired config p)
