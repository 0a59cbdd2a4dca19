-- ===== src/Ws/Commands.antt =====
-- What the exchange has subscribed a connection of crates/pm-data/src/ws.rs to, once the queue of
-- commands is written.
use rtt.Prelude.{
  ◌≡◌, refl, sym, ◌∙◌, ap, Bool, true, false, ◌&&◌, ◌||◌, ◌⊎◌, inl, inr, some, List, [], ◌∷◌, ◌++◌,
  any, arith, if◌then◌else◌,
}
use rtt.Order.{Text, text_ord, same, same_self}
use rtt.BTreeMap.{BTreeSet, contains}
use rtt.Subscription.{
  SubscriptionOperation, subscribe, unsubscribe, SubscriptionCommand, SubscriptionPlannerConfig,
  plan_subscription_commands, assigned_asset_ids_for_config, set_of,
}
use rtt.Subscription.Served.{
  after, serve_all, serve_one, serve_all-append, plan-serve_from, contains-set_of,
}
use rtt.Ws.{
  WsClient, assigned_asset_ids, reconfigure_assets, Frame, subscription, ping_text, pong, close,
  Connection,
}

-- The commands among the frames written.
abbrev pub commands_of : List Frame → List SubscriptionCommand
commands_of [] = []
commands_of (subscription c ∷ frames) = c ∷ commands_of frames
commands_of (ping_text ∷ frames) = commands_of frames
commands_of (pong s ∷ frames) = commands_of frames
commands_of (close ∷ frames) = commands_of frames

-- Whether the client wants an asset on its shard.
abbrev pub wants : WsClient → Text → Bool
wants client p = any (same p) (assigned_asset_ids client)

after_cases :
    (op : SubscriptionOperation) (named before wanted : Bool)
    → (after op named wanted ≡ wanted) ⊎ (after op named wanted ≡ after op named before)
after_cases subscribe true before wanted = inr refl
after_cases subscribe false before wanted = inl refl
after_cases unsubscribe true before wanted = inr refl
after_cases unsubscribe false before wanted = inl refl

some_set : Text → Bool → BTreeSet Text
some_set p true = (p, tt) ∷ []
some_set p false = []

contains-some_set : (p : Text) (b : Bool) → contains p (some_set p b) ≡ b
unfolding contains some_set
contains-some_set p true = ground (arith, same_self p)
contains-some_set p false = refl

module _ (p : Text) where
  -- What commands make of one asset's subscription.
  abbrev pub effect : SubscriptionCommand → Bool → Bool
  effect c b = after c.operation (any (same p) c.asset_ids) b

  abbrev pub effects : List SubscriptionCommand → Bool → Bool
  effects [] b = b
  effects (c ∷ cs) b = effects cs (effect c b)

  pub effects-append :
      (cs ds : List SubscriptionCommand) (b : Bool)
      → effects (cs ++ ds) b ≡ effects ds (effects cs b)
  effects-append [] ds b = refl
  effects-append (c ∷ cs) ds b = effects-append cs ds (effect c b)

  pub serve_all-effects :
      (set : BTreeSet Text) (cs : List SubscriptionCommand)
      → contains p (serve_all set cs) ≡ effects cs (contains p set)
  serve_all-effects set [] = unfold serve_all in refl
  serve_all-effects set (c ∷ cs) =
      let first : BTreeSet Text = serve_all set (c ∷ []) in
      ap (contains p) (serve_all-append set (c ∷ []) cs)
      ∙ serve_all-effects first cs
      ∙ ap (effects cs) (serve_one p set c)

  -- A command either leaves a subscription alone or fixes it.
  effect_cases :
      (c : SubscriptionCommand) (before wanted : Bool)
      → (effect c wanted ≡ wanted) ⊎ (effect c wanted ≡ effect c before)
  effect_cases c before wanted = after_cases c.operation (any (same p) c.asset_ids) before wanted

  pub effects-keeps :
      (cs : List SubscriptionCommand) (before wanted : Bool)
      → effects cs before ≡ wanted
      → effects cs wanted ≡ wanted
  effects-keeps [] before wanted h = refl
  effects-keeps (c ∷ cs) before wanted h = elim (effect_cases c before wanted) [
    | inl alone ↦ ap (effects cs) alone ∙ effects-keeps cs (effect c before) wanted h
    | inr fixed ↦ ap (effects cs) fixed ∙ h
  ]

  pub effects-plan :
      (current desired : BTreeSet Text) (config : SubscriptionPlannerConfig) (b : Bool)
      → let wanted = any (same p) (assigned_asset_ids_for_config desired config) in
        effects (plan_subscription_commands current desired config) b
        ≡ (if contains p current then wanted && b else wanted || b)
  effects-plan current desired config b =
      let plan = plan_subscription_commands current desired config in
      let wanted = any (same p) (assigned_asset_ids_for_config desired config) in
      sym (ap (effects plan) (contains-some_set p b))
      ∙ sym (serve_all-effects (some_set p b) plan)
      ∙ plan-serve_from (some_set p b) current desired config p
      ∙ ap (λ (x : Bool). if contains p current then wanted && x else wanted || x)
          (contains-some_set p b)

  -- There is a queue, and it agrees with what the client wants: a subscription as wanted stays so.
  pub record Agrees (client : WsClient) : Type 0 where
    pub queue : List SubscriptionCommand
    pub waiting : client.control ≡ some queue
    pub keeps : effects queue (wants client p) ≡ wants client p

  -- There is a queue, and the frames written and the queue together give what the client wants.
  pub record Serves (c : Connection) : Type 0 where
    pub queue : List SubscriptionCommand
    pub waiting : c.client.control ≡ some queue
    pub gives : effects (commands_of c.written ++ queue) false ≡ wants c.client p

  pub Serves-Agrees : (c : Connection) → Serves c → Agrees c.client
  Serves-Agrees c h = record {
    queue = h.queue;
    waiting = h.waiting;
    keeps =
        effects-keeps h.queue (effects (commands_of c.written) false) (wants c.client p)
          (sym (effects-append (commands_of c.written) h.queue false) ∙ h.gives);
  }

  -- A change of the assets plans from the old ones to the new ones.
  pub effects-reconfigure :
      (client : WsClient) (asset_ids : List Text) (b : Bool)
      → let (client', commands) = reconfigure_assets client asset_ids in
        effects commands b ≡ (if wants client p then wants client' p && b else wants client' p || b)
  unfolding reconfigure_assets
  effects-reconfigure client asset_ids b = ground (
    arith,
    effects-plan (set_of (assigned_asset_ids client)) (set_of asset_ids) client.planner_config b,
    contains-set_of p (assigned_asset_ids client),
  )
