-- ===== src/Ws/Subscribed.antt =====
-- Through connections, changes of the assets and lost commands, the subscriptions of a connection of
-- crates/pm-data/src/ws.rs come to what the client wants.
use rtt.Prelude.{
  ℕ, ◌≡◌, refl, sym, ◌∙◌, ap, subst, Bool, true, false, inl, inr, Option, none, some, List, [], ◌∷◌,
  ◌++◌, map, arith, Bool-cases, append_assoc,
}
use mathlib.Core.List.{append-nil}
use rtt.Order.{Text, text, text_ord, same}
use rtt.BTreeMap.{contains, lookup}
use rtt.Subscription.{SubscriptionCommand}
use rtt.Subscription.Served.{serve_all}
use rtt.Ws.{
  WsClient, enqueue, reconfigure_assets, Frame, subscription, ping_text, pong, close, Round,
  command, tick, text_frame, ping_frame, close_frame, read_failed, stream_ended, other_frame,
  shut_down, reconfigured, command_failed, write_failed, MessageDecoder, Connection, write,
  take_command, drop_command, see_text, Flow, again, finished, failed, flow_of, onward, resume,
  round, rounds, initial_commands, Attempt, refused, lost, up, connected, connect_and_run, Session,
  Running, start_running, leave, after_connection, run,
}
use rtt.Ws.Commands.{
  commands_of, wants, effect, effects, effects-append, effects-keeps, effects-plan, Agrees, Serves,
  Serves-Agrees, effects-reconfigure, serve_all-effects,
}

commands_of-append :
    (xs ys : List Frame) → commands_of (xs ++ ys) ≡ commands_of xs ++ commands_of ys
commands_of-append [] ys = refl
commands_of-append (subscription c ∷ xs) ys = ap (◌∷◌ c) (commands_of-append xs ys)
commands_of-append (ping_text ∷ xs) ys = commands_of-append xs ys
commands_of-append (pong s ∷ xs) ys = commands_of-append xs ys
commands_of-append (close ∷ xs) ys = commands_of-append xs ys

commands_of-map : (cs : List SubscriptionCommand) → commands_of (map subscription cs) ≡ cs
commands_of-map [] = refl
commands_of-map (c ∷ cs) = ap (◌∷◌ c) (commands_of-map cs)

nowhere : (p : Text) → contains {V = Unit {0}} p [] ≡ false
unfolding contains
nowhere p = unfold lookup in refl

module _ (p : Text) where
  -- A queue that grows by the plan of a change.
  grown :
      (client : WsClient) (asset_ids : List Text) (queue : List SubscriptionCommand)
      → client.control ≡ some queue
      → let (client', commands) = reconfigure_assets client asset_ids in
        client'.control ≡ some (queue ++ commands)
  unfolding reconfigure_assets
  grown client asset_ids queue e = ap (enqueue _) e

  reconfigure-Agrees :
      (client : WsClient) (asset_ids : List Text)
      → Agrees p client
      → Agrees p (reconfigure_assets client asset_ids).0
  reconfigure-Agrees client asset_ids h =
      let (client', commands) = reconfigure_assets client asset_ids in
      record {
        queue = h.queue ++ commands;
        waiting = grown client asset_ids h.queue h.waiting;
        keeps =
            effects-append p h.queue commands (wants client' p)
            ∙ ground (
              arith,
              effects-reconfigure p client asset_ids (effects p h.queue (wants client' p)),
              h.keeps,
            );
      }

  reconfigure-Serves :
      (c : Connection) (asset_ids : List Text)
      → Serves p c
      → Serves p (record c { client = (reconfigure_assets c.client asset_ids).0 })
  reconfigure-Serves c asset_ids h =
      let (client', commands) = reconfigure_assets c.client asset_ids in
      let written = commands_of c.written in
      record {
        queue = h.queue ++ commands;
        waiting = grown c.client asset_ids h.queue h.waiting;
        gives =
            ap (λ (cs : List SubscriptionCommand). effects p cs false)
              (sym (append_assoc written h.queue commands))
            ∙ effects-append p (written ++ h.queue) commands false
            ∙ ground (
              arith,
              effects-reconfigure p c.client asset_ids (effects p (written ++ h.queue) false),
              h.gives,
            );
      }

  -- A frame that is no command.
  write-Serves :
      (frame : Frame) (c : Connection)
      → commands_of (frame ∷ []) ≡ []
      → Serves p c
      → Serves p (write frame c)
  write-Serves frame c e h = record {
    queue = h.queue;
    waiting = h.waiting;
    gives =
        ap (λ (cs : List SubscriptionCommand). effects p (cs ++ h.queue) false)
          (commands_of-append c.written (frame ∷ [])
            ∙ ap (λ (cs : List SubscriptionCommand). commands_of c.written ++ cs) e
            ∙ append-nil _)
        ∙ h.gives;
  }

  take-Serves :
      (c : Connection) (queue : List SubscriptionCommand)
      → c.client.control ≡ some queue
      → effects p (commands_of c.written ++ queue) false ≡ wants c.client p
      → Serves p (take_command (some queue) c).0
  take-Serves c [] e h = record { queue = []; waiting = e; gives = h }
  take-Serves c (first ∷ rest) e h = record {
    queue = rest;
    waiting = refl;
    gives =
        ap (λ (cs : List SubscriptionCommand). effects p (cs ++ rest) false)
          (commands_of-append c.written (subscription first ∷ []))
        ∙ ap (λ (cs : List SubscriptionCommand). effects p cs false)
            (append_assoc (commands_of c.written) (first ∷ []) rest)
        ∙ h;
  }

  drop-Agrees :
      (c : Connection) (queue : List SubscriptionCommand)
      → c.client.control ≡ some queue
      → effects p queue (wants c.client p) ≡ wants c.client p
      → Agrees p (drop_command (some queue) c).client
  drop-Agrees c [] e h = record { queue = []; waiting = e; keeps = h }
  drop-Agrees c (first ∷ rest) e h = record {
    queue = rest;
    waiting = refl;
    keeps = effects-keeps p rest (effect p first (wants c.client p)) (wants c.client p) h;
  }

  -- What a round leaves: subscriptions that come to what is wanted while the connection is up, and a
  -- queue that agrees with them afterwards.
  abbrev Left : Flow → Connection → Type 0
  Left again c = Serves p c
  Left finished c = Agrees p c.client
  Left (failed e) c = Agrees p c.client

  take_command-Left :
      (c : Connection) (o : Option (List SubscriptionCommand))
      → o ≡ c.client.control
      → Serves p c
      → let (c', open_queue) = take_command o c in Left (flow_of open_queue) c'
  take_command-Left c none e h = Serves-Agrees p c h
  take_command-Left c (some []) e h = h
  take_command-Left c (some (first ∷ rest)) e h =
      let same_queue : h.queue ≡ first ∷ rest = ground (arith, h.waiting, e) in
      take-Serves c (first ∷ rest) (sym e) (
        ap (λ (cs : List SubscriptionCommand). effects p (commands_of c.written ++ cs) false)
          (sym same_queue)
        ∙ h.gives)

  see_text-Serves :
      (decoder : MessageDecoder) (now_ms : ℕ) (raw : Text) (c : Connection)
      → Serves p c
      → Serves p (see_text decoder now_ms raw c)
  see_text-Serves decoder now_ms raw c h = elim (Bool-cases (same raw (text "PONG"))) [
    | inl e ↦ rw e (record { queue = h.queue; waiting = h.waiting; gives = h.gives })
    | inr e ↦ rw e (record { queue = h.queue; waiting = h.waiting; gives = h.gives })
  ]

  round-Left :
      (decoder : MessageDecoder) (r : Round) (c : Connection)
      → Serves p c
      → let (c', flow) = round decoder r c in Left flow c'
  unfolding round
  round-Left decoder command c h = take_command-Left c c.client.control refl h
  round-Left decoder (tick true) c h = Serves-Agrees p c h
  round-Left decoder (tick false) c h = write-Serves ping_text c refl h
  round-Left decoder (text_frame now_ms raw) c h = see_text-Serves decoder now_ms raw c h
  round-Left decoder (ping_frame payload) c h = write-Serves (pong payload) c refl h
  round-Left decoder close_frame c h = Serves-Agrees p c h
  round-Left decoder (read_failed e) c h = Serves-Agrees p c h
  round-Left decoder stream_ended c h = Serves-Agrees p c h
  round-Left decoder other_frame c h = h
  round-Left decoder shut_down c h = Serves-Agrees p (write close c) (write-Serves close c refl h)
  round-Left decoder (reconfigured asset_ids) c h = reconfigure-Serves c asset_ids h
  round-Left decoder (command_failed e) c h =
      let agrees = Serves-Agrees p c h in
      subst (λ (o : Option (List SubscriptionCommand)). Agrees p (drop_command o c).client)
        (sym agrees.waiting) (drop-Agrees c agrees.queue agrees.waiting agrees.keeps)
  round-Left decoder (write_failed e) c h = Serves-Agrees p c h

  onward-Left :
      (flow : Flow) (c : Connection) (rest : Connection × Flow)
      → Left flow c
      → (Serves p c → Left rest.1 rest.0)
      → let (c', flow') = onward flow c rest in Left flow' c'
  onward-Left again c rest h k = k h
  onward-Left finished c rest h k = h
  onward-Left (failed e) c rest h k = h

  rounds-Left :
      (decoder : MessageDecoder) (rs : List Round) (c : Connection)
      → Serves p c
      → let (c', flow) = rounds decoder rs c in Left flow c'
  unfolding rounds
  rounds-Left decoder [] c h = h
  rounds-Left decoder (r ∷ rs) c h =
      let (c', flow) = round decoder r c in
      onward-Left flow c' (rounds decoder rs c') (round-Left decoder r c h)
        (rounds-Left decoder rs c')

  connected-Serves :
      (client : WsClient) → Agrees p client → Serves p (connected client (initial_commands client))
  unfolding initial_commands
  connected-Serves client h = record {
    queue = h.queue;
    waiting = h.waiting;
    gives =
        ap (λ (cs : List SubscriptionCommand). effects p (cs ++ h.queue) false)
          (commands_of-map (initial_commands client))
        ∙ effects-append p (initial_commands client) h.queue false
        ∙ ground (
          arith,
          effects-plan p [] client.desired_asset_ids client.planner_config false,
          h.keeps,
          nowhere p,
        );
  }

  connect_and_run-Left :
      (decoder : MessageDecoder) (attempt : Attempt) (client : WsClient)
      → Agrees p client
      → let (c, flow) = connect_and_run decoder attempt client in Left flow c
  unfolding connect_and_run
  connect_and_run-Left decoder (refused e) client h = h
  connect_and_run-Left decoder (lost n e) client h = h
  connect_and_run-Left decoder (up rs) client h =
      rounds-Left decoder rs (connected client (initial_commands client))
        (connected-Serves client h)

  Left-Agrees : (flow : Flow) (c : Connection) → Left flow c → Agrees p c.client
  Left-Agrees again c h = Serves-Agrees p c h
  Left-Agrees finished c h = h
  Left-Agrees (failed e) c h = h

  leave-Agrees :
      (flow : Flow) (c : Connection) (r : Running)
      → Agrees p c.client
      → Agrees p (leave flow c r).client
  leave-Agrees again c r h = h
  leave-Agrees finished c r h = h
  leave-Agrees (failed e) c r h = h

  after_connection-Agrees :
      (session : Session) (r : Running)
      → Agrees p r.client
      → Agrees p (after_connection session r).client
  after_connection-Agrees session r h = elim (Bool-cases r.first_connect) [
    | inl e ↦ rw e (record { queue = h.queue; waiting = h.waiting; keeps = h.keeps })
    | inr e ↦ rw e (record { queue = h.queue; waiting = h.waiting; keeps = h.keeps })
  ]

  resume-Agrees :
      (flow : Flow) (stop : Bool) (r : Running) (rest : Running × Bool)
      → Agrees p r.client
      → Agrees p rest.0.client
      → Agrees p (resume flow stop r rest).0.client
  resume-Agrees again stop r rest h k = h
  resume-Agrees finished true r rest h k = h
  resume-Agrees finished false r rest h k = k
  resume-Agrees (failed e) true r rest h k = h
  resume-Agrees (failed e) false r rest h k = k

  run-Agrees :
      (decoder : MessageDecoder) (sessions : List Session) (r : Running)
      → Agrees p r.client
      → Agrees p (run decoder sessions r).0.client
  unfolding run
  run-Agrees decoder [] r h = h
  run-Agrees decoder (session ∷ sessions) r h =
      let (c, flow) = connect_and_run decoder session.attempt r.client in
      let left = leave flow c r in
      let kept =
        leave-Agrees flow c r
          (Left-Agrees flow c (connect_and_run-Left decoder session.attempt r.client h)) in
      let next = after_connection session left in
      let later = run-Agrees decoder sessions next (after_connection-Agrees session left kept) in
      elim (Bool-cases session.stop_before) [
        | inl e ↦ rw e h
        | inr e ↦
            rw e (resume-Agrees flow session.stop_after left (run decoder sessions next) kept later)
      ]

  drained :
      (c : Connection)
      → Serves p c
      → c.client.control ≡ some []
      → contains p (serve_all [] (commands_of c.written)) ≡ wants c.client p
  drained c h written =
      let none_left : h.queue ≡ [] = ground (arith, h.waiting, written) in
      let all = commands_of c.written in
      serve_all-effects p [] all
      ∙ ap (effects p all) (nowhere p)
      ∙ ap (λ (cs : List SubscriptionCommand). effects p cs false) (sym (append-nil all))
      ∙ ap (λ (cs : List SubscriptionCommand). effects p (all ++ cs) false) (sym none_left)
      ∙ h.gives

  -- Through any earlier connections, however they ended, lost commands, and changes of the assets at any
  -- time: on a connection that is up and whose queue is written, an asset is subscribed to if and only if
  -- the client's latest set of assets assigns it to the client's shard.
  pub run-subscribed :
      (decoder : MessageDecoder) (sessions : List Session) (client : WsClient) (rs : List Round)
      (c : Connection)
      → connect_and_run decoder (up rs) (run decoder sessions (start_running client)).0.client
        ≡ (c, again)
      → c.client.control ≡ some []
      → contains p (serve_all [] (commands_of c.written)) ≡ wants c.client p
  run-subscribed decoder sessions client rs c is_up written =
      let start : Agrees p (start_running client).client = record {
        queue = [];
        waiting = refl;
        keeps = refl;
      } in
      let before = run-Agrees decoder sessions (start_running client) start in
      let left = connect_and_run-Left decoder (up rs) _ before in
      let serves : Serves p c = subst (λ (x : Connection × Flow). Left x.1 x.0) is_up left in
      drained c serves written
