-- ===== src/Ws.antt =====
-- crates/pm-data/src/ws.rs: the client of the market channel, its subscriptions, its connections and the
-- pauses between them. The socket, the clock and the decoding of JSON are parameters; what other threads
-- do while a connection is up (a new set of assets, a shutdown) is a round of its loop. Logs are left out.
pub mod Backoff
pub mod Reconnects
pub mod Lost
pub mod Losses
pub mod Commands
pub mod Subscribed
use rtt.Prelude.{
  ℕ, ◌+◌, ◌*◌, ◌%◌, ◌^◌, Bool, true, false, Option, none, some, List, [], ◌∷◌, ◌++◌, map, take, min,
  ltb, if◌then◌else◌, Result, ok, err,
}
use rtt.Order.{Text, text, text_ord, same}
use rtt.BTreeMap.{BTreeSet, keys}
use rtt.HotState.{trim, starts_with}
use rtt.Messages.{WsMessage, reconnected}
use rtt.Subscription.{
  SubscriptionCommand, SubscriptionPlannerConfig, plan_subscription_commands,
  assigned_asset_ids_for_config, set_of,
}

pub record BackoffState : Type 0 where
  pub current_ms : ℕ
  pub base_ms : ℕ
  pub cap_ms : ℕ
  pub jitter_ms : ℕ

abbrev pub new_backoff : BackoffState
new_backoff = record { current_ms = 1000; base_ms = 1000; cap_ms = 60_000; jitter_ms = 500 }

-- `rand_jitter`, with the nanoseconds of the clock as the seed.
abbrev pub rand_jitter : ℕ → ℕ → ℕ
rand_jitter seed max_ms = seed % (max_ms + 1)

unfoldable pub next_delay : ℕ → BackoffState → BackoffState × ℕ
next_delay seed backoff =
    let jitter = if ltb 0 backoff.jitter_ms then rand_jitter seed backoff.jitter_ms else 0 in
    (
      record backoff { current_ms = min (backoff.current_ms * 2 % 2 ^ 64) backoff.cap_ms },
      (backoff.current_ms + jitter) % 2 ^ 64,
    )

abbrev pub reset : BackoffState → BackoffState
reset backoff = record backoff { current_ms = backoff.base_ms }

-- `control` is the queue of commands for the running loop, if it runs.
pub record WsClient : Type 0 where
  pub desired_asset_ids : BTreeSet Text
  pub planner_config : SubscriptionPlannerConfig
  pub control : Option (List SubscriptionCommand)
  pub reconnect_count : ℕ
  pub last_message_at : ℕ
  pub issued_commands : List SubscriptionCommand

abbrev pub new_client : List Text → SubscriptionPlannerConfig → WsClient
new_client asset_ids planner_config = record {
  desired_asset_ids = set_of asset_ids;
  planner_config = planner_config;
  control = none;
  reconnect_count = 0;
  last_message_at = 0;
  issued_commands = [];
}

abbrev pub assigned_asset_ids : WsClient → List Text
assigned_asset_ids client =
    assigned_asset_ids_for_config client.desired_asset_ids client.planner_config

abbrev pub enqueue :
    List SubscriptionCommand → Option (List SubscriptionCommand) → Option (List SubscriptionCommand)
enqueue commands none = none
enqueue commands (some queue) = some (queue ++ commands)

-- Nothing is issued when there are no commands, and appending none changes nothing.
unfoldable pub reconfigure_assets : WsClient → List Text → WsClient × List SubscriptionCommand
reconfigure_assets client asset_ids =
    let current = set_of (assigned_asset_ids client) in
    let desired = set_of asset_ids in
    let commands = plan_subscription_commands current desired client.planner_config in
    (
      record client {
        desired_asset_ids = desired;
        issued_commands = client.issued_commands ++ commands;
        control = enqueue commands client.control;
      },
      commands,
    )

-- What is written to the socket.
pub data Frame : Type 0 where
  subscription : SubscriptionCommand → Frame
  ping_text : Frame
  pong : Text → Frame
  close : Frame

-- One round of the loop of `connect_and_run`. `command` is a command of the queue taken, `tick` the ping
-- timer with the shutdown flag, and a write that failed carries its error, after a command was taken or not.
pub data Round : Type 0 where
  command : Round
  tick : Bool → Round
  text_frame : ℕ → Text → Round
  ping_frame : Text → Round
  close_frame : Round
  read_failed : Text → Round
  stream_ended : Round
  other_frame : Round
  shut_down : Round
  reconfigured : List Text → Round
  command_failed : Text → Round
  write_failed : Text → Round

-- `serde_json`: a message, or an array of them.
pub record MessageDecoder : Type 0 where
  pub parse_many : Text → Result Text (List WsMessage)
  pub parse_one : Text → Result Text WsMessage

abbrev pub or_none {ℓ} : {E A : Type ℓ} → Result E (List A) → List A
or_none (ok messages) = messages
or_none (err e) = []

abbrev pub one_or_none {ℓ} : {E A : Type ℓ} → Result E A → List A
one_or_none (ok message) = message ∷ []
one_or_none (err e) = []

unfoldable pub parse_and_send : MessageDecoder → Text → List WsMessage
parse_and_send decoder raw =
    let trimmed = trim raw in
    if starts_with b'[' trimmed
    then or_none (decoder.parse_many trimmed)
    else if starts_with b'{' trimmed
    then one_or_none (decoder.parse_one trimmed)
    else []

-- A connection in its loop: the client, the frames written and the messages published, both in their
-- order.
pub record Connection : Type 0 where
  pub client : WsClient
  pub written : List Frame
  pub published : List WsMessage

abbrev pub write : Frame → Connection → Connection
write frame c = record c { written = c.written ++ frame ∷ [] }

abbrev pub take_command : Option (List SubscriptionCommand) → Connection → Connection × Bool
take_command none c = (c, false)
take_command (some []) c = (c, true)
take_command (some (first ∷ rest)) c =
    let client = c.client in
    (write (subscription first) (record c { client = record client { control = some rest } }), true)

-- The command that could not be written is gone from the queue.
abbrev pub drop_command : Option (List SubscriptionCommand) → Connection → Connection
drop_command (some (first ∷ rest)) c =
    let client = c.client in record c { client = record client { control = some rest } }
drop_command _ c = c

abbrev pub see_text : MessageDecoder → ℕ → Text → Connection → Connection
see_text decoder now_ms raw c =
    let client = c.client in
    let seen : Connection = record c { client = record client { last_message_at = now_ms } } in
    if same raw (text "PONG")
    then seen
    else record seen { published = c.published ++ parse_and_send decoder raw }

-- Whether the loop goes on, ends cleanly or fails.
pub data Flow : Type 0 where
  again : Flow
  finished : Flow
  failed : Text → Flow

abbrev pub flow_of : Bool → Flow
flow_of true = again
flow_of false = finished

unfoldable pub round : MessageDecoder → Round → Connection → Connection × Flow
round decoder command c =
    let (c', open_queue) = take_command c.client.control c in (c', flow_of open_queue)
round decoder (tick true) c = (c, finished)
round decoder (tick false) c = (write ping_text c, again)
round decoder (text_frame now_ms raw) c = (see_text decoder now_ms raw c, again)
round decoder (ping_frame payload) c = (write (pong payload) c, again)
round decoder close_frame c = (c, finished)
round decoder (read_failed e) c = (c, failed e)
round decoder stream_ended c = (c, finished)
round decoder other_frame c = (c, again)
round decoder shut_down c = (write close c, finished)
round decoder (reconfigured asset_ids) c =
    (record c { client = (reconfigure_assets c.client asset_ids).0 }, again)
round decoder (command_failed e) c = (drop_command c.client.control c, failed e)
round decoder (write_failed e) c = (c, failed e)

-- `rest` is what the later rounds make of the connection.
abbrev pub onward : Flow → Connection → Connection × Flow → Connection × Flow
onward again c rest = rest
onward finished c rest = (c, finished)
onward (failed e) c rest = (c, failed e)

-- The loop; a list that ends leaves the connection up.
unfoldable pub rounds : MessageDecoder → List Round → Connection → Connection × Flow
rounds decoder [] c = (c, again)
rounds decoder (r ∷ rs) c =
    let (c', flow) = round decoder r c in let rest = rounds decoder rs c' in onward flow c' rest

-- The commands of a new connection.
unfoldable pub initial_commands : WsClient → List SubscriptionCommand
initial_commands client =
    plan_subscription_commands [] client.desired_asset_ids client.planner_config

-- What `connect_and_run` meets: a connection that is refused, one that is lost after some of the initial
-- commands, or one that is up, with its rounds after them.
pub data Attempt : Type 0 where
  refused : Text → Attempt
  lost : ℕ → Text → Attempt
  up : List Round → Attempt

abbrev pub connected : WsClient → List SubscriptionCommand → Connection
connected client commands = record {
  client = client;
  written = map subscription commands;
  published = [];
}

unfoldable pub connect_and_run : MessageDecoder → Attempt → WsClient → Connection × Flow
connect_and_run decoder (refused e) client = (connected client [], failed e)
connect_and_run decoder (lost n e) client =
    (connected client (take n (initial_commands client)), failed e)
connect_and_run decoder (up rs) client =
    rounds decoder rs (connected client (initial_commands client))

-- One round of the loop of `run`: the shutdown flag before and after the connection, the clock and the
-- seed of the jitter.
pub record Session : Type 0 where
  pub stop_before : Bool
  pub attempt : Attempt
  pub stop_after : Bool
  pub now_ms : ℕ
  pub seed : ℕ

-- The loop of `run`: what it has published and slept, in their order.
pub record Running : Type 0 where
  pub client : WsClient
  pub backoff : BackoffState
  pub first_connect : Bool
  pub published : List WsMessage
  pub slept : List ℕ

abbrev pub start_running : WsClient → Running
start_running client = record {
  client = record client { control = some [] };
  backoff = new_backoff;
  first_connect = true;
  published = [];
  slept = [];
}

-- The signal that the connection was lost, and the pause before the next one.
abbrev pub announce : ℕ → ℕ → Running → Running
announce now_ms seed r =
    let client = r.client in
    let count = (client.reconnect_count + 1) % 2 ^ 64 in
    let (backoff, delay) = next_delay seed r.backoff in
    record r {
      client = record client { reconnect_count = count };
      backoff = backoff;
      published =
          r.published ++ reconnected (record { sequence = count; timestamp_ms = now_ms }) ∷ [];
      slept = r.slept ++ delay ∷ [];
    }

abbrev pub after_connection : Session → Running → Running
after_connection session r =
    if r.first_connect
    then record r { first_connect = false }
    else announce session.now_ms session.seed r

-- What the connection leaves: a clean end resets the backoff.
abbrev pub leave : Flow → Connection → Running → Running
leave finished c r = record r {
  client = c.client;
  published = r.published ++ c.published;
  backoff = reset r.backoff;
}
leave _ c r = record r { client = c.client; published = r.published ++ c.published }

-- A connection that is still up leaves the loop in it; `rest` is what the later sessions make of it.
abbrev pub resume : Flow → Bool → Running → Running × Bool → Running × Bool
resume again stop r rest = (r, false)
resume finished stop r rest = if stop then (r, true) else rest
resume (failed e) stop r rest = if stop then (r, true) else rest

-- Over the sessions of the loop, with whether it has stopped. A list that ends leaves it running.
unfoldable pub run : MessageDecoder → List Session → Running → Running × Bool
run decoder [] r = (r, false)
run decoder (session ∷ sessions) r =
    let (c, flow) = connect_and_run decoder session.attempt r.client in
    let left = leave flow c r in
    let rest = run decoder sessions (after_connection session left) in
    if session.stop_before then (r, true) else resume flow session.stop_after left rest
