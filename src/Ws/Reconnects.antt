-- ===== src/Ws/Reconnects.antt =====
-- When a connection of crates/pm-data/src/ws.rs ends, and that its rounds leave the count of losses alone.
use rtt.Prelude.{
  ℕ, ◌≡◌, refl, ◌∙◌, Bool, true, false, ◌&&◌, Option, none, some, List, [], ◌∷◌, any, arith,
}
use rtt.Order.{text_ord}
use rtt.Subscription.{SubscriptionCommand}
use rtt.Ws.{
  WsClient, MessageDecoder, Connection, Flow, again, finished, failed, onward, Round, command, tick,
  text_frame, ping_frame, close_frame, read_failed, stream_ended, other_frame, shut_down,
  reconfigured, command_failed, write_failed, take_command, drop_command, round, rounds,
  reconfigure_assets, Attempt, refused, lost, up, connected, connect_and_run, initial_commands,
}

-- A round that ends the connection whatever came before.
abbrev pub ends_round : Round → Bool
ends_round (tick stop) = stop
ends_round close_frame = true
ends_round (read_failed e) = true
ends_round stream_ended = true
ends_round shut_down = true
ends_round (command_failed e) = true
ends_round (write_failed e) = true
ends_round command = false
ends_round (text_frame now_ms raw) = false
ends_round (ping_frame payload) = false
ends_round other_frame = false
ends_round (reconfigured asset_ids) = false

abbrev pub ends : Attempt → Bool
ends (refused e) = true
ends (lost n e) = true
ends (up rs) = any ends_round rs

abbrev pub goes_on : Flow → Bool
goes_on again = true
goes_on finished = false
goes_on (failed e) = false

onward-goes_on :
    (flow : Flow) (c : Connection) (rest : Connection × Flow)
    → goes_on (onward flow c rest).1 ≡ goes_on flow && goes_on rest.1
onward-goes_on again c rest = refl
onward-goes_on finished c rest = refl
onward-goes_on (failed e) c rest = refl

module _ (decoder : MessageDecoder) where
  round-ends :
      (r : Round) (c : Connection) → ends_round r ≡ true → goes_on (round decoder r c).1 ≡ false
  unfolding round
  round-ends command c h = cc
  round-ends (tick true) c h = refl
  round-ends (tick false) c h = cc
  round-ends (text_frame now_ms raw) c h = cc
  round-ends (ping_frame payload) c h = cc
  round-ends close_frame c h = refl
  round-ends (read_failed e) c h = refl
  round-ends stream_ended c h = refl
  round-ends other_frame c h = cc
  round-ends shut_down c h = refl
  round-ends (reconfigured asset_ids) c h = cc
  round-ends (command_failed e) c h = refl
  round-ends (write_failed e) c h = refl

  rounds-ends :
      (rs : List Round) (c : Connection)
      → any ends_round rs ≡ true
      → goes_on (rounds decoder rs c).1 ≡ false
  unfolding rounds
  rounds-ends [] c h = cc
  rounds-ends (r ∷ rs) c h =
      let (c', flow) = round decoder r c in
      ground
        (arith, onward-goes_on flow c' (rounds decoder rs c'), round-ends r c, rounds-ends rs c')

  pub connect_and_run-ends :
      (attempt : Attempt) (client : WsClient)
      → ends attempt ≡ true
      → goes_on (connect_and_run decoder attempt client).1 ≡ false
  unfolding connect_and_run
  connect_and_run-ends (refused e) client h = refl
  connect_and_run-ends (lost n e) client h = refl
  connect_and_run-ends (up rs) client h = rounds-ends rs _ h

  -- The count of losses is the loop's own.
  take_command-count :
      (o : Option (List SubscriptionCommand)) (c : Connection)
      → (take_command o c).0.client.reconnect_count ≡ c.client.reconnect_count
  take_command-count none c = refl
  take_command-count (some []) c = refl
  take_command-count (some (first ∷ rest)) c = refl

  drop_command-count :
      (o : Option (List SubscriptionCommand)) (c : Connection)
      → (drop_command o c).client.reconnect_count ≡ c.client.reconnect_count
  drop_command-count none c = refl
  drop_command-count (some []) c = refl
  drop_command-count (some (first ∷ rest)) c = refl

  round-count :
      (r : Round) (c : Connection)
      → (round decoder r c).0.client.reconnect_count ≡ c.client.reconnect_count
  unfolding round reconfigure_assets
  round-count command c = take_command-count c.client.control c
  round-count (text_frame now_ms raw) c = ground arith
  round-count (command_failed e) c = drop_command-count c.client.control c
  round-count (tick true) c = refl
  round-count (tick false) c = refl
  round-count (ping_frame payload) c = refl
  round-count close_frame c = refl
  round-count (read_failed e) c = refl
  round-count stream_ended c = refl
  round-count other_frame c = refl
  round-count shut_down c = refl
  round-count (reconfigured asset_ids) c = refl
  round-count (write_failed e) c = refl

  onward-count :
      (flow : Flow) (c : Connection) (rest : Connection × Flow) (n : ℕ)
      → c.client.reconnect_count ≡ n
      → rest.0.client.reconnect_count ≡ n
      → (onward flow c rest).0.client.reconnect_count ≡ n
  onward-count again c rest n h k = k
  onward-count finished c rest n h k = h
  onward-count (failed e) c rest n h k = h

  rounds-count :
      (rs : List Round) (c : Connection)
      → (rounds decoder rs c).0.client.reconnect_count ≡ c.client.reconnect_count
  unfolding rounds
  rounds-count [] c = refl
  rounds-count (r ∷ rs) c =
      let (c', flow) = round decoder r c in
      onward-count flow c' (rounds decoder rs c') c.client.reconnect_count (round-count r c)
        (rounds-count rs c' ∙ round-count r c)

  pub connect_and_run-count :
      (attempt : Attempt) (client : WsClient)
      → (connect_and_run decoder attempt client).0.client.reconnect_count ≡ client.reconnect_count
  unfolding connect_and_run
  connect_and_run-count (refused e) client = refl
  connect_and_run-count (lost n e) client = refl
  connect_and_run-count (up rs) client =
      rounds-count rs (connected client (initial_commands client))
