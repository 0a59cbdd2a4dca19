-- ===== src/Ws/Lost.antt =====
-- What one lost connection of crates/pm-data/src/ws.rs leaves to the loop.
use rtt.Prelude.{◌≡◌, refl, ◌∙◌, ap, Bool, true, false, not, ◌&&◌, List, [], ◌∷◌, ◌++◌, arith}
use rtt.Order.{text_ord}
use rtt.Ws.{
  WsClient, MessageDecoder, Connection, Flow, again, finished, failed, connect_and_run, Session,
  Running, after_connection, leave, resume, run,
}
use rtt.Ws.Reconnects.{ends, goes_on, connect_and_run-ends, connect_and_run-count}
use rtt.Ws.Backoff.{IsSane}

-- A connection that ends, with no shutdown before or after.
abbrev pub is_lost : Session → Bool
is_lost session = not session.stop_before && (not session.stop_after && ends session.attempt)

abbrev pub all_lost : List Session → Bool
all_lost [] = true
all_lost (session ∷ sessions) = is_lost session && all_lost sessions

module _ (decoder : MessageDecoder) where
  resume-lost :
      (flow : Flow) (r : Running) (rest : Running × Bool)
      → goes_on flow ≡ false
      → resume flow false r rest ≡ rest
  resume-lost again r rest h = cc
  resume-lost finished r rest h = refl
  resume-lost (failed e) r rest h = refl

  -- What is left after a lost connection.
  pub left_by : Session → Running → Running
  left_by session r =
      let (c, flow) = connect_and_run decoder session.attempt r.client in leave flow c r

  pub run-lost :
      (session : Session) (sessions : List Session) (r : Running)
      → is_lost session ≡ true
      → run decoder (session ∷ sessions) r
        ≡ run decoder sessions (after_connection session (left_by session r))
  unfolding run left_by
  run-lost session sessions r h =
      let (c, flow) = connect_and_run decoder session.attempt r.client in
      let left = leave flow c r in
      ground (
        arith,
        connect_and_run-ends decoder session.attempt r.client,
        resume-lost flow left (run decoder sessions (after_connection session left)),
      )

  leave-kept :
      (flow : Flow) (c : Connection) (r : Running)
      → IsSane r.backoff
      → let left = leave flow c r in
        IsSane left.backoff
        × (left.client ≡ c.client)
        × (left.slept ≡ r.slept)
        × (left.first_connect ≡ r.first_connect)
  leave-kept again c r h = (h, refl, refl, refl)
  leave-kept finished c r h = (
    record {
      base = h.base;
      cap = h.cap;
      jitter = h.jitter;
      above = omega (arith, h.base);
      below = omega (arith, h.base);
    },
    refl,
    refl,
    refl,
  )
  leave-kept (failed e) c r h = (h, refl, refl, refl)

  pub left_by-kept :
      (session : Session) (r : Running)
      → IsSane r.backoff
      → let left = left_by session r in
        IsSane left.backoff
        × (left.client.reconnect_count ≡ r.client.reconnect_count)
        × (left.slept ≡ r.slept)
        × (left.first_connect ≡ r.first_connect)
  unfolding left_by
  left_by-kept session r h =
      let (c, flow) = connect_and_run decoder session.attempt r.client in
      let (sane, client, slept, first) = leave-kept flow c r h in
      (
        sane,
        ap (λ (w : WsClient). w.reconnect_count) client
            ∙ connect_and_run-count decoder session.attempt r.client,
        slept,
        first,
      )

  pub left_by-published :
      (session : Session) (r : Running)
      → let c = (connect_and_run decoder session.attempt r.client).0 in
        let left = left_by session r in
        (left.client ≡ c.client) × (left.published ≡ r.published ++ c.published)
  unfolding left_by
  left_by-published session r =
      let (c, flow) = connect_and_run decoder session.attempt r.client in go flow c
    where
      go :
          (flow : Flow) (c : Connection)
          → let left = leave flow c r in
            (left.client ≡ c.client) × (left.published ≡ r.published ++ c.published)
      go again c = (refl, refl)
      go finished c = (refl, refl)
      go (failed e) c = (refl, refl)
