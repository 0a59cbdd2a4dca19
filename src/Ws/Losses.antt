-- ===== src/Ws/Losses.antt =====
-- How the loop of crates/pm-data/src/ws.rs counts and paces the losses of its connection.
use mathlib.Core.List.{append-nil}
use rtt.Prelude.{
  ℕ, suc, ◌+◌, ◌%◌, ◌^◌, ◌<◌, ◌≡◌, refl, ◌∙◌, ap, sym, subst, Bool, true, false, List, [], ◌∷◌,
  ◌++◌, append_assoc, length, length-append, All, All-append, arith,
}
use rtt.Order.{text_ord}
use rtt.Messages.{WsMessage, reconnected}
use rtt.Ws.{
  next_delay, WsClient, MessageDecoder, connect_and_run, Session, Running, start_running, announce,
  after_connection, run,
}
use rtt.Ws.Lost.{all_lost, left_by, run-lost, left_by-kept, left_by-published}
use rtt.Ws.Backoff.{IsSane, InRange, next_delay-IsSane}

module _ (decoder : MessageDecoder) where
  -- A loss that is announced moves the count on by one, and pauses once.
  pub record Counted (r : Running) (losses : ℕ) (r' : Running) : Type 0 where
    pub counted : r'.client.reconnect_count ≡ (r.client.reconnect_count + losses) % 2 ^ 64
    pub paused : length r'.slept ≡ length r.slept + losses
    pub paced : All InRange r'.slept

  announce-Counted :
      (session : Session) (r : Running)
      → IsSane r.backoff
      → All InRange r.slept
      → let r' = announce session.now_ms session.seed r in
        IsSane r'.backoff × Counted r 1 r' × (r'.first_connect ≡ r.first_connect)
  announce-Counted session r h paced =
      let (sane, range) = next_delay-IsSane session.seed r.backoff h in
      let delay = (next_delay session.seed r.backoff).1 in
      (
        sane,
        record {
          counted = refl;
          paused = length-append r.slept (delay ∷ []);
          paced = All-append InRange r.slept (delay ∷ []) paced (range, tt);
        },
        refl,
      )

  later_losses :
      (sessions : List Session) (r : Running)
      → all_lost sessions ≡ true
      → r.first_connect ≡ false
      → r.client.reconnect_count < 2 ^ 64
      → IsSane r.backoff
      → All InRange r.slept
      → let (r', stopped) = run decoder sessions r in
        Counted r (length sessions) r' × (stopped ≡ false)
  later_losses [] r all first small sane paced =
      let e : r.client.reconnect_count + 0 ≡ r.client.reconnect_count = omega arith in
      unfold run in (record { counted = grind arith; paused = omega arith; paced = paced }, refl)
  later_losses (session ∷ sessions) r all first small sane paced =
      let left = left_by decoder session r in
      let (sane', count, slept, first') = left_by-kept decoder session r sane in
      let paced' = subst (All InRange) (sym slept) paced in
      let (sane'', one, first'') = announce-Counted session left sane' paced' in
      let next = announce session.now_ms session.seed left in
      let goes : after_connection session left ≡ next = rw (first' ∙ first) refl in
      let rest =
        later_losses sessions next (ground (arith, all)) (first'' ∙ first' ∙ first)
          (omega (arith, one.counted)) sane'' one.paced in
      let e =
        run-lost decoder session sessions r (ground (arith, all))
        ∙ ap (run decoder sessions) goes in
      let counted : Counted r (suc (length sessions)) (run decoder sessions next).0 = record {
        counted = omega (arith, rest.0.counted, one.counted, count);
        paused = omega (arith, rest.0.paused, one.paused, ap length slept);
        paced = rest.0.paced;
      } in
      subst (λ (x : Running × Bool). Counted r (suc (length sessions)) x.0 × (x.1 ≡ false)) (sym e)
        (counted, rest.1)

  -- What the sessions publish from a client on, when each is a loss and the first of them has the number
  -- `n`: what its connection published, and then the announcement with its number, modulo 2^64, and time.
  abbrev pub announced : ℕ → List Session → WsClient → List WsMessage
  announced n [] client = []
  announced n (session ∷ sessions) client =
      let c = (connect_and_run decoder session.attempt client).0 in
      c.published
      ++ (reconnected (record { sequence = n % 2 ^ 64; timestamp_ms = session.now_ms })
          ∷ announced (suc n) sessions (record c.client { reconnect_count = n % 2 ^ 64 }))

  later_losses-published :
      (n : ℕ) (sessions : List Session) (r : Running)
      → all_lost sessions ≡ true
      → r.first_connect ≡ false
      → IsSane r.backoff
      → n % 2 ^ 64 ≡ (r.client.reconnect_count + 1) % 2 ^ 64
      → (run decoder sessions r).0.published ≡ r.published ++ announced n sessions r.client
  later_losses-published n [] r all first sane at = unfold run in sym (append-nil r.published)
  later_losses-published n (session ∷ sessions) r all first sane at =
      let c = (connect_and_run decoder session.attempt r.client).0 in
      let left = left_by decoder session r in
      let (sane', count, slept, first') = left_by-kept decoder session r sane in
      let (client, published) = left_by-published decoder session r in
      let next = announce session.now_ms session.seed left in
      let goes : after_connection session left ≡ next = rw (first' ∙ first) refl in
      let number : (left.client.reconnect_count + 1) % 2 ^ 64 ≡ n % 2 ^ 64 = rw (count, at) refl in
      let next_client : next.client ≡ record c.client { reconnect_count = n % 2 ^ 64 } =
        rw number (ap (λ (w : WsClient). record w { reconnect_count = n % 2 ^ 64 }) client) in
      let said : List WsMessage =
        reconnected (record { sequence = n % 2 ^ 64; timestamp_ms = session.now_ms }) ∷ [] in
      let next_published : next.published ≡ (r.published ++ c.published) ++ said =
        rw number (ap (λ (ms : List WsMessage). ms ++ said) published) in
      let sane'' = (next_delay-IsSane session.seed left.backoff sane').0 in
      let rest =
        later_losses-published (suc n) sessions next (ground (arith, all)) (first' ∙ first) sane''
          (omega (arith, number)) in
      let e =
        run-lost decoder session sessions r (ground (arith, all))
        ∙ ap (run decoder sessions) goes in
      ap (λ (x : Running × Bool). x.0.published) e
      ∙ rest
      ∙ rw (next_published, next_client) (append_assoc (r.published ++ c.published) said _)
      ∙ append_assoc r.published c.published _

  -- After a first lost connection and any further ones, with no shutdown and with a count below 2^64 at
  -- the start, the loop goes on. It has counted the further losses (modulo 2^64) and has paused as often,
  -- each time for between 1 s and 60.5 s. It has published what the first connection did, with no
  -- announcement of its loss, and then, for each further one in turn, what that connection did and after
  -- it the announcement of its loss, with its number and time.
  pub run-Counted :
      (client : WsClient) (session : Session) (sessions : List Session)
      → all_lost (session ∷ sessions) ≡ true
      → client.reconnect_count < 2 ^ 64
      → let (r', stopped) = run decoder (session ∷ sessions) (start_running client) in
        let first = (connect_and_run decoder session.attempt (start_running client).client).0 in
        Counted (start_running client) (length sessions) r'
        × (r'.published
            ≡ first.published ++ announced (client.reconnect_count + 1) sessions first.client)
        × (stopped ≡ false)
  run-Counted client session sessions all small =
      let start = start_running client in
      let sane : IsSane start.backoff = record {
        base = refl;
        cap = refl;
        jitter = refl;
        above = omega arith;
        below = omega arith;
      } in
      let n = client.reconnect_count + 1 in
      let c = (connect_and_run decoder session.attempt start.client).0 in
      let left = left_by decoder session start in
      let (sane', count, slept, first) = left_by-kept decoder session start sane in
      let (client_left, published) = left_by-published decoder session start in
      let next = record left { first_connect = false } in
      let goes : after_connection session left ≡ next = rw first refl in
      let all' : all_lost sessions ≡ true = ground (arith, all) in
      let rest =
        later_losses sessions next all' refl (omega (arith, count)) sane'
          (subst (All InRange) (sym slept) tt) in
      let e =
        run-lost decoder session sessions start (ground (arith, all))
        ∙ ap (run decoder sessions) goes in
      let counted : Counted start (length sessions) (run decoder sessions next).0 = record {
        counted = omega (arith, rest.0.counted, count);
        paused = omega (arith, rest.0.paused, ap length slept);
        paced = rest.0.paced;
      } in
      let said =
        later_losses-published n sessions next all' refl sane' (rw count refl)
        ∙ rw (published, client_left) refl in
      subst
        (λ (x : Running × Bool).
          Counted start (length sessions) x.0
          × (x.0.published ≡ c.published ++ announced n sessions c.client)
          × (x.1 ≡ false))
        (sym e) (counted, said, rest.1)
