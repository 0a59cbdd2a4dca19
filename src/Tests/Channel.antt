-- ===== src/Tests/Channel.antt =====
-- Runs and witnesses for crates/pm-data/src/feed.rs, types.rs, reference_store.rs and ws.rs.
use rtt.Prelude.{
  ◌++◌, ◌≡◌, refl, true, false, none, some, List, [], ◌∷◌, length, if◌then◌else◌, ok, err, arith,
}
use rtt.Order.{text, text_ord}
use rtt.BTreeMap.{contains, lookup, keys}
use rtt.Trigger.{buy}
use rtt.OrderBook.{BookUpdate, PriceChangeBatchEntry, get_snapshot}
use rtt.Messages.{WsMessage, book, price_change}
use rtt.Events.{asset_ref}
use rtt.ReferenceStore.{resolve_subject}
use rtt.Subscription.{SubscriptionPlannerConfig}
use rtt.Subscription.Served.{serve_all}
use rtt.Ws.{
  WsClient, new_client, Round, command, text_frame, close_frame, stream_ended, reconfigured,
  MessageDecoder, Connection, again, refused, up, connect_and_run, Session, start_running, run,
}
use rtt.Ws.Commands.{commands_of, wants}
use rtt.Ws.Subscribed.{run-subscribed}
use rtt.Ws.Losses.{Counted, announced, run-Counted}
use rtt.Feed.{PolymarketFeedManager, with_subscription_planner, process_all, reconfigure_feed}
use rtt.Feed.Books.{direct_all, process_all-direct}
use rtt.Feed.Sends.{view_of}
use rtt.Feed.Rounds.{process_all-view}
use rtt.Feed.Reconfigure.{serves, would_serve, drops, reconfigure_feed-serves}

abbrev planner : SubscriptionPlannerConfig
planner = record { max_batch_size = 64; pacing_ms = 0; shard_count = 1; shard_index = 0 }

abbrev full_book : BookUpdate
full_book = record {
  asset_id = text "a";
  market = text "m";
  timestamp = text "1000";
  bids = record { price = text "0.50"; size = text "10" } ∷ [];
  asks = record { price = text "0.52"; size = text "7" } ∷ [];
  hash = some (text "h1");
}

abbrev bid_gone : PriceChangeBatchEntry
bid_gone = record {
  asset_id = text "a";
  price = text "0.50";
  size = none;
  side = buy;
  hash = none;
  best_bid = none;
  best_ask = none;
}

abbrev messages : List WsMessage
messages =
    book full_book
    ∷ price_change
        (record { market = text "m"; timestamp = text "1001"; price_changes = bid_gone ∷ [] })
    ∷ []

abbrev feed : PolymarketFeedManager
feed = with_subscription_planner (text "s") (text "a" ∷ text "b" ∷ []) planner

abbrev busy_feed : PolymarketFeedManager
busy_feed = (process_all feed messages).0

process_all-direct_example :
    (process_all feed messages).0.stores.order_books ≡ direct_all messages feed.stores.order_books
process_all-direct_example = process_all-direct feed messages

process_all-view_example :
    let (manager, sends) =
      process_all (with_subscription_planner (text "s") (text "a" ∷ []) planner) messages in
    view_of (text "a") sends none ≡ get_snapshot manager.stores.order_books (text "a")
process_all-view_example = process_all-view (text "s") (text "a" ∷ []) planner messages (text "a")

reconfigure_feed-serves_example :
    let manager' = (reconfigure_feed busy_feed (text "b" ∷ [])).0 in
    let gone = drops busy_feed (text "b" ∷ []) (text "a") in
    (serves manager' (text "a") ≡ would_serve busy_feed (text "b" ∷ []) (text "a"))
    × (lookup (text "a") manager'.stores.order_books
        ≡ (if gone then none else lookup (text "a") busy_feed.stores.order_books))
    × (resolve_subject manager'.stores.reference_store (asset_ref busy_feed.source_id (text "a"))
        ≡ (if gone
            then none
            else resolve_subject busy_feed.stores.reference_store
                (asset_ref busy_feed.source_id (text "a"))))
reconfigure_feed-serves_example = reconfigure_feed-serves busy_feed (text "b" ∷ []) (text "a")

-- A stand-in for serde_json: every object is the same message.
abbrev decoder : MessageDecoder
decoder = record { parse_many = λ raw. err raw; parse_one = λ raw. ok (book full_book) }

abbrev session : Session
session = record {
  stop_before = false;
  attempt = refused (text "no route");
  stop_after = false;
  now_ms = 5;
  seed = 7;
}

abbrev changed_session : Session
changed_session = record session {
  attempt = up (reconfigured (text "a" ∷ text "c" ∷ []) ∷ stream_ended ∷ []);
}

abbrev client : WsClient
client = new_client (text "a" ∷ text "b" ∷ []) planner

run-Counted_example :
    let (r', stopped) =
      run decoder (session ∷ changed_session ∷ session ∷ []) (start_running client) in
    let first = (connect_and_run decoder session.attempt (start_running client).client).0 in
    Counted decoder (start_running client) (length (changed_session ∷ session ∷ [])) r'
    × (r'.published
        ≡ first.published ++ announced decoder 1 (changed_session ∷ session ∷ []) first.client)
    × (stopped ≡ false)
run-Counted_example =
    run-Counted decoder client session (changed_session ∷ session ∷ []) refl (omega arith)

-- The assets change while the connection is up, it is lost with the commands still waiting, and the next
-- one writes them after its own.
abbrev drain : List Round
drain = command ∷ command ∷ []

abbrev connection : Connection
connection =
    (connect_and_run decoder (up drain)
      (run decoder (changed_session ∷ []) (start_running client)).0.client).0

is_up :
    connect_and_run decoder
      (up drain)
      (run decoder (changed_session ∷ []) (start_running client)).0.client
    ≡ (connection, again)
unfolding connect_and_run run rtt.Ws.rounds rtt.Ws.round rtt.Ws.reconfigure_assets
    rtt.Subscription.plan_subscription_commands rtt.Subscription.append_batched_commands
    rtt.Subscription.push_batches rtt.Subscription.chunks rtt.Subscription.batches
    rtt.Subscription.plan_subscription_diff rtt.BTreeMap.collect
    rtt.Subscription.assigned_asset_ids_for_config rtt.Subscription.assign_subscription_shards
    rtt.Subscription.deal text_ord contains
is_up = refl

is_drained : connection.client.control ≡ some []
unfolding connect_and_run run rtt.Ws.rounds rtt.Ws.round rtt.Ws.reconfigure_assets
    rtt.Subscription.plan_subscription_commands rtt.Subscription.append_batched_commands
    rtt.Subscription.push_batches rtt.Subscription.chunks rtt.Subscription.batches
    rtt.Subscription.plan_subscription_diff rtt.BTreeMap.collect
    rtt.Subscription.assigned_asset_ids_for_config rtt.Subscription.assign_subscription_shards
    rtt.Subscription.deal text_ord contains
is_drained = refl

run-subscribed_example :
    contains (text "c") (serve_all [] (commands_of connection.written))
    ≡ wants connection.client (text "c")
run-subscribed_example =
    run-subscribed (text "c") decoder (changed_session ∷ []) client drain connection is_up
      is_drained

c_wanted : wants connection.client (text "c") ≡ true
unfolding connect_and_run run rtt.Ws.rounds rtt.Ws.round rtt.Ws.reconfigure_assets
    rtt.Subscription.plan_subscription_commands rtt.Subscription.append_batched_commands
    rtt.Subscription.push_batches rtt.Subscription.chunks rtt.Subscription.batches
    rtt.Subscription.plan_subscription_diff rtt.BTreeMap.collect
    rtt.Subscription.assigned_asset_ids_for_config rtt.Subscription.assign_subscription_shards
    rtt.Subscription.deal text_ord contains
c_wanted = refl
