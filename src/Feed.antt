-- ===== src/Feed.antt =====
-- crates/pm-data/src/feed.rs: the stores that a feed keeps and what it sends on. What is sent on the
-- three broadcast channels is one list, in the order of the calls; receivers that lag are left out.
pub mod Books
pub mod Sends
pub mod Rounds
pub mod Reconfigure
use rtt.Prelude.{
  ℕ, suc, Bool, true, false, ◌&&◌, Option, none, some, List, [], ◌∷◌, ◌++◌, map, length, map_some,
  if◌then◌else◌,
}
use rtt.Order.{Text, text_ord, same}
use rtt.Decimal.{to_decimal}
use rtt.Trigger.{OrderBookSnapshot}
use rtt.BTreeMap.{BTreeSet, keys}
use rtt.Events.{
  SourceKind, polymarket_ws, asset, InstrumentRef, UpdateKind, book_snapshot, book_delta,
  UpdateNotice, BookSnapshotUpdate, BookDeltaUpdate, NormalizedUpdatePayload, of_book_snapshot,
  of_book_delta, of_best_bid_ask, of_trade_tick, of_reference_price, of_tick_size_change,
  of_reconnect, of_source_status, NormalizedUpdate,
}
use rtt.Messages.{WsMessage, to_normalized_updates}
use rtt.OrderBook.{
  BookUpdate, PriceChangeBatchEntry, OrderBookManager, apply_book_update, apply_price_change,
  get_snapshot, clear_all, clear_asset,
}
use rtt.ReferenceStore.{
  ReferenceState, ReferenceStore, apply_reference, resolve_subject, clear_reference_source,
  clear_instrument,
}
use rtt.Subscription.{
  SubscriptionPlannerConfig, plan_subscription_diff, assigned_asset_ids_for_config, set_of,
}
use rtt.Ws.{WsClient, new_client, reconfigure_assets}

pub data ResolvedFeedState : Type 0 where
  order_book : OrderBookSnapshot → ResolvedFeedState
  reference : ReferenceState → ResolvedFeedState

pub record FeedStores : Type 0 where
  pub order_books : OrderBookManager
  pub reference_store : ReferenceStore

abbrev is_book : UpdateKind → Bool
is_book book_snapshot = true
is_book book_delta = true
is_book _ = false

unfoldable pub resolve_feed_notice : FeedStores → UpdateNotice → Option ResolvedFeedState
resolve_feed_notice stores notice =
    if is_book notice.kind
    then map_some order_book (get_snapshot stores.order_books notice.subject.instrument_id)
    else map_some reference (resolve_subject stores.reference_store notice.subject)

abbrev pub clear_feed_source : FeedStores → Text → FeedStores
clear_feed_source stores source_id = record {
  order_books = clear_all stores.order_books;
  reference_store = clear_reference_source stores.reference_store source_id;
}

unfoldable pub clear_feed_asset : FeedStores → Text → Text → FeedStores
clear_feed_asset stores source_id asset_id = record {
  order_books = clear_asset stores.order_books asset_id;
  reference_store = clear_instrument stores.reference_store source_id asset asset_id;
}

abbrev pub book_update_of : BookSnapshotUpdate → BookUpdate
book_update_of snapshot = record {
  asset_id = snapshot.asset_id;
  market = snapshot.market_id;
  timestamp = to_decimal snapshot.timestamp_ms;
  bids = snapshot.bids;
  asks = snapshot.asks;
  hash = snapshot.source_hash;
}

abbrev pub entry_of : BookDeltaUpdate → PriceChangeBatchEntry
entry_of delta = record {
  asset_id = delta.asset_id;
  price = delta.price;
  size = some delta.size;
  side = delta.side;
  hash = delta.source_hash;
  best_bid = delta.best_bid;
  best_ask = delta.best_ask;
}

abbrev pub refer : FeedStores → NormalizedUpdate → FeedStores
refer stores update = record stores {
  reference_store = apply_reference stores.reference_store update;
}

abbrev pub apply_payload : NormalizedUpdatePayload → FeedStores → NormalizedUpdate → FeedStores
apply_payload (of_book_snapshot snapshot) stores update = record stores {
  order_books = apply_book_update stores.order_books (book_update_of snapshot);
}
apply_payload (of_book_delta delta) stores update = record stores {
  order_books = apply_price_change stores.order_books (entry_of delta) delta.timestamp_ms;
}
apply_payload (of_reconnect again) stores update =
    refer (record stores { order_books = clear_all stores.order_books }) update
apply_payload (of_best_bid_ask best) stores update = refer stores update
apply_payload (of_trade_tick trade) stores update = refer stores update
apply_payload (of_reference_price price) stores update = refer stores update
apply_payload (of_tick_size_change change) stores update = refer stores update
apply_payload (of_source_status status) stores update = refer stores update

unfoldable pub apply_update_to_stores : FeedStores → NormalizedUpdate → FeedStores
apply_update_to_stores stores update = apply_payload update.payload stores update

abbrev pub payload_snapshot : NormalizedUpdatePayload → FeedStores → Option OrderBookSnapshot
payload_snapshot (of_book_snapshot snapshot) stores =
    get_snapshot stores.order_books snapshot.asset_id
payload_snapshot (of_book_delta delta) stores = get_snapshot stores.order_books delta.asset_id
payload_snapshot _ stores = none

abbrev pub snapshot_from_update : FeedStores → NormalizedUpdate → Option OrderBookSnapshot
snapshot_from_update stores update = payload_snapshot update.payload stores

-- What goes out, by its channel.
pub data Sent : Type 0 where
  sent_update : NormalizedUpdate → Sent
  sent_notice : UpdateNotice → Sent
  sent_snapshot : OrderBookSnapshot → Sent

abbrev pub snapshot_sends : Option OrderBookSnapshot → List Sent
snapshot_sends none = []
snapshot_sends (some snapshot) = sent_snapshot snapshot ∷ []

-- The loop over the updates of a message.
unfoldable pub process_updates : List NormalizedUpdate → FeedStores → FeedStores × List Sent
process_updates [] stores = (stores, [])
process_updates (update ∷ updates) stores =
    let stores' = apply_update_to_stores stores update in
    let (last, sends) = process_updates updates stores' in
    (
      last,
      sent_update update
            ∷ sent_notice update.notice
            ∷ snapshot_sends (snapshot_from_update stores' update)
          ++ sends,
    )

-- An adapter is its `normalize`.
unfoldable pub process_adapter_message :
    {Message : Type 0}
    → (Message → List NormalizedUpdate)
    → Message
    → FeedStores
    → (FeedStores × List Sent) × ℕ
process_adapter_message normalize message stores =
    let updates = normalize message in (process_updates updates stores, length updates)

abbrev pub scoped : Text → InstrumentRef → InstrumentRef
scoped source_id subject = record subject { source_id = source_id }

abbrev pub scope_update_to_source : Text → SourceKind → NormalizedUpdate → NormalizedUpdate
scope_update_to_source source_id source_kind update =
    let notice = update.notice in
    record update {
      notice = record notice {
        source_id = source_id;
        source_kind = source_kind;
        subject = scoped source_id notice.subject;
      };
    }

-- The adapter of a Polymarket source.
unfoldable pub normalize : Text → WsMessage → List NormalizedUpdate
normalize source_id message =
    map (scope_update_to_source source_id polymarket_ws) (to_normalized_updates message)

-- The manager of one feed.
pub record PolymarketFeedManager : Type 0 where
  pub source_id : Text
  pub asset_ids : List Text
  pub subscription_planner : SubscriptionPlannerConfig
  pub ws_client : WsClient
  pub stores : FeedStores

unfoldable pub with_subscription_planner :
    Text → List Text → SubscriptionPlannerConfig → PolymarketFeedManager
with_subscription_planner source_id asset_ids planner =
    let desired = set_of asset_ids in
    record {
      source_id = source_id;
      asset_ids = assigned_asset_ids_for_config desired planner;
      subscription_planner = planner;
      ws_client = new_client (keys desired) planner;
      stores = record { order_books = []; reference_store = [] };
    }

unfoldable pub process_message :
    PolymarketFeedManager → WsMessage → (PolymarketFeedManager × List Sent) × ℕ
process_message manager message =
    let ((stores, sends), count) =
      process_adapter_message (normalize manager.source_id) message manager.stores in
    ((record manager { stores = stores }, sends), count)

-- `==` of sets, by their keys.
unfoldable pub same_keys : List Text → List Text → Bool
same_keys [] [] = true
same_keys (a ∷ as') (b ∷ bs) = same a b && same_keys as' bs
same_keys _ _ = false

abbrev pub clear_removed : Text → List Text → FeedStores → FeedStores
clear_removed source_id [] stores = stores
clear_removed source_id (asset_id ∷ asset_ids) stores =
    clear_removed source_id asset_ids (clear_feed_asset stores source_id asset_id)

unfoldable pub reconfigure_feed : PolymarketFeedManager → List Text → PolymarketFeedManager × Bool
reconfigure_feed manager asset_ids =
    let desired = set_of asset_ids in
    let current = set_of manager.asset_ids in
    let next_ids = assigned_asset_ids_for_config desired manager.subscription_planner in
    let next = set_of next_ids in
    let diff = plan_subscription_diff current next in
    let (client, commands) = reconfigure_assets manager.ws_client (keys desired) in
    if same_keys (keys current) (keys next) then (manager, false) else (
      record manager {
        asset_ids = next_ids;
        ws_client = client;
        stores = clear_removed manager.source_id diff.removes manager.stores;
      },
      true,
    )

-- `run`: the messages that the client published, in turn.
unfoldable pub process_all :
    PolymarketFeedManager → List WsMessage → PolymarketFeedManager × List Sent
process_all manager [] = (manager, [])
process_all manager (message ∷ messages) =
    let ((manager', sends), _) = process_message manager message in
    let (last, rest) = process_all manager' messages in (last, sends ++ rest)
