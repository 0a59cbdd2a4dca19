-- ===== src/Feed/Rounds.antt =====
-- A receiver of the channels of crates/pm-data/src/feed.rs follows the books.
use rtt.Prelude.{
  ℕ, ◌≡◌, refl, sym, subst, ◌∙◌, ap, All, false, none, List, [], ◌∷◌, map, arith, if◌then◌else◌,
}
use rtt.Order.{Text, text_ord, same_self}
use rtt.BTreeMap.{lookup}
use rtt.Trigger.{Side, buy, sell}
use rtt.Events.{
  polymarket_ws, UpdateNotice, NormalizedUpdate, NormalizedUpdatePayload, kind_of, of_book_snapshot,
  of_book_delta, of_best_bid_ask, of_trade_tick, of_reference_price, of_tick_size_change,
  of_reconnect, of_source_status,
}
use rtt.OrderBook.{
  PriceChangeBatchEntry, BookState, upsert_side, OrderBookManager, to_snapshot, update_book,
  apply_book_update, apply_price_change, apply_snapshot, apply_delta, get_snapshot,
}
use rtt.Messages.{
  WsMessage, book, price_change, last_trade_price, tick_size_changed, best_prices, reconnected,
  parse_timestamp_ms, delta_update, to_normalized_updates,
}
use rtt.Subscription.{SubscriptionPlannerConfig}
use rtt.Feed.{
  PolymarketFeedManager, with_subscription_planner, process_message, process_all,
  process_adapter_message, normalize, scope_update_to_source, FeedStores, Sent, sent_update,
  sent_notice, snapshot_sends, snapshot_from_update, apply_update_to_stores, process_updates,
}
use rtt.Feed.Sends.{
  is_reconnect, view_of, view_of-append, Keyed, SameName, updated-name, update_book-Keyed,
  get_snapshot-update_book,
}

-- The books after an update, and what a receiver of its sends sees of an asset.
pub record Tracks (a : Text) (before after : FeedStores) (sends : List Sent) : Type 0 where
  pub keyed : Keyed after.order_books
  pub seen : view_of a sends (get_snapshot before.order_books a) ≡ get_snapshot after.order_books a

-- What one round of the loop sends.
abbrev pub round_sends : FeedStores → NormalizedUpdate → List Sent
round_sends stores' update =
    sent_update update
    ∷ sent_notice update.notice
    ∷ snapshot_sends (snapshot_from_update stores' update)

-- A book changed in its place, and its snapshot sent.
book-Tracks :
    (a x : Text) (f : BookState → BookState) (before : FeedStores)
    → SameName f
    → Keyed before.order_books
    → let after = update_book x f before.order_books in
      Keyed after
      × (view_of a (snapshot_sends (get_snapshot after x)) (get_snapshot before.order_books a)
          ≡ get_snapshot after a)
unfolding to_snapshot
book-Tracks a x f before same_name keyed =
    let books = before.order_books in
    (
      update_book-Keyed x f books same_name keyed,
      ground (
        arith,
        get_snapshot-update_book x x f books,
        get_snapshot-update_book a x f books,
        updated-name x f books same_name keyed,
        same_self x,
      ),
    )

abbrev update_of : UpdateNotice → NormalizedUpdatePayload → NormalizedUpdate
update_of notice payload = record { notice = notice; payload = payload }

-- A round about something else than a book.
other-Tracks :
    (a : Text) (stores after : FeedStores) (notice : UpdateNotice) (update : NormalizedUpdate)
    → is_reconnect notice.kind ≡ false
    → after.order_books ≡ stores.order_books
    → Keyed stores.order_books
    → Tracks a stores after (sent_update update ∷ sent_notice notice ∷ [])
other-Tracks a stores after notice update kind same_books keyed = record {
  keyed = subst Keyed (sym same_books) keyed;
  seen = rw (kind, same_books) refl;
}

-- A round about a book, which ends with its snapshot.
book_round-Tracks :
    (a x : Text) (f : BookState → BookState) (stores after : FeedStores) (notice : UpdateNotice)
    (update : NormalizedUpdate)
    → is_reconnect notice.kind ≡ false
    → after.order_books ≡ update_book x f stores.order_books
    → SameName f
    → Keyed stores.order_books
    → Tracks a stores after (
        sent_update update ∷ sent_notice notice ∷ snapshot_sends (get_snapshot after.order_books x))
book_round-Tracks a x f stores after notice update kind changed same_name keyed =
    let (kept, seen) = book-Tracks a x f stores same_name keyed in
    let books = stores.order_books in
    record {
      keyed = subst Keyed (sym changed) kept;
      seen =
          subst
            (λ (new : OrderBookManager).
              view_of a (snapshot_sends (get_snapshot new x))
                (if is_reconnect notice.kind then none else get_snapshot books a)
              ≡ get_snapshot new a)
            (sym changed) (rw kind seen);
    }

upsert_side-name :
    (side : Side) (price size : Text) (old : BookState)
    → (upsert_side side price size old).asset_id ≡ old.asset_id
upsert_side-name buy price size old = refl
upsert_side-name sell price size old = refl

Keyed-nil : Keyed []
unfolding lookup
Keyed-nil a old e = cc

get_snapshot-nil : (a : Text) → get_snapshot [] a ≡ none
unfolding get_snapshot lookup
get_snapshot-nil a = refl

payload-Tracks :
    (a : Text) (stores : FeedStores) (notice : UpdateNotice) (payload : NormalizedUpdatePayload)
    → notice.kind ≡ kind_of payload
    → Keyed stores.order_books
    → let update = update_of notice payload in
      let after = apply_update_to_stores stores update in
      Tracks a stores after (round_sends after update)
unfolding apply_update_to_stores apply_book_update apply_price_change apply_snapshot apply_delta
payload-Tracks a stores notice (of_book_snapshot snapshot) kind keyed =
    book_round-Tracks a snapshot.asset_id _ stores _ notice _ (ap is_reconnect kind) refl
      (λ old. refl) keyed
payload-Tracks a stores notice (of_book_delta delta) kind keyed =
    book_round-Tracks a delta.asset_id _ stores _ notice _ (ap is_reconnect kind) refl
      (λ old. upsert_side-name delta.side delta.price delta.size old) keyed
payload-Tracks a stores notice (of_reconnect again) kind keyed = record {
  keyed = Keyed-nil;
  seen = rw (ap is_reconnect kind) (sym (get_snapshot-nil a));
}
payload-Tracks a stores notice (of_best_bid_ask best) kind keyed =
    other-Tracks a stores _ notice _ (ap is_reconnect kind) refl keyed
payload-Tracks a stores notice (of_trade_tick trade) kind keyed =
    other-Tracks a stores _ notice _ (ap is_reconnect kind) refl keyed
payload-Tracks a stores notice (of_reference_price price) kind keyed =
    other-Tracks a stores _ notice _ (ap is_reconnect kind) refl keyed
payload-Tracks a stores notice (of_tick_size_change change) kind keyed =
    other-Tracks a stores _ notice _ (ap is_reconnect kind) refl keyed
payload-Tracks a stores notice (of_source_status status) kind keyed =
    other-Tracks a stores _ notice _ (ap is_reconnect kind) refl keyed

-- Whether each notice is of its payload's kind.
abbrev pub Matches : NormalizedUpdate → Type 0
Matches update = update.notice.kind ≡ kind_of update.payload

pub process_updates-Tracks :
    (a : Text) (updates : List NormalizedUpdate) (stores : FeedStores)
    → All Matches updates
    → Keyed stores.order_books
    → let (after, sends) = process_updates updates stores in Tracks a stores after sends
unfolding process_updates
process_updates-Tracks a [] stores matches keyed = record { keyed = keyed; seen = refl }
process_updates-Tracks a (update ∷ updates) stores (match, matches) keyed =
    let stores' = apply_update_to_stores stores update in
    let first = payload-Tracks a stores update.notice update.payload match keyed in
    let rest = process_updates-Tracks a updates stores' matches first.keyed in
    let (last, sends) = process_updates updates stores' in
    record {
      keyed = rest.keyed;
      seen =
          view_of-append a (round_sends stores' update) sends (get_snapshot stores.order_books a)
          ∙ ap (view_of a sends) first.seen
          ∙ rest.seen;
    }

changes-Match :
    (source_id market : Text) (timestamp_ms : ℕ) (entries : List PriceChangeBatchEntry)
    → All Matches (
        map
          (scope_update_to_source source_id polymarket_ws)
          (map (delta_update market timestamp_ms) entries))
changes-Match source_id market timestamp_ms [] = tt
changes-Match source_id market timestamp_ms (entry ∷ entries) =
    (refl, changes-Match source_id market timestamp_ms entries)

normalize-Matches :
    (source_id : Text) (message : WsMessage) → All Matches (normalize source_id message)
unfolding normalize to_normalized_updates
normalize-Matches source_id (book update) = (refl, tt)
normalize-Matches source_id (price_change event) =
    changes-Match source_id event.market (parse_timestamp_ms event.timestamp) event.price_changes
normalize-Matches source_id (reconnected event) = (refl, tt)
normalize-Matches source_id (last_trade_price event) = (refl, tt)
normalize-Matches source_id (tick_size_changed event) = (refl, tt)
normalize-Matches source_id (best_prices event) = (refl, tt)

process_message-Tracks :
    (a : Text) (manager : PolymarketFeedManager) (message : WsMessage)
    → Keyed manager.stores.order_books
    → let ((manager', sends), count) = process_message manager message in
      Tracks a manager.stores manager'.stores sends
unfolding process_message process_adapter_message
process_message-Tracks a manager message keyed =
    process_updates-Tracks a (normalize manager.source_id message) manager.stores
      (normalize-Matches manager.source_id message) keyed

process_all-Tracks :
    (a : Text) (manager : PolymarketFeedManager) (messages : List WsMessage)
    → Keyed manager.stores.order_books
    → let (manager', sends) = process_all manager messages in
      Tracks a manager.stores manager'.stores sends
unfolding process_all
process_all-Tracks a manager [] keyed = record { keyed = keyed; seen = refl }
process_all-Tracks a manager (message ∷ messages) keyed =
    let ((next, sends), count) = process_message manager message in
    let first = process_message-Tracks a manager message keyed in
    let rest = process_all-Tracks a next messages first.keyed in
    let (last, later) = process_all next messages in
    record {
      keyed = rest.keyed;
      seen =
          view_of-append a sends later (get_snapshot manager.stores.order_books a)
          ∙ ap (view_of a later) first.seen
          ∙ rest.seen;
    }

-- A receiver that keeps the last snapshot of an asset, and forgets it at each notice of a reconnection,
-- holds after any messages just what the new feed's store would answer for that asset.
pub process_all-view :
    (source_id : Text) (asset_ids : List Text) (planner : SubscriptionPlannerConfig)
    (messages : List WsMessage) (a : Text)
    → let (manager, sends) =
        process_all (with_subscription_planner source_id asset_ids planner) messages in
      view_of a sends none ≡ get_snapshot manager.stores.order_books a
process_all-view source_id asset_ids planner messages a =
    let manager = with_subscription_planner source_id asset_ids planner in
    let empty : manager.stores.order_books ≡ [] = unfold with_subscription_planner in refl in
    let tracks = process_all-Tracks a manager messages (subst Keyed (sym empty) Keyed-nil) in
    let start : get_snapshot manager.stores.order_books a ≡ none =
      ap (λ (books : OrderBookManager). get_snapshot books a) empty ∙ get_snapshot-nil a in
    let (last, sends) = process_all manager messages in
    ap (view_of a sends) (sym start) ∙ tracks.seen
