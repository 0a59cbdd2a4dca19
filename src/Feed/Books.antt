-- ===== src/Feed/Books.antt =====
-- The books that crates/pm-data/src/feed.rs keeps are those that the messages say directly: the way
-- through the normalized updates, with a printed and parsed time, changes nothing.
use rtt.Prelude.{
  ℕ, ◌≡◌, refl, ◌∙◌, ap, inl, inr, Option, some, List, [], ◌∷◌, map, max_u64, unwrap_or, arith,
  Option-cases,
}
use rtt.Order.{Text, text, text_ord}
use rtt.BTreeMap.{lookup, insert}
use rtt.Decimal.{parse_unsigned, to_decimal}
use rtt.Decimal.RoundTrip.{parse_unsigned-to_decimal, parse_unsigned-le}
use rtt.Events.{polymarket_ws}
use rtt.Messages.{
  WsMessage, book, price_change, last_trade_price, tick_size_changed, best_prices, reconnected,
  parse_timestamp_ms, delta_update, to_normalized_updates,
}
use rtt.OrderBook.{
  BookUpdate, PriceChangeBatchEntry, new_book, OrderBookManager, apply_snapshot, apply_delta,
  update_book, apply_book_update, apply_price_change,
}
use rtt.Feed.{
  FeedStores, apply_update_to_stores, process_updates, process_adapter_message,
  scope_update_to_source, normalize, PolymarketFeedManager, process_message, process_all,
}

abbrev change_all : ℕ → List PriceChangeBatchEntry → OrderBookManager → OrderBookManager
change_all timestamp_ms [] books = books
change_all timestamp_ms (entry ∷ entries) books =
    change_all timestamp_ms entries (apply_price_change books entry timestamp_ms)

-- What a message says of the books.
abbrev pub direct : WsMessage → OrderBookManager → OrderBookManager
direct (book update) books = apply_book_update books update
direct (price_change event) books =
    change_all (parse_timestamp_ms event.timestamp) event.price_changes books
direct (reconnected event) books = []
direct (last_trade_price event) books = books
direct (tick_size_changed event) books = books
direct (best_prices event) books = books

abbrev pub direct_all : List WsMessage → OrderBookManager → OrderBookManager
direct_all [] books = books
direct_all (message ∷ messages) books = direct_all messages (direct message books)

-- A time that is printed and parsed again.
parse_timestamp_ms-to_decimal :
    (timestamp : Text)
    → parse_timestamp_ms (to_decimal (parse_timestamp_ms timestamp)) ≡ parse_timestamp_ms timestamp
unfolding parse_timestamp_ms
parse_timestamp_ms-to_decimal timestamp = elim (Option-cases (parse_unsigned max_u64 timestamp)) [
  | inl e ↦
      rw e
        (ap (λ (o : Option ℕ). unwrap_or o 0) (parse_unsigned-to_decimal max_u64 0 (omega arith)))
  | inr (n, e) ↦ rw e (
      ap (λ (o : Option ℕ). unwrap_or o 0)
        (parse_unsigned-to_decimal max_u64 n (parse_unsigned-le max_u64 timestamp n e)))
]

abbrev retimed : BookUpdate → BookUpdate
retimed update = record update { timestamp = to_decimal (parse_timestamp_ms update.timestamp) }

apply_book_update-retimed :
    (books : OrderBookManager) (update : BookUpdate)
    → apply_book_update books (retimed update) ≡ apply_book_update books update
unfolding apply_book_update update_book apply_snapshot parse_timestamp_ms
apply_book_update-retimed books update =
    let book = unwrap_or (lookup update.asset_id books) (new_book update.asset_id) in
    let at : ℕ → OrderBookManager = λ t.
      insert update.asset_id (record (apply_snapshot book update) { timestamp_ms = t }) books in
    ap at (parse_timestamp_ms-to_decimal update.timestamp)

-- An entry as it comes back from its update.
abbrev returned : Text → ℕ → PriceChangeBatchEntry → PriceChangeBatchEntry
returned market timestamp_ms entry = record entry { size = some (unwrap_or entry.size (text "0")) }

apply_price_change-returned :
    (books : OrderBookManager) (market : Text) (timestamp_ms : ℕ) (entry : PriceChangeBatchEntry)
    → apply_price_change books (returned market timestamp_ms entry) timestamp_ms
      ≡ apply_price_change books entry timestamp_ms
unfolding apply_price_change update_book apply_delta
apply_price_change-returned books market timestamp_ms entry = refl

process_updates-changes :
    (source_id market : Text) (timestamp_ms : ℕ) (entries : List PriceChangeBatchEntry)
    (stores : FeedStores)
    → let updates =
        map
          (scope_update_to_source source_id polymarket_ws)
          (map (delta_update market timestamp_ms) entries) in
      (process_updates updates stores).0.order_books
      ≡ change_all timestamp_ms entries stores.order_books
unfolding process_updates apply_update_to_stores
process_updates-changes source_id market timestamp_ms [] stores = refl
process_updates-changes source_id market timestamp_ms (entry ∷ entries) stores =
    process_updates-changes source_id market timestamp_ms entries (
      apply_update_to_stores stores
        (scope_update_to_source source_id polymarket_ws (delta_update market timestamp_ms entry)))
    ∙ ap (change_all timestamp_ms entries)
        (apply_price_change-returned stores.order_books market timestamp_ms entry)

-- The books after a message are those that the message says directly.
process_message-direct :
    (manager : PolymarketFeedManager) (message : WsMessage)
    → (process_message manager message).0.0.stores.order_books
      ≡ direct message manager.stores.order_books
unfolding process_message process_adapter_message normalize to_normalized_updates process_updates
    apply_update_to_stores
process_message-direct manager (book update) =
    apply_book_update-retimed manager.stores.order_books update
process_message-direct manager (price_change event) =
    process_updates-changes manager.source_id event.market (parse_timestamp_ms event.timestamp)
      event.price_changes manager.stores
process_message-direct manager (reconnected event) = refl
process_message-direct manager (last_trade_price event) = refl
process_message-direct manager (tick_size_changed event) = refl
process_message-direct manager (best_prices event) = refl

-- After any messages the books of a feed are those that the messages say directly, applied in turn to
-- the manager of books: normalizing, scoping to the source, and printing and parsing the times again
-- change nothing.
pub process_all-direct :
    (manager : PolymarketFeedManager) (messages : List WsMessage)
    → (process_all manager messages).0.stores.order_books
      ≡ direct_all messages manager.stores.order_books
unfolding process_all
process_all-direct manager [] = refl
process_all-direct manager (message ∷ messages) =
    process_all-direct (process_message manager message).0.0 messages
    ∙ ap (direct_all messages) (process_message-direct manager message)
