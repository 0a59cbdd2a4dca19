-- ===== src/HotState/References.antt =====
-- The updates of crates/rtt-core/src/hot_state.rs that change a reference of the store, and the
-- reconnect of a source, which clears books and references.
use rtt.Prelude.{Bool, not, none, some, unwrap_or}
use rtt.Order.{text_ord, pair_ord, same}
use rtt.HotState.{option_then, hot_value}
use rtt.Events.{
  UpdateNotice, TradeTickUpdate, ReferencePriceUpdate, ReconnectUpdate, SourceStatusUpdate,
}
use rtt.HotState.Store.{HotReferenceState, HotStateKey, from_subject, HotStateStore}
use rtt.BTreeMap.{lookup, insert, retain}

abbrev pub empty_reference_state : UpdateNotice → HotReferenceState
empty_reference_state notice = record {
  notice = notice;
  reference_price = none;
  best_bid = none;
  best_ask = none;
  last_trade_price = none;
  last_trade_size = none;
  healthy = none;
  stale_after_ms = none;
  observed_at_ms = none;
  reconnect_sequence = none;
  version = notice.version;
  timestamp_ms = 0;
}

-- The reference of the notice's subject, changed in its place.
abbrev pub put_reference :
    HotStateStore → UpdateNotice → (HotReferenceState → HotReferenceState) → HotStateStore
put_reference store notice f =
    let key = from_subject notice.subject in
    let state = unwrap_or (lookup key store.references) (empty_reference_state notice) in
    let stamped : HotReferenceState = record state { notice = notice; version = notice.version } in
    record store { references = insert key (f stamped) store.references }

unfoldable pub apply_trade_tick_update :
    HotStateStore → UpdateNotice → TradeTickUpdate → HotStateStore
apply_trade_tick_update store notice update = put_reference store notice (λ state. record state {
  timestamp_ms = update.timestamp_ms;
  last_trade_price = hot_value update.price;
  last_trade_size = option_then update.size hot_value;
})

unfoldable pub apply_reference_price_update :
    HotStateStore → UpdateNotice → ReferencePriceUpdate → HotStateStore
apply_reference_price_update store notice update = put_reference store notice (λ state.
    record state { timestamp_ms = update.timestamp_ms; reference_price = hot_value update.price })

unfoldable pub apply_source_status_update :
    HotStateStore → UpdateNotice → SourceStatusUpdate → HotStateStore
apply_source_status_update store notice update = put_reference store notice (λ state. record state {
  timestamp_ms = update.observed_at_ms;
  healthy = some update.healthy;
  stale_after_ms = update.stale_after_ms;
  observed_at_ms = some update.observed_at_ms;
})

-- Whatever is known of the source is dropped.
unfoldable pub apply_reconnect_update :
    HotStateStore → UpdateNotice → ReconnectUpdate → HotStateStore
apply_reconnect_update store notice update =
    let elsewhere : HotStateKey → Bool = λ key. not (same key.0 notice.source_id) in
    let state : HotReferenceState = record (empty_reference_state notice) {
      reconnect_sequence = some update.sequence;
      timestamp_ms = update.timestamp_ms;
    } in
    record store {
      books = retain elsewhere store.books;
      references = insert (from_subject notice.subject) state (retain elsewhere store.references);
    }
