-- ===== src/ReferenceStore.antt =====
-- crates/pm-data/src/reference_store.rs: the latest updates about an instrument, by source. The lock
-- around the store is left out: one call at a time.
pub mod Resolve
use rtt.Prelude.{ℕ, Bool, ◌&&◌, not, Option, none, some, length, unwrap_or}
use rtt.Order.{Text, text_ord, pair_ord, same}
use rtt.BTreeMap.{BTreeMap, lookup, insert, retain}
use rtt.Events.{
  InstrumentKind, InstrumentRef, kind_text, UpdateNotice, ReferencePriceUpdate, TradeTickUpdate,
  BestBidAskUpdate, TickSizeChangeUpdate, SourceStatusUpdate, ReconnectUpdate,
  NormalizedUpdatePayload, of_book_snapshot, of_book_delta, of_best_bid_ask, of_trade_tick,
  of_reference_price, of_tick_size_change, of_reconnect, of_source_status, NormalizedUpdate,
}

-- The source, the kind of the instrument as text, and the instrument.
abbrev pub ReferenceStoreKey : Type 0
ReferenceStoreKey = Text × (Text × Text)

abbrev pub for_subject : InstrumentRef → ReferenceStoreKey
for_subject subject = (subject.source_id, (kind_text subject.kind, subject.instrument_id))

pub record ReferenceState : Type 0 where
  pub last_notice : Option UpdateNotice
  pub last_reference_price : Option ReferencePriceUpdate
  pub last_trade_tick : Option TradeTickUpdate
  pub last_best_bid_ask : Option BestBidAskUpdate
  pub last_tick_size_change : Option TickSizeChangeUpdate
  pub last_source_status : Option SourceStatusUpdate
  pub last_reconnect : Option ReconnectUpdate

abbrev pub default_state : ReferenceState
default_state = record {
  last_notice = none;
  last_reference_price = none;
  last_trade_tick = none;
  last_best_bid_ask = none;
  last_tick_size_change = none;
  last_source_status = none;
  last_reconnect = none;
}

abbrev pub ReferenceStore : Type 0
ReferenceStore = BTreeMap ReferenceStoreKey ReferenceState

-- The `match` on the payload.
abbrev pub note : NormalizedUpdatePayload → ReferenceState → ReferenceState
note (of_reference_price price) entry = record entry { last_reference_price = some price }
note (of_trade_tick trade) entry = record entry { last_trade_tick = some trade }
note (of_best_bid_ask best) entry = record entry { last_best_bid_ask = some best }
note (of_tick_size_change change) entry = record entry { last_tick_size_change = some change }
note (of_source_status status) entry = record entry { last_source_status = some status }
note (of_reconnect again) entry = record entry { last_reconnect = some again }
note (of_book_snapshot snapshot) entry = entry
note (of_book_delta delta) entry = entry

unfoldable pub apply_reference : ReferenceStore → NormalizedUpdate → ReferenceStore
apply_reference store update =
    let key = for_subject update.notice.subject in
    let entry = unwrap_or (lookup key store) default_state in
    insert key (note update.payload (record entry { last_notice = some update.notice })) store

unfoldable pub resolve_subject : ReferenceStore → InstrumentRef → Option ReferenceState
resolve_subject store subject = lookup (for_subject subject) store

abbrev pub of_other_source : Text → ReferenceStoreKey → Bool
of_other_source source_id (source, _) = not (same source source_id)

unfoldable pub clear_reference_source : ReferenceStore → Text → ReferenceStore
clear_reference_source store source_id = retain (of_other_source source_id) store

abbrev pub of_other_instrument : Text → InstrumentKind → Text → ReferenceStoreKey → Bool
of_other_instrument source_id kind instrument_id (source, (instrument_kind, id)) =
    not (same source source_id && (same instrument_kind (kind_text kind) && same id instrument_id))

unfoldable pub clear_instrument : ReferenceStore → Text → InstrumentKind → Text → ReferenceStore
clear_instrument store source_id kind instrument_id =
    retain (of_other_instrument source_id kind instrument_id) store

abbrev pub reference_count : ReferenceStore → ℕ
reference_count store = length store
