-- ===== src/Events.antt =====
-- crates/rtt-core/src/public_event.rs and crates/rtt-core/src/feed_source.rs: the updates that sources
-- report, and what they are about. The wrappers of strings are their text, and a `BookLevel` has the
-- fields of a `PriceLevel`.
use rtt.Prelude.{ℕ, Bool, Option, List}
use rtt.Order.{Text, text}
use rtt.Trigger.{Side, PriceLevel}

pub data SourceKind : Type 0 where
  polymarket_ws polymarket_rest external_reference external_trade synthetic : SourceKind

pub data InstrumentKind : Type 0 where
  source market asset symbol : InstrumentKind

pub record InstrumentRef : Type 0 where
  pub source_id : Text
  pub kind : InstrumentKind
  pub instrument_id : Text

abbrev pub asset_ref : Text → Text → InstrumentRef
asset_ref source_id instrument_id = record {
  source_id = source_id;
  kind = asset;
  instrument_id = instrument_id;
}

abbrev pub source_ref : Text → InstrumentRef
source_ref source_id = record {
  source_id = source_id;
  kind = source;
  instrument_id = text "_source";
}

-- `format!("{:?}", kind)`.
abbrev pub kind_text : InstrumentKind → Text
kind_text source = text "Source"
kind_text market = text "Market"
kind_text asset = text "Asset"
kind_text symbol = text "Symbol"

pub data UpdateKind : Type 0 where
  book_snapshot book_delta best_bid_ask trade_tick reference_price tick_size_change reconnect
        source_status custom :
      UpdateKind

pub record UpdateNotice : Type 0 where
  pub source_id : Text
  pub source_kind : SourceKind
  pub subject : InstrumentRef
  pub kind : UpdateKind
  pub version : ℕ
  pub source_hash : Option Text

pub record BookSnapshotUpdate : Type 0 where
  pub market_id : Text
  pub asset_id : Text
  pub bids : List PriceLevel
  pub asks : List PriceLevel
  pub timestamp_ms : ℕ
  pub source_hash : Option Text

pub record BookDeltaUpdate : Type 0 where
  pub market_id : Text
  pub asset_id : Text
  pub price : Text
  pub size : Text
  pub side : Side
  pub timestamp_ms : ℕ
  pub best_bid : Option Text
  pub best_ask : Option Text
  pub source_hash : Option Text

pub record BestBidAskUpdate : Type 0 where
  pub market_id : Text
  pub asset_id : Text
  pub best_bid : Text
  pub best_ask : Text
  pub spread : Option Text
  pub timestamp_ms : ℕ

pub record TradeTickUpdate : Type 0 where
  pub market_id : Option Text
  pub asset_id : Option Text
  pub price : Text
  pub size : Option Text
  pub side : Option Side
  pub timestamp_ms : ℕ

pub record ReferencePriceUpdate : Type 0 where
  pub price : Text
  pub notional : Option Text
  pub timestamp_ms : ℕ

pub record TickSizeChangeUpdate : Type 0 where
  pub market_id : Text
  pub asset_id : Text
  pub old_tick_size : Text
  pub new_tick_size : Text
  pub timestamp_ms : ℕ

pub record ReconnectUpdate : Type 0 where
  pub sequence : ℕ
  pub timestamp_ms : ℕ

pub record SourceStatusUpdate : Type 0 where
  pub healthy : Bool
  pub stale_after_ms : Option ℕ
  pub observed_at_ms : ℕ
  pub detail : Option Text

pub data NormalizedUpdatePayload : Type 0 where
  of_book_snapshot : BookSnapshotUpdate → NormalizedUpdatePayload
  of_book_delta : BookDeltaUpdate → NormalizedUpdatePayload
  of_best_bid_ask : BestBidAskUpdate → NormalizedUpdatePayload
  of_trade_tick : TradeTickUpdate → NormalizedUpdatePayload
  of_reference_price : ReferencePriceUpdate → NormalizedUpdatePayload
  of_tick_size_change : TickSizeChangeUpdate → NormalizedUpdatePayload
  of_reconnect : ReconnectUpdate → NormalizedUpdatePayload
  of_source_status : SourceStatusUpdate → NormalizedUpdatePayload

pub record NormalizedUpdate : Type 0 where
  pub notice : UpdateNotice
  pub payload : NormalizedUpdatePayload

-- `payload.kind()`.
abbrev pub kind_of : NormalizedUpdatePayload → UpdateKind
kind_of (of_book_snapshot snapshot) = book_snapshot
kind_of (of_book_delta delta) = book_delta
kind_of (of_best_bid_ask best) = best_bid_ask
kind_of (of_trade_tick trade) = trade_tick
kind_of (of_reference_price price) = reference_price
kind_of (of_tick_size_change change) = tick_size_change
kind_of (of_reconnect again) = reconnect
kind_of (of_source_status status) = source_status
