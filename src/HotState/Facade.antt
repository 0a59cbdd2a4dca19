-- ===== src/HotState/Facade.antt =====
-- What the `HotStateStore` of crates/rtt-core/src/hot_state.rs offers: the dispatch of the updates, the
-- reads, and the registration of a market.
use rtt.Prelude.{
  or_else, ℕ, Bool, true, false, Option, none, some, [], ◌∷◌, if◌then◌else◌, unwrap_or, ◌==◌,
}
use rtt.Order.{Text, text_ord, pair_ord, same}
use rtt.Trigger.{PriceLevel, OrderBookSnapshot}
use rtt.HotState.{parse_scaled, option_then}
use rtt.HotState.Levels.{RegisteredMarket, HotBookLevel}
use rtt.Events.{
  InstrumentRef, UpdateKind, UpdateNotice, NormalizedUpdate, book_snapshot, book_delta,
  best_bid_ask, tick_size_change, of_book_snapshot, of_book_delta, of_best_bid_ask, of_trade_tick,
  of_reference_price, of_tick_size_change, of_reconnect, of_source_status, BestBidAskUpdate,
  TradeTickUpdate, ReferencePriceUpdate, TickSizeChangeUpdate, SourceStatusUpdate, ReconnectUpdate,
}
use rtt.HotState.Store.{
  HotBookState, HotReferenceState, HotStateKey, from_subject, asset_key, HotStateStore,
  apply_registered_market,
}
use rtt.BTreeMap.{BTreeMap, lookup, insert}
use rtt.HotState.Updates.{
  apply_book_snapshot_update, apply_book_delta_update, apply_best_bid_ask_update,
  apply_tick_size_change_update, apply_orderbook_snapshot_resolution,
}
use rtt.HotState.References.{
  apply_trade_tick_update, apply_reference_price_update, apply_source_status_update,
  apply_reconnect_update,
}

unfoldable pub apply_update : HotStateStore → NormalizedUpdate → HotStateStore
apply_update store update = elim update.payload [
  | of_book_snapshot snapshot ↦ apply_book_snapshot_update store update.notice snapshot
  | of_book_delta delta ↦ apply_book_delta_update store update.notice delta
  | of_best_bid_ask quote ↦ apply_best_bid_ask_update store update.notice quote
  | of_trade_tick tick ↦ apply_trade_tick_update store update.notice tick
  | of_reference_price price ↦ apply_reference_price_update store update.notice price
  | of_tick_size_change change ↦ apply_tick_size_change_update store update.notice change
  | of_reconnect event ↦ apply_reconnect_update store update.notice event
  | of_source_status status ↦ apply_source_status_update store update.notice status
]

unfoldable pub book_state : HotStateStore → Text → Text → Option HotBookState
book_state store source_id asset_id = lookup (asset_key source_id asset_id) store.books

-- A book counts only in the version that the notice announces.
abbrev at_version : ℕ → Option HotBookState → Option HotBookState
at_version version none = none
at_version version (some state) = if state.version == version then some state else none

unfoldable pub resolve_book_notice : HotStateStore → UpdateNotice → Option HotBookState
resolve_book_notice store notice =
    at_version notice.version
      (lookup (asset_key notice.source_id notice.subject.instrument_id) store.books)

abbrev pub book_level_to_snapshot_level : HotBookLevel → PriceLevel
book_level_to_snapshot_level level = record { price = level.price.exact; size = level.size.exact }

abbrev snapshot_level : Option HotBookLevel → Option PriceLevel
snapshot_level none = none
snapshot_level (some level) = some (book_level_to_snapshot_level level)

unfoldable pub project_snapshot : HotStateStore → UpdateNotice → Option OrderBookSnapshot
project_snapshot store notice = option_then (resolve_book_notice store notice) (λ state.
    some (record {
      asset_id = state.asset_id;
      best_bid = snapshot_level state.best_bid;
      best_ask = snapshot_level state.best_ask;
      timestamp_ms = state.timestamp_ms;
      hash = unwrap_or (or_else state.source_hash notice.source_hash) [];
    }))

unfoldable pub reference_state : HotStateStore → InstrumentRef → Option HotReferenceState
reference_state store subject = lookup (from_subject subject) store.references

abbrev reference_at_version : ℕ → Option HotReferenceState → Option HotReferenceState
reference_at_version version none = none
reference_at_version version (some state) = if state.version == version then some state else none

unfoldable pub resolve_reference_notice : HotStateStore → UpdateNotice → Option HotReferenceState
resolve_reference_notice store notice =
    reference_at_version notice.version (lookup (from_subject notice.subject) store.references)

pub data HotStateView : Type 0 where
  book_view : HotBookState → HotStateView
  reference_view : HotReferenceState → HotStateView

abbrev view_book : Option HotBookState → Option HotStateView
view_book none = none
view_book (some state) = some (book_view state)

abbrev view_reference : Option HotReferenceState → Option HotStateView
view_reference none = none
view_reference (some state) = some (reference_view state)

abbrev pub is_book_kind : UpdateKind → Bool
is_book_kind book_snapshot = true
is_book_kind book_delta = true
is_book_kind best_bid_ask = true
is_book_kind tick_size_change = true
is_book_kind _ = false

unfoldable pub resolve_notice : HotStateStore → UpdateNotice → Option HotStateView
resolve_notice store notice =
    if is_book_kind notice.kind
    then view_book (resolve_book_notice store notice)
    else view_reference (resolve_reference_notice store notice)

-- Each book of the asset, whatever its source is.
abbrev pub register_books :
    Text → RegisteredMarket → BTreeMap HotStateKey HotBookState → BTreeMap HotStateKey HotBookState
register_books asset_id registered [] = []
register_books asset_id registered ((key, book) ∷ books) =
    (key, if same book.asset_id asset_id then apply_registered_market book registered else book)
    ∷ register_books asset_id registered books

abbrev pub register_asset : Text → RegisteredMarket → HotStateStore → HotStateStore
register_asset asset_id registered store = record store {
  markets_by_asset = insert asset_id registered store.markets_by_asset;
  books = register_books asset_id registered store.books;
}

-- The arguments are the fields of a `MarketMeta` that are read: its identifier, the assets of its two
-- outcomes, its tick size and its least order size.
unfoldable pub register_market :
    Text → Text → Text → Text → Option Text → HotStateStore → HotStateStore
register_market market_id yes_asset no_asset tick_size min_order_size store =
    let registered : RegisteredMarket = record {
      market_id = market_id;
      tick_size = tick_size;
      tick_size_units = unwrap_or (parse_scaled tick_size) 0;
      lot_size = min_order_size;
      lot_size_units = option_then min_order_size parse_scaled;
    } in
    register_asset no_asset registered (register_asset yes_asset registered store)

pub data NoticeResolution : Type 0 where
  order_book : OrderBookSnapshot → NoticeResolution
  to_best_bid_ask : BestBidAskUpdate → NoticeResolution
  to_trade_tick : TradeTickUpdate → NoticeResolution
  to_reference_price : ReferencePriceUpdate → NoticeResolution
  to_tick_size_change : TickSizeChangeUpdate → NoticeResolution
  to_source_status : SourceStatusUpdate → NoticeResolution
  to_reconnect : ReconnectUpdate → NoticeResolution

unfoldable pub apply_resolution : HotStateStore → UpdateNotice → NoticeResolution → HotStateStore
apply_resolution store notice resolution = elim resolution [
  | order_book snapshot ↦ apply_orderbook_snapshot_resolution store notice snapshot
  | to_best_bid_ask quote ↦ apply_best_bid_ask_update store notice quote
  | to_trade_tick tick ↦ apply_trade_tick_update store notice tick
  | to_reference_price price ↦ apply_reference_price_update store notice price
  | to_tick_size_change change ↦ apply_tick_size_change_update store notice change
  | to_source_status status ↦ apply_source_status_update store notice status
  | to_reconnect event ↦ apply_reconnect_update store notice event
]
