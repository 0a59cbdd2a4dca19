-- ===== src/HotState/Updates.antt =====
-- The updates of crates/rtt-core/src/hot_state.rs that change a book of the store.
use rtt.Prelude.{or_else, Bool, true, false, Option, none, some, [], if◌then◌else◌, unwrap_or}
use rtt.Order.{Text, text, text_ord, pair_ord, same}
use rtt.Trigger.{Side, buy, sell, PriceLevel, OrderBookSnapshot}
use rtt.HotState.{parse_scaled, option_then}
use rtt.HotState.Levels.{
  RegisteredMarket, HotBookLevel, make_book_level, best_level, updates_best_side,
  refresh_book_level_units,
}
use rtt.Events.{
  UpdateNotice, BookSnapshotUpdate, BookDeltaUpdate, BestBidAskUpdate, TickSizeChangeUpdate,
}
use rtt.HotState.Store.{
  HotBookState, asset_key, HotStateStore, is_empty_text, field, with_midpoint, apply_if_registered,
  fresh_book, put,
}
use rtt.BTreeMap.{lookup}

unfoldable pub apply_book_snapshot_update :
    HotStateStore → UpdateNotice → BookSnapshotUpdate → HotStateStore
apply_book_snapshot_update store notice snapshot =
    let registered = lookup snapshot.asset_id store.markets_by_asset in
    let state =
      fresh_book notice registered snapshot.market_id snapshot.asset_id snapshot.timestamp_ms
        (or_else snapshot.source_hash notice.source_hash) in
    let levels : HotBookState = record state {
      best_bid = best_level snapshot.bids true registered;
      best_ask = best_level snapshot.asks false registered;
    } in
    put store notice snapshot.asset_id (with_midpoint (apply_if_registered registered levels))

-- The new best level of the delta's side: at the price that the delta names as the best, or else the
-- delta's own level if it is no worse than the level so far.
abbrev pub side_after :
    Option Text
    → Option HotBookLevel
    → Bool
    → BookDeltaUpdate
    → Option RegisteredMarket
    → Option HotBookLevel
side_after (some best) current take_max delta registered =
    let size =
      if same best delta.price
      then delta.size
      else unwrap_or (option_then current (λ level. some level.size.exact)) (text "0") in
    make_book_level best size registered
side_after none current take_max delta registered =
    let candidate = make_book_level delta.price delta.size registered in
    if updates_best_side current candidate take_max then candidate else current

abbrev pub apply_side :
    BookDeltaUpdate → Option RegisteredMarket → Side → HotBookState → HotBookState
apply_side delta registered buy state = record state {
  best_bid = side_after delta.best_bid state.best_bid true delta registered;
}
apply_side delta registered sell state = record state {
  best_ask = side_after delta.best_ask state.best_ask false delta registered;
}

unfoldable pub apply_book_delta_update :
    HotStateStore → UpdateNotice → BookDeltaUpdate → HotStateStore
apply_book_delta_update store notice delta =
    let registered = lookup delta.asset_id store.markets_by_asset in
    let found = lookup (asset_key notice.source_id delta.asset_id) store.books in
    let state = unwrap_or found (
      fresh_book notice registered delta.market_id delta.asset_id delta.timestamp_ms
        delta.source_hash) in
    let stamped : HotBookState = record state {
      notice = notice;
      market_id = some delta.market_id;
      version = notice.version;
      timestamp_ms = delta.timestamp_ms;
      source_hash = delta.source_hash;
    } in
    put store notice delta.asset_id (with_midpoint (apply_side delta registered delta.side stamped))

unfoldable pub apply_orderbook_snapshot_resolution :
    HotStateStore → UpdateNotice → OrderBookSnapshot → HotStateStore
apply_orderbook_snapshot_resolution store notice snapshot =
    let registered = lookup snapshot.asset_id store.markets_by_asset in
    let existing =
      option_then (lookup (asset_key notice.source_id snapshot.asset_id) store.books)
        (λ state. state.market_id) in
    let level : Option PriceLevel → Option HotBookLevel =
      λ l. option_then l (λ level. make_book_level level.price level.size registered) in
    let state =
      fresh_book notice registered [] snapshot.asset_id snapshot.timestamp_ms
        (if is_empty_text snapshot.hash then notice.source_hash else some snapshot.hash) in
    let levels : HotBookState = record state {
      market_id = or_else (field registered (λ m. m.market_id)) existing;
      best_bid = level snapshot.best_bid;
      best_ask = level snapshot.best_ask;
    } in
    put store notice snapshot.asset_id (with_midpoint (apply_if_registered registered levels))

unfoldable pub apply_best_bid_ask_update :
    HotStateStore → UpdateNotice → BestBidAskUpdate → HotStateStore
apply_best_bid_ask_update store notice update =
    let registered = lookup update.asset_id store.markets_by_asset in
    let found = lookup (asset_key notice.source_id update.asset_id) store.books in
    let state = unwrap_or found (
      fresh_book notice registered update.market_id update.asset_id update.timestamp_ms
        notice.source_hash) in
    let quoted : HotBookState = record state {
      notice = notice;
      market_id = some update.market_id;
      version = notice.version;
      timestamp_ms = update.timestamp_ms;
      best_bid = make_book_level update.best_bid (text "0") registered;
      best_ask = make_book_level update.best_ask (text "0") registered;
    } in
    put store notice update.asset_id (with_midpoint (apply_if_registered registered quoted))

unfoldable pub apply_tick_size_change_update :
    HotStateStore → UpdateNotice → TickSizeChangeUpdate → HotStateStore
apply_tick_size_change_update store notice update =
    let registered = lookup update.asset_id store.markets_by_asset in
    let found = lookup (asset_key notice.source_id update.asset_id) store.books in
    let state = unwrap_or found (
      fresh_book notice registered update.market_id update.asset_id update.timestamp_ms
        notice.source_hash) in
    let units = parse_scaled update.new_tick_size in
    let changed : HotBookState = record state {
      notice = notice;
      market_id = some update.market_id;
      version = notice.version;
      timestamp_ms = update.timestamp_ms;
      tick_size = some update.new_tick_size;
      tick_size_units = units;
      best_bid = refresh_book_level_units state.best_bid units state.lot_size_units;
      best_ask = refresh_book_level_units state.best_ask units state.lot_size_units;
    } in
    put store notice update.asset_id (with_midpoint changed)
