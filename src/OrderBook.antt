-- ===== src/OrderBook.antt =====
-- crates/pm-data/src/orderbook.rs: the books that the feed keeps, by asset, with the messages of
-- crates/pm-data/src/types.rs that change them. The lock around the books is left out: one call at a
-- time.
pub mod Ladder
pub mod Books
pub mod History
use rtt.Prelude.{
  ℕ, Bool, ◌||◌, Option, none, some, List, [], ◌∷◌, map, length, if◌then◌else◌, max_u64, unwrap_or,
}
use rtt.Order.{Text, text, text_ord, same}
use rtt.BTreeMap.{BTreeMap, first, last, lookup, insert, remove, values}
use rtt.Decimal.{parse_unsigned}
use rtt.Trigger.{Side, buy, sell, PriceLevel, OrderBookSnapshot}

-- A level of a `BookUpdate` is a `WsOrderBookLevel`, with the fields of a `PriceLevel`.
pub record BookUpdate : Type 0 where
  pub asset_id : Text
  pub market : Text
  pub timestamp : Text
  pub bids : List PriceLevel
  pub asks : List PriceLevel
  pub hash : Option Text

pub record PriceChangeBatchEntry : Type 0 where
  pub asset_id : Text
  pub price : Text
  pub size : Option Text
  pub side : Side
  pub hash : Option Text
  pub best_bid : Option Text
  pub best_ask : Option Text

-- Sizes by price, both as text, in the order of the texts of the prices.
abbrev pub PriceLadder : Type 0
PriceLadder = BTreeMap Text Text

abbrev pub insert_levels : List PriceLevel → PriceLadder → PriceLadder
insert_levels [] ladder = ladder
insert_levels (level ∷ levels) ladder = insert_levels levels (insert level.price level.size ladder)

unfoldable pub apply_levels : PriceLadder → List PriceLevel → PriceLadder
apply_levels ladder levels = insert_levels levels []

unfoldable pub is_zero : Text → Bool
is_zero size = same size (text "0") || same size (text "0.0") || same size (text "0.00")

unfoldable pub upsert : PriceLadder → Text → Text → PriceLadder
upsert ladder price size = if is_zero size then remove price ladder else insert price size ladder

abbrev level_of : Option (Text × Text) → Option PriceLevel
level_of none = none
level_of (some (p, s)) = some (record { price = p; size = s })

unfoldable pub best_bid : PriceLadder → Option PriceLevel
best_bid ladder = level_of (last ladder)

unfoldable pub best_ask : PriceLadder → Option PriceLevel
best_ask ladder = level_of (first ladder)

pub record BookState : Type 0 where
  pub asset_id : Text
  pub bids : PriceLadder
  pub asks : PriceLadder
  pub hash : Text
  pub timestamp_ms : ℕ

abbrev pub new_book : Text → BookState
new_book asset_id = record {
  asset_id = asset_id;
  bids = [];
  asks = [];
  hash = [];
  timestamp_ms = 0;
}

unfoldable pub apply_snapshot : BookState → BookUpdate → BookState
apply_snapshot book update = record book {
  bids = apply_levels book.bids update.bids;
  asks = apply_levels book.asks update.asks;
  hash = unwrap_or update.hash book.hash;
  timestamp_ms = unwrap_or (parse_unsigned max_u64 update.timestamp) 0;
}

-- The `match` on the side.
abbrev pub upsert_side : Side → Text → Text → BookState → BookState
upsert_side buy price size book = record book { bids = upsert book.bids price size }
upsert_side sell price size book = record book { asks = upsert book.asks price size }

unfoldable pub apply_delta : BookState → PriceChangeBatchEntry → ℕ → BookState
apply_delta book entry timestamp_ms =
    let size = unwrap_or entry.size (text "0") in
    record (upsert_side entry.side entry.price size book) {
      hash = unwrap_or entry.hash book.hash;
      timestamp_ms = timestamp_ms;
    }

unfoldable pub to_snapshot : BookState → OrderBookSnapshot
to_snapshot book = record {
  asset_id = book.asset_id;
  best_bid = best_bid book.bids;
  best_ask = best_ask book.asks;
  timestamp_ms = book.timestamp_ms;
  hash = book.hash;
}

abbrev pub OrderBookManager : Type 0
OrderBookManager = BTreeMap Text BookState

-- `entry(asset).or_insert_with(new)`, and the book changed in its place.
unfoldable pub update_book : Text → (BookState → BookState) → OrderBookManager → OrderBookManager
update_book asset_id f books =
    insert asset_id (f (unwrap_or (lookup asset_id books) (new_book asset_id))) books

unfoldable pub apply_book_update : OrderBookManager → BookUpdate → OrderBookManager
apply_book_update books update =
    update_book update.asset_id (λ book. apply_snapshot book update) books

unfoldable pub apply_price_change : OrderBookManager → PriceChangeBatchEntry → ℕ → OrderBookManager
apply_price_change books entry timestamp_ms =
    update_book entry.asset_id (λ book. apply_delta book entry timestamp_ms) books

unfoldable pub get_snapshot : OrderBookManager → Text → Option OrderBookSnapshot
get_snapshot books asset_id = elim (lookup asset_id books) [
  | none ↦ none
  | some book ↦ some (to_snapshot book)
]

abbrev pub get_all_snapshots : OrderBookManager → List OrderBookSnapshot
get_all_snapshots books = map to_snapshot (values books)

abbrev pub get_hash : OrderBookManager → Text → Option Text
get_hash books asset_id = elim (lookup asset_id books) [ none ↦ none | some book ↦ some book.hash ]

abbrev pub bid_count : OrderBookManager → Text → ℕ
bid_count books asset_id = elim (lookup asset_id books) [ none ↦ 0 | some book ↦ length book.bids ]

abbrev pub ask_count : OrderBookManager → Text → ℕ
ask_count books asset_id = elim (lookup asset_id books) [ none ↦ 0 | some book ↦ length book.asks ]

abbrev pub clear_all : OrderBookManager → OrderBookManager
clear_all books = []

unfoldable pub clear_asset : OrderBookManager → Text → OrderBookManager
clear_asset books asset_id = remove asset_id books

abbrev pub asset_count : OrderBookManager → ℕ
asset_count books = length books
