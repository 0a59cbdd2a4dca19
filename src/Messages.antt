-- ===== src/Messages.antt =====
-- The messages of the market channel, of crates/pm-data/src/types.rs, and the updates that they stand
-- for. Their decoding from JSON (the derived `Deserialize`) is left out.
use rtt.Prelude.{ℕ, Option, none, some, List, [], ◌∷◌, map, max_u64, unwrap_or}
use rtt.Order.{Text, text}
use rtt.Decimal.{parse_unsigned}
use rtt.Trigger.{Side}
use rtt.OrderBook.{BookUpdate, PriceChangeBatchEntry}
use rtt.Events.{
  polymarket_ws, asset_ref, source_ref, UpdateKind, book_snapshot, book_delta, best_bid_ask,
  trade_tick, tick_size_change, reconnect, UpdateNotice, of_book_snapshot, of_book_delta,
  of_best_bid_ask, of_trade_tick, of_tick_size_change, of_reconnect, NormalizedUpdate,
}

pub record PriceChangeEvent : Type 0 where
  pub market : Text
  pub timestamp : Text
  pub price_changes : List PriceChangeBatchEntry

pub record LastTradePriceEvent : Type 0 where
  pub asset_id : Text
  pub market : Text
  pub price : Text
  pub side : Option Side
  pub size : Option Text
  pub fee_rate_bps : Option Text
  pub timestamp : Text

pub record TickSizeChangeEvent : Type 0 where
  pub asset_id : Text
  pub market : Text
  pub old_tick_size : Text
  pub new_tick_size : Text
  pub timestamp : Text

pub record BestBidAskEvent : Type 0 where
  pub asset_id : Text
  pub market : Text
  pub best_bid : Text
  pub best_ask : Text
  pub spread : Text
  pub timestamp : Text

pub record ReconnectEvent : Type 0 where
  pub sequence : ℕ
  pub timestamp_ms : ℕ

pub data WsMessage : Type 0 where
  book : BookUpdate → WsMessage
  price_change : PriceChangeEvent → WsMessage
  last_trade_price : LastTradePriceEvent → WsMessage
  tick_size_changed : TickSizeChangeEvent → WsMessage
  best_prices : BestBidAskEvent → WsMessage
  reconnected : ReconnectEvent → WsMessage

abbrev pub public_source_id : Text
public_source_id = text "polymarket-public"

unfoldable pub parse_timestamp_ms : Text → ℕ
parse_timestamp_ms timestamp = unwrap_or (parse_unsigned max_u64 timestamp) 0

abbrev pub asset_notice : Text → Text → UpdateKind → ℕ → Option Text → UpdateNotice
asset_notice source_id asset_id kind version source_hash = record {
  source_id = source_id;
  source_kind = polymarket_ws;
  subject = asset_ref source_id asset_id;
  kind = kind;
  version = version;
  source_hash = source_hash;
}

-- One entry of a batch, with the market and the time of the batch.
abbrev pub delta_update : Text → ℕ → PriceChangeBatchEntry → NormalizedUpdate
delta_update market timestamp_ms entry = record {
  notice = asset_notice public_source_id entry.asset_id book_delta timestamp_ms entry.hash;
  payload = of_book_delta (record {
    market_id = market;
    asset_id = entry.asset_id;
    price = entry.price;
    size = unwrap_or entry.size (text "0");
    side = entry.side;
    timestamp_ms = timestamp_ms;
    best_bid = entry.best_bid;
    best_ask = entry.best_ask;
    source_hash = entry.hash;
  });
}

unfoldable pub to_normalized_updates : WsMessage → List NormalizedUpdate
to_normalized_updates (book update) =
    let timestamp_ms = parse_timestamp_ms update.timestamp in
    record {
      notice = asset_notice public_source_id update.asset_id book_snapshot timestamp_ms update.hash;
      payload = of_book_snapshot (record {
        market_id = update.market;
        asset_id = update.asset_id;
        bids = update.bids;
        asks = update.asks;
        timestamp_ms = timestamp_ms;
        source_hash = update.hash;
      });
    }
    ∷ []
to_normalized_updates (price_change event) =
    map (delta_update event.market (parse_timestamp_ms event.timestamp)) event.price_changes
to_normalized_updates (last_trade_price event) =
    let timestamp_ms = parse_timestamp_ms event.timestamp in
    record {
      notice = asset_notice public_source_id event.asset_id trade_tick timestamp_ms none;
      payload = of_trade_tick (record {
        market_id = some event.market;
        asset_id = some event.asset_id;
        price = event.price;
        size = event.size;
        side = event.side;
        timestamp_ms = timestamp_ms;
      });
    }
    ∷ []
to_normalized_updates (tick_size_changed event) =
    let timestamp_ms = parse_timestamp_ms event.timestamp in
    record {
      notice = asset_notice public_source_id event.asset_id tick_size_change timestamp_ms none;
      payload = of_tick_size_change (record {
        market_id = event.market;
        asset_id = event.asset_id;
        old_tick_size = event.old_tick_size;
        new_tick_size = event.new_tick_size;
        timestamp_ms = timestamp_ms;
      });
    }
    ∷ []
to_normalized_updates (best_prices event) =
    let timestamp_ms = parse_timestamp_ms event.timestamp in
    record {
      notice = asset_notice public_source_id event.asset_id best_bid_ask timestamp_ms none;
      payload = of_best_bid_ask (record {
        market_id = event.market;
        asset_id = event.asset_id;
        best_bid = event.best_bid;
        best_ask = event.best_ask;
        spread = some event.spread;
        timestamp_ms = timestamp_ms;
      });
    }
    ∷ []
to_normalized_updates (reconnected event) =
    record {
      notice = record {
        source_id = public_source_id;
        source_kind = polymarket_ws;
        subject = source_ref public_source_id;
        kind = reconnect;
        version = event.sequence;
        source_hash = none;
      };
      payload =
          of_reconnect (record { sequence = event.sequence; timestamp_ms = event.timestamp_ms });
    }
    ∷ []
