-- ===== src/Tests/HotState.antt =====
-- Runs and witnesses for crates/rtt-core/src/hot_state.rs.
use rtt.Prelude.{◌≡◌, refl, true, none, some, List, [], ◌∷◌}
use rtt.Order.{Text, text, text_ord, pair_ord}
use rtt.Decimal.{parse_unsigned, split, to_decimal, zero_padded}
use rtt.Trigger.{PriceLevel}
use rtt.HotState.{parse_scaled, format_scaled, trim, padded, hot_value}
use rtt.HotState.Levels.{HotBookLevel, best_level, readable, make_book_level, reduce}
use rtt.HotState.Notices.{notice_of, resolve-announced}
use rtt.Events.{
  polymarket_ws, NormalizedUpdate, of_book_snapshot, ReconnectUpdate, asset, book_snapshot,
  UpdateNotice, BookSnapshotUpdate,
}
use rtt.HotState.Store.{HotStateStore}
use rtt.HotState.Updates.{apply_book_snapshot_update}
use rtt.HotState.Facade.{apply_update, resolve_notice, HotStateView}

-- Whitespace around, and decimals beyond the sixth cut.
read_trimmed : parse_scaled (text " 0.1234567 ") ≡ some 123_456
unfolding parse_scaled trim padded parse_unsigned split
read_trimmed = refl

written_short : format_scaled 1_500_000 ≡ text "1.5"
unfolding format_scaled to_decimal zero_padded
written_short = refl

abbrev levels : List PriceLevel
levels =
    record { price = text "0.5"; size = text "1" }
    ∷ record { price = text "0.48"; size = text "2" }
    ∷ []

abbrev best : HotBookLevel
best = record {
  price = record { exact = text "0.5"; units = 500_000 };
  size = record { exact = text "1"; units = 1_000_000 };
  price_ticks = none;
  size_lots = none;
}

best_there : best_level levels true none ≡ some best
unfolding best_level readable make_book_level hot_value parse_scaled trim padded parse_unsigned
    split reduce
best_there = refl

abbrev notice : Text → UpdateNotice
notice source_id = record {
  source_id = source_id;
  source_kind = polymarket_ws;
  subject = record { source_id = source_id; kind = asset; instrument_id = text "a" };
  kind = book_snapshot;
  version = 3;
  source_hash = none;
}

abbrev snapshot : BookSnapshotUpdate
snapshot = record {
  market_id = text "m";
  asset_id = text "a";
  bids = levels;
  asks = [];
  timestamp_ms = 5;
  source_hash = none;
}

abbrev store : HotStateStore
store =
    apply_book_snapshot_update (record { markets_by_asset = []; books = []; references = [] })
      (notice (text "s")) snapshot

abbrev again : ReconnectUpdate
again = record { sequence = 1; timestamp_ms = 9 }

abbrev update : NormalizedUpdate
update = record { notice = notice (text "s"); payload = of_book_snapshot snapshot }

resolve-announced_example :
    (view : HotStateView) × (resolve_notice (apply_update store update) (notice (text "s"))
      ≡ some view)
    × (notice_of view ≡ notice (text "s"))
resolve-announced_example = resolve-announced store update refl refl
