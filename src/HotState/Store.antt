-- ===== src/HotState/Store.antt =====
-- The `HotStateStore` of crates/rtt-core/src/hot_state.rs. The lock around the store is left out: one
-- call at a time.
use rtt.Prelude.{ℕ, Bool, true, false, Option, none, some, [], ◌∷◌}
use rtt.Order.{Text, text, text_ord, pair_ord}
use rtt.BTreeMap.{BTreeMap, insert}
use rtt.Events.{InstrumentRef, kind_text, UpdateNotice}
use rtt.HotState.{HotStateValue, option_then}
use rtt.HotState.Levels.{
  RegisteredMarket, HotBookLevel, midpoint_for_levels, refresh_book_level_units,
}

pub record HotBookState : Type 0 where
  pub notice : UpdateNotice
  pub market_id : Option Text
  pub asset_id : Text
  pub best_bid : Option HotBookLevel
  pub best_ask : Option HotBookLevel
  pub midpoint : Option HotStateValue
  pub tick_size : Option Text
  pub tick_size_units : Option ℕ
  pub lot_size : Option Text
  pub lot_size_units : Option ℕ
  pub version : ℕ
  pub timestamp_ms : ℕ
  pub source_hash : Option Text

pub record HotReferenceState : Type 0 where
  pub notice : UpdateNotice
  pub reference_price : Option HotStateValue
  pub best_bid : Option HotStateValue
  pub best_ask : Option HotStateValue
  pub last_trade_price : Option HotStateValue
  pub last_trade_size : Option HotStateValue
  pub healthy : Option Bool
  pub stale_after_ms : Option ℕ
  pub observed_at_ms : Option ℕ
  pub reconnect_sequence : Option ℕ
  pub version : ℕ
  pub timestamp_ms : ℕ

-- The source, the kind of the instrument as text, and the instrument.
abbrev pub HotStateKey : Type 0
HotStateKey = Text × (Text × Text)

abbrev pub from_subject : InstrumentRef → HotStateKey
from_subject subject = (subject.source_id, (kind_text subject.kind, subject.instrument_id))

abbrev pub asset_key : Text → Text → HotStateKey
asset_key source_id asset_id = (source_id, (text "Asset", asset_id))

pub record HotStateStore : Type 0 where
  pub markets_by_asset : BTreeMap Text RegisteredMarket
  pub books : BTreeMap HotStateKey HotBookState
  pub references : BTreeMap HotStateKey HotReferenceState

abbrev pub is_empty_text : Text → Bool
is_empty_text [] = true
is_empty_text (c ∷ s) = false

abbrev pub field {ℓ} : {A : Type ℓ} → Option RegisteredMarket → (RegisteredMarket → A) → Option A
field none get = none
field (some registered) get = some (get registered)

abbrev pub with_midpoint : HotBookState → HotBookState
with_midpoint state = record state { midpoint = midpoint_for_levels state.best_bid state.best_ask }

abbrev pub apply_registered_market : HotBookState → RegisteredMarket → HotBookState
apply_registered_market state registered = record state {
  market_id = some registered.market_id;
  tick_size = some registered.tick_size;
  tick_size_units = some registered.tick_size_units;
  lot_size = registered.lot_size;
  lot_size_units = registered.lot_size_units;
  best_bid =
      refresh_book_level_units state.best_bid (some registered.tick_size_units)
        registered.lot_size_units;
  best_ask =
      refresh_book_level_units state.best_ask (some registered.tick_size_units)
        registered.lot_size_units;
}

abbrev pub apply_if_registered : Option RegisteredMarket → HotBookState → HotBookState
apply_if_registered none state = state
apply_if_registered (some registered) state = apply_registered_market state registered

-- The state that an update starts from when there is no book yet.
abbrev pub fresh_book :
    UpdateNotice → Option RegisteredMarket → Text → Text → ℕ → Option Text → HotBookState
fresh_book notice registered market_id asset_id timestamp_ms source_hash = record {
  notice = notice;
  market_id = some market_id;
  asset_id = asset_id;
  best_bid = none;
  best_ask = none;
  midpoint = none;
  tick_size = field registered (λ m. m.tick_size);
  tick_size_units = field registered (λ m. m.tick_size_units);
  lot_size = option_then registered (λ m. m.lot_size);
  lot_size_units = option_then registered (λ m. m.lot_size_units);
  version = notice.version;
  timestamp_ms = timestamp_ms;
  source_hash = source_hash;
}

abbrev pub put : HotStateStore → UpdateNotice → Text → HotBookState → HotStateStore
put store notice asset_id state = record store {
  books = insert (asset_key notice.source_id asset_id) state store.books;
}
