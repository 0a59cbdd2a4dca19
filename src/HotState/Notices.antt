-- ===== src/HotState/Notices.antt =====
-- A notice leads to the state that its update left: crates/rtt-core/src/hot_state.rs.
use rtt.Prelude.{◌≡◌, refl, ap, true, false, Option, none, some, arith}
use rtt.Order.{Text, text_ord, pair_ord, same_self}
use rtt.BTreeMap.{BTreeMap, lookup, insert}
use rtt.BTreeMap.Lookup.{lookup-insert}
use rtt.Events.{
  UpdateNotice, UpdateKind, book_snapshot, book_delta, best_bid_ask, trade_tick, reference_price,
  tick_size_change, reconnect, source_status, NormalizedUpdate, NormalizedUpdatePayload,
  of_book_snapshot, of_book_delta, of_best_bid_ask, of_trade_tick, of_reference_price,
  of_tick_size_change, of_reconnect, of_source_status, BookDeltaUpdate,
}
use rtt.HotState.Store.{
  HotStateStore, HotStateKey, HotBookState, HotReferenceState, asset_key, from_subject, put,
  apply_if_registered,
}
use rtt.Trigger.{Side, buy, sell}
use rtt.HotState.Levels.{RegisteredMarket}
use rtt.HotState.Updates.{
  apply_side, apply_book_snapshot_update, apply_book_delta_update, apply_best_bid_ask_update,
  apply_tick_size_change_update,
}
use rtt.HotState.References.{
  apply_trade_tick_update, apply_reference_price_update, apply_source_status_update,
  apply_reconnect_update,
}
use rtt.HotState.Facade.{
  apply_update, HotStateView, book_view, reference_view, resolve_notice, resolve_book_notice,
  resolve_reference_notice, is_book_kind,
}

abbrev pub kind_of : NormalizedUpdatePayload → UpdateKind
kind_of (of_book_snapshot update) = book_snapshot
kind_of (of_book_delta update) = book_delta
kind_of (of_best_bid_ask update) = best_bid_ask
kind_of (of_trade_tick update) = trade_tick
kind_of (of_reference_price update) = reference_price
kind_of (of_tick_size_change update) = tick_size_change
kind_of (of_reconnect update) = reconnect
kind_of (of_source_status update) = source_status

-- The subject of an update of a book is its asset, at the source of the notice.
abbrev pub IsAbout : UpdateNotice → NormalizedUpdatePayload → Type 0
IsAbout notice (of_book_snapshot update) = notice.subject.instrument_id ≡ update.asset_id
IsAbout notice (of_book_delta update) = notice.subject.instrument_id ≡ update.asset_id
IsAbout notice (of_best_bid_ask update) = notice.subject.instrument_id ≡ update.asset_id
IsAbout notice (of_tick_size_change update) = notice.subject.instrument_id ≡ update.asset_id
IsAbout notice _ = Unit

abbrev pub notice_of : HotStateView → UpdateNotice
notice_of (book_view state) = state.notice
notice_of (reference_view state) = state.notice

-- The registered market and the side of a delta leave the notice of a book alone.
registered_stamp :
    (r : Option RegisteredMarket) (s : HotBookState)
    → ((apply_if_registered r s).version ≡ s.version)
      × ((apply_if_registered r s).notice ≡ s.notice)
registered_stamp none s = (refl, refl)
registered_stamp (some m) s = (refl, refl)

side_stamp :
    (delta : BookDeltaUpdate) (r : Option RegisteredMarket) (side : Side) (s : HotBookState)
    → ((apply_side delta r side s).version ≡ s.version)
      × ((apply_side delta r side s).notice ≡ s.notice)
side_stamp delta r buy s = (refl, refl)
side_stamp delta r sell s = (refl, refl)

module _ (store : HotStateStore) (notice : UpdateNotice) where
  resolve-put :
      (asset_id : Text) (state : HotBookState)
      → notice.subject.instrument_id ≡ asset_id
      → state.version ≡ notice.version
      → is_book_kind notice.kind ≡ true
      → resolve_notice (put store notice asset_id state) notice ≡ some (book_view state)
  unfolding resolve_notice resolve_book_notice
  resolve-put asset_id state h v k =
      let key = asset_key notice.source_id asset_id in
      ground (arith, lookup-insert key key state store.books, same_self key)

  resolve-insert :
      (state : HotReferenceState) (kept : BTreeMap HotStateKey HotReferenceState)
      (books : BTreeMap HotStateKey HotBookState)
      → state.version ≡ notice.version
      → is_book_kind notice.kind ≡ false
      → resolve_notice
          (record store {
            books = books;
            references = insert (from_subject notice.subject) state kept;
          })
          notice
        ≡ some (reference_view state)
  unfolding resolve_notice resolve_reference_notice
  resolve-insert state kept books v k =
      let key = from_subject notice.subject in
      ground (arith, lookup-insert key key state kept, same_self key)

  Announced : HotStateStore → Type 0
  Announced after =
      (view : HotStateView) × (resolve_notice after notice ≡ some view) × (notice_of view ≡ notice)

  Announced-book :
      (asset_id : Text) (state : HotBookState)
      → notice.subject.instrument_id ≡ asset_id
      → state.version ≡ notice.version
      → state.notice ≡ notice
      → is_book_kind notice.kind ≡ true
      → Announced (put store notice asset_id state)
  unfolding Announced
  Announced-book asset_id state h v n k = (book_view state, resolve-put asset_id state h v k, n)

  Announced-reference :
      (state : HotReferenceState) (kept : BTreeMap HotStateKey HotReferenceState)
      (books : BTreeMap HotStateKey HotBookState)
      → state.version ≡ notice.version
      → state.notice ≡ notice
      → is_book_kind notice.kind ≡ false
      → Announced (record store {
        books = books;
        references = insert (from_subject notice.subject) state kept;
      })
  unfolding Announced
  Announced-reference state kept books v n k =
      (reference_view state, resolve-insert state kept books v k, n)

  Announced-payload :
      (payload : NormalizedUpdatePayload)
      → notice.kind ≡ kind_of payload
      → IsAbout notice payload
      → Announced (apply_update store (record { notice = notice; payload = payload }))
  unfolding apply_update
  Announced-payload (of_book_snapshot update) k h =
      unfold apply_book_snapshot_update in
      Announced-book update.asset_id _ h
        (registered_stamp (lookup update.asset_id store.markets_by_asset) _).0
        (registered_stamp (lookup update.asset_id store.markets_by_asset) _).1 (ap is_book_kind k)
  Announced-payload (of_book_delta update) k h =
      unfold apply_book_delta_update in
      Announced-book update.asset_id _ h
        (side_stamp update (lookup update.asset_id store.markets_by_asset) update.side _).0
        (side_stamp update (lookup update.asset_id store.markets_by_asset) update.side _).1
        (ap is_book_kind k)
  Announced-payload (of_best_bid_ask update) k h =
      unfold apply_best_bid_ask_update in
      Announced-book update.asset_id _ h
        (registered_stamp (lookup update.asset_id store.markets_by_asset) _).0
        (registered_stamp (lookup update.asset_id store.markets_by_asset) _).1 (ap is_book_kind k)
  Announced-payload (of_tick_size_change update) k h =
      unfold apply_tick_size_change_update in
      Announced-book update.asset_id _ h refl refl (ap is_book_kind k)
  Announced-payload (of_trade_tick update) k h =
      unfold apply_trade_tick_update in
      Announced-reference _ store.references store.books refl refl (ap is_book_kind k)
  Announced-payload (of_reference_price update) k h =
      unfold apply_reference_price_update in
      Announced-reference _ store.references store.books refl refl (ap is_book_kind k)
  Announced-payload (of_source_status update) k h =
      unfold apply_source_status_update in
      Announced-reference _ store.references store.books refl refl (ap is_book_kind k)
  Announced-payload (of_reconnect update) k h =
      unfold apply_reconnect_update in Announced-reference _ _ _ refl refl (ap is_book_kind k)

-- An update is read back through its own notice: when the notice has the kind of the payload and, for
-- a book, names its asset, then after the update the notice resolves to a state, and that state carries
-- this very notice, whatever the store held before.
pub resolve-announced :
    (store : HotStateStore) (update : NormalizedUpdate)
    → update.notice.kind ≡ kind_of update.payload
    → IsAbout update.notice update.payload
    → (view : HotStateView) × (resolve_notice (apply_update store update) update.notice ≡ some view)
      × (notice_of view ≡ update.notice)
resolve-announced store update k h =
    unfold Announced in Announced-payload store update.notice update.payload k h
