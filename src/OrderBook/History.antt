-- ===== src/OrderBook/History.antt =====
-- The books of crates/pm-data/src/orderbook.rs against what the messages say.
use rtt.Prelude.{
  ◌≡◌, refl, ap, sym, ◌∙◌, Bool, ◌&&◌, ◌||◌, Option, none, some, List, [], ◌∷◌, if◌then◌else◌,
  arith, Option-cases, inl, inr, unwrap_or,
}
use rtt.Order.{Text, text, text_ord, same}
use rtt.BTreeMap.{lookup}
use rtt.BTreeMap.Lookup.{lookup-remove}
use rtt.BTreeMap.Sorted.{All-lookup}
use rtt.Trigger.{Side, buy, sell, side_eq, PriceLevel, OrderBookSnapshot}
use rtt.OrderBook.{
  apply_levels, is_zero, best_bid, best_ask, BookState, BookUpdate, apply_snapshot,
  OrderBookManager, new_book, apply_book_update, clear_asset, to_snapshot, get_snapshot,
}
use rtt.OrderBook.Ladder.{
  ◌≼◌, last_size, first-least, last-greatest, lookup-first, lookup-last, lookup-insert_levels,
}
use rtt.OrderBook.Books.{
  Update, book_update, price_change, reconnected, dropped, apply, history, history-IsValid,
  lookup-update_book, size_at, level_in, level_in-if, price_change-size_at, ladder_of,
}

abbrev levels_of : Side → BookUpdate → List PriceLevel
levels_of buy update = update.bids
levels_of sell update = update.asks

-- The three texts of a zero that take a level out.
abbrev is_written_zero : Text → Bool
is_written_zero size = same size (text "0") || same size (text "0.0") || same size (text "0.00")

-- What a message makes of the size of an asset on a side at a price: a full book names all sizes of its
-- asset, a price change the one at its price, and a lost connection or a dropped asset leaves none.
abbrev pub said : Text → Side → Text → Update → Option Text → Option Text
said asset_id side p (book_update update) size =
    if same asset_id update.asset_id then last_size p (levels_of side update) none else size
said asset_id side p (price_change entry t) size =
    if same asset_id entry.asset_id && (same p entry.price && side_eq side entry.side)
    then (if is_written_zero (unwrap_or entry.size (text "0")) then none else entry.size)
    else size
said asset_id side p reconnected size = none
said asset_id side p (dropped id) size = if same asset_id id then none else size

abbrev said_by : Text → Side → Text → List Update → Option Text → Option Text
said_by asset_id side p [] size = size
said_by asset_id side p (update ∷ updates) size =
    said_by asset_id side p updates (said asset_id side p update size)

-- What messages say from no books at all.
abbrev pub written : Text → Side → Text → List Update → Option Text
written asset_id side p updates = said_by asset_id side p updates none

snapshot-size :
    (side : Side) (p : Text) (update : BookUpdate) (book : BookState)
    → lookup p (ladder_of side (apply_snapshot book update))
      ≡ last_size p (levels_of side update) none
unfolding apply_snapshot apply_levels
snapshot-size buy p update book = lookup-insert_levels p update.bids [] ∙ (unfold lookup in refl)
snapshot-size sell p update book = lookup-insert_levels p update.asks [] ∙ (unfold lookup in refl)

module _ (asset_id : Text) (side : Side) (p : Text) where
  apply-said :
      (books : OrderBookManager) (update : Update)
      → size_at asset_id side p (apply books update)
        ≡ said asset_id side p update (size_at asset_id side p books)
  apply-said books (book_update update) =
      let there = same asset_id update.asset_id in
      let book = unwrap_or (lookup update.asset_id books) (new_book update.asset_id) in
      let change : BookState → BookState = λ b. apply_snapshot b update in
      unfold apply_book_update in
      (ap (level_in side p) (lookup-update_book asset_id update.asset_id change books)
        ∙ level_in-if side p there (some (apply_snapshot book update)) (lookup asset_id books)
        ∙ ap (λ (o : Option Text). if there then o else size_at asset_id side p books)
            (snapshot-size side p update book))
  apply-said books (price_change entry t) =
      price_change-size_at books entry t asset_id p side ∙ (unfold is_zero in refl)
  apply-said books reconnected = unfold lookup in refl
  apply-said books (dropped id) =
      unfold clear_asset in
      (ap (level_in side p) (lookup-remove asset_id id books)
        ∙ level_in-if side p (same asset_id id) none (lookup asset_id books))

  history-said :
      (books : OrderBookManager) (updates : List Update)
      → size_at asset_id side p (history books updates)
        ≡ said_by asset_id side p updates (size_at asset_id side p books)
  unfolding history
  history-said books [] = refl
  history-said books (update ∷ updates) =
      history-said (apply books update) updates
      ∙ ap (said_by asset_id side p updates) (apply-said books update)

  history-written :
      (updates : List Update)
      → size_at asset_id side p (history [] updates) ≡ written asset_id side p updates
  history-written updates = history-said [] updates ∙ (unfold lookup in refl)

get_snapshot-found :
    (books : OrderBookManager) (asset_id : Text) (book : BookState)
    → lookup asset_id books ≡ some book
    → get_snapshot books asset_id ≡ some (to_snapshot book)
unfolding get_snapshot
get_snapshot-found books asset_id book h = ground (arith, h)

-- After any messages, from no books at all, that leave a bid and an ask of an asset written: its snapshot has
-- a best bid and a best ask; each is a level that the messages leave written, with the size that they say;
-- and no written bid has a greater price, and no written ask a lesser one, as texts.
pub history-best :
    (updates : List Update) (asset_id p s q t : Text)
    → written asset_id buy p updates ≡ some s
    → written asset_id sell q updates ≡ some t
    → (snapshot : OrderBookSnapshot) × (bid : PriceLevel) × (ask : PriceLevel) × (get_snapshot
          (history [] updates)
          asset_id
        ≡ some snapshot)
      × (snapshot.best_bid ≡ some bid)
      × (snapshot.best_ask ≡ some ask)
      × (written asset_id buy bid.price updates ≡ some bid.size)
      × (written asset_id sell ask.price updates ≡ some ask.size)
      × (p ≼ bid.price)
      × (ask.price ≼ q)
history-best updates asset_id p s q t b a =
    let books = history [] updates in
    elim (Option-cases (lookup asset_id books)) [
      | inl e ↦ ground (arith, e, b, history-written asset_id buy p updates)
      | inr (book, e) ↦
          let valid = All-lookup _ asset_id book books (history-IsValid [] updates tt) e in
          let seen : (side : Side) (p : Text)
              → lookup p (ladder_of side book) ≡ written asset_id side p updates =
            λ side p. ap (level_in side p) (sym e) ∙ history-written asset_id side p updates in
          let (hi, e1, le) = last-greatest book.bids p s valid.0 (seen buy p ∙ b) in
          let (lo, e2, ge) = first-least book.asks q t valid.1 (seen sell q ∙ a) in
          (
            to_snapshot book,
            record { price = hi.0; size = hi.1 },
            record { price = lo.0; size = lo.1 },
            get_snapshot-found books asset_id book e,
            unfold to_snapshot best_bid in rw e1 refl,
            unfold to_snapshot best_ask in rw e2 refl,
            sym (seen buy hi.0) ∙ lookup-last book.bids hi valid.0 e1,
            sym (seen sell lo.0) ∙ lookup-first book.asks lo e2,
            le,
            ge,
          )
    ]
