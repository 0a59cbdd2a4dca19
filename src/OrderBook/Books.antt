-- ===== src/OrderBook/Books.antt =====
-- The books of crates/pm-data/src/orderbook.rs over a history of messages.
use rtt.Prelude.{
  ℕ, ◌≡◌, refl, Bool, true, false, ◌&&◌, inl, inr, Option, none, some, List, [], ◌∷◌, All,
  if◌then◌else◌, arith, Bool-cases, Option-cases, ap, ◌∙◌, unwrap_or,
}
use rtt.Order.{Text, text, text_ord, same, same_self, eq_of_same}
use rtt.BTreeMap.{IsSorted, lookup}
use rtt.BTreeMap.Lookup.{lookup-insert}
use rtt.BTreeMap.Sorted.{All-insert, All-remove, All-lookup}
use rtt.Trigger.{Side, buy, sell, side_eq}
use rtt.OrderBook.{
  PriceLadder, apply_levels, is_zero, BookState, BookUpdate, PriceChangeBatchEntry, apply_snapshot,
  apply_delta, OrderBookManager, update_book, new_book, apply_book_update, apply_price_change,
  clear_asset, clear_all,
}
use rtt.OrderBook.Ladder.{upsert-IsSorted, insert_levels-IsSorted, lookup-upsert}

-- What changes the books.
pub data Update : Type 0 where
  book_update : BookUpdate → Update
  price_change : PriceChangeBatchEntry → ℕ → Update
  reconnected : Update
  dropped : Text → Update

abbrev pub apply : OrderBookManager → Update → OrderBookManager
apply books (book_update update) = apply_book_update books update
apply books (price_change entry timestamp_ms) = apply_price_change books entry timestamp_ms
apply books reconnected = clear_all books
apply books (dropped asset_id) = clear_asset books asset_id

unfoldable pub history : OrderBookManager → List Update → OrderBookManager
history books [] = books
history books (update ∷ updates) = history (apply books update) updates

abbrev pub ladder_of : Side → BookState → PriceLadder
ladder_of buy book = book.bids
ladder_of sell book = book.asks

-- Both ladders are sorted, and the book stands under its own asset.
abbrev pub IsValid : Text × BookState → Type 0
IsValid (asset_id, book) = IsSorted book.bids × IsSorted book.asks × (book.asset_id ≡ asset_id)

apply_snapshot-IsValid :
    (book : BookState) (update : BookUpdate) (asset_id : Text)
    → IsValid (asset_id, book)
    → IsValid (asset_id, apply_snapshot book update)
unfolding apply_snapshot apply_levels
apply_snapshot-IsValid book update asset_id h =
    (insert_levels-IsSorted update.bids [] tt, insert_levels-IsSorted update.asks [] tt, h.2)

apply_delta-IsValid :
    (book : BookState) (entry : PriceChangeBatchEntry) (t : ℕ) (asset_id : Text)
    → IsValid (asset_id, book)
    → IsValid (asset_id, apply_delta book entry t)
unfolding apply_delta
apply_delta-IsValid book entry t asset_id h =
    let size = unwrap_or entry.size (text "0") in
    ground (
      arith,
      upsert-IsSorted book.bids entry.price size,
      upsert-IsSorted book.asks entry.price size,
    )

update_book-IsValid :
    (asset_id : Text) (f : BookState → BookState) (books : OrderBookManager)
    → ((book : BookState) → IsValid (asset_id, book) → IsValid (asset_id, f book))
    → All IsValid books
    → All IsValid (update_book asset_id f books)
unfolding update_book
update_book-IsValid asset_id f books keeps h =
    let book = unwrap_or (lookup asset_id books) (new_book asset_id) in
    let before : IsValid (asset_id, book) = elim (Option-cases (lookup asset_id books)) [
      | inl e ↦ ground (arith, e)
      | inr (b, e) ↦ rw e (All-lookup IsValid asset_id b books h e)
    ] in
    All-insert IsValid asset_id (f book) books (keeps book before) h

-- Every history of messages keeps the books well formed: the ladders sorted by price, each price in
-- them once, and each book under its own asset.
pub history-IsValid :
    (books : OrderBookManager) (updates : List Update)
    → All IsValid books
    → All IsValid (history books updates)
unfolding history
history-IsValid books [] h = h
history-IsValid books (book_update update ∷ updates) h =
    history-IsValid (apply_book_update books update) updates (
      unfold apply_book_update in
      update_book-IsValid update.asset_id (λ book. apply_snapshot book update) books
        (λ book. apply_snapshot-IsValid book update update.asset_id) h)
history-IsValid books (price_change entry t ∷ updates) h =
    history-IsValid (apply_price_change books entry t) updates (
      unfold apply_price_change in
      update_book-IsValid entry.asset_id (λ book. apply_delta book entry t) books
        (λ book. apply_delta-IsValid book entry t entry.asset_id) h)
history-IsValid books (reconnected ∷ updates) h = history-IsValid [] updates tt
history-IsValid books (dropped asset_id ∷ updates) h =
    history-IsValid (clear_asset books asset_id) updates
      (unfold clear_asset in All-remove IsValid asset_id books h)

pub lookup-update_book :
    (p asset_id : Text) (f : BookState → BookState) (books : OrderBookManager)
    → lookup p (update_book asset_id f books) ≡ (
        if same p asset_id
        then some (f (unwrap_or (lookup asset_id books) (new_book asset_id)))
        else lookup p books)
unfolding update_book
lookup-update_book p asset_id f books =
    lookup-insert p asset_id (f (unwrap_or (lookup asset_id books) (new_book asset_id))) books

-- The size at a price, on a side of a book, if there is one.
abbrev pub level_in : Side → Text → Option BookState → Option Text
level_in side p none = none
level_in side p (some book) = lookup p (ladder_of side book)

abbrev pub size_at : Text → Side → Text → OrderBookManager → Option Text
size_at asset_id side p books = level_in side p (lookup asset_id books)

lookup-apply_delta :
    (book : BookState) (entry : PriceChangeBatchEntry) (now : ℕ) (side : Side) (p : Text)
    → lookup p (ladder_of side (apply_delta book entry now)) ≡ (
        if same p entry.price && side_eq side entry.side
        then (if is_zero (unwrap_or entry.size (text "0")) then none else entry.size)
        else lookup p (ladder_of side book))
unfolding apply_delta
lookup-apply_delta book entry now side p =
    let size = unwrap_or entry.size (text "0") in
    let missing : is_zero (text "0") ≡ true =
      unfold is_zero in ground (arith, same_self (text "0")) in
    ground (
      arith,
      missing,
      lookup-upsert p book.bids entry.price size,
      lookup-upsert p book.asks entry.price size,
    )

pub level_in-if :
    (side : Side) (p : Text) (b : Bool) (x y : Option BookState)
    → level_in side p (if b then x else y) ≡ (if b then level_in side p x else level_in side p y)
level_in-if side p true x y = refl
level_in-if side p false x y = refl

-- A ladder of a new book has no level.
pub level_in_first :
    (asset_id p : Text) (side : Side) (found : Option BookState)
    → lookup p (ladder_of side (unwrap_or found (new_book asset_id))) ≡ level_in side p found
unfolding lookup
level_in_first asset_id p buy none = refl
level_in_first asset_id p sell none = refl
level_in_first asset_id p side (some book) = refl

-- A price change sets the size at its price on its side of its asset's book, or takes the level out if
-- the size is a written zero or missing; every other level of that book and every other book stay.
pub price_change-size_at :
    (books : OrderBookManager) (entry : PriceChangeBatchEntry) (now : ℕ) (asset_id p : Text)
    (side : Side)
    → size_at asset_id side p (apply_price_change books entry now) ≡ (
        if same asset_id entry.asset_id && (same p entry.price && side_eq side entry.side)
        then (if is_zero (unwrap_or entry.size (text "0")) then none else entry.size)
        else size_at asset_id side p books)
unfolding apply_price_change
price_change-size_at books entry now asset_id p side =
    let found = lookup entry.asset_id books in
    let book = unwrap_or found (new_book entry.asset_id) in
    let there = same asset_id entry.asset_id in
    let after = some (apply_delta book entry now) in
    let change : BookState → BookState = λ b. apply_delta b entry now in
    let set =
      ap (level_in side p) (lookup-update_book asset_id entry.asset_id change books)
      ∙ level_in-if side p there after (lookup asset_id books) in
    elim (Bool-cases there) [
      | inl e ↦ ground (
        arith,
        set,
        eq_of_same asset_id entry.asset_id e,
        lookup-apply_delta book entry now side p,
        level_in_first entry.asset_id p side found,
      )
      | inr e ↦ ground (arith, set, e)
    ]
