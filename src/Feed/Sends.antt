-- ===== src/Feed/Sends.antt =====
-- What a receiver of the channels of crates/pm-data/src/feed.rs can know of the books.
use rtt.Prelude.{
  ◌≡◌, refl, ◌∙◌, inl, inr, Bool, true, false, Option, none, some, List, [], ◌∷◌, ◌++◌, unwrap_or,
  arith, Option-cases, Bool-cases, if◌then◌else◌,
}
use rtt.Order.{Text, text_ord, same, eq_of_same}
use rtt.BTreeMap.{lookup}
use rtt.BTreeMap.Lookup.{lookup-insert}
use rtt.Trigger.{OrderBookSnapshot}
use rtt.Events.{UpdateKind, reconnect}
use rtt.OrderBook.{BookState, new_book, OrderBookManager, to_snapshot, update_book, get_snapshot}
use rtt.Feed.{Sent, sent_update, sent_notice, sent_snapshot}

abbrev pub is_reconnect : UpdateKind → Bool
is_reconnect reconnect = true
is_reconnect _ = false

-- A receiver's view of one asset: the last snapshot of it since the last notice of a reconnection.
abbrev pub see_sent : Text → Sent → Option OrderBookSnapshot → Option OrderBookSnapshot
see_sent a (sent_update update) view = view
see_sent a (sent_notice notice) view = if is_reconnect notice.kind then none else view
see_sent a (sent_snapshot snapshot) view = if same a snapshot.asset_id then some snapshot else view

abbrev pub view_of : Text → List Sent → Option OrderBookSnapshot → Option OrderBookSnapshot
view_of a [] view = view
view_of a (sent ∷ sends) view = view_of a sends (see_sent a sent view)

pub view_of-append :
    (a : Text) (xs ys : List Sent) (view : Option OrderBookSnapshot)
    → view_of a (xs ++ ys) view ≡ view_of a ys (view_of a xs view)
view_of-append a [] ys view = refl
view_of-append a (x ∷ xs) ys view = view_of-append a xs ys (see_sent a x view)

-- Every book stands under the name of its asset.
abbrev pub Keyed : OrderBookManager → Type 0
Keyed books = (a : Text) (book : BookState) → lookup a books ≡ some book → book.asset_id ≡ a

abbrev pub SameName : (BookState → BookState) → Type 0
SameName f = (book : BookState) → (f book).asset_id ≡ book.asset_id

abbrev pub updated : Text → (BookState → BookState) → OrderBookManager → BookState
updated x f books = f (unwrap_or (lookup x books) (new_book x))

lookup-update_book :
    (a x : Text) (f : BookState → BookState) (books : OrderBookManager)
    → lookup a (update_book x f books)
      ≡ (if same a x then some (updated x f books) else lookup a books)
unfolding update_book
lookup-update_book a x f books = lookup-insert a x (updated x f books) books

pub updated-name :
    (x : Text) (f : BookState → BookState) (books : OrderBookManager)
    → SameName f
    → Keyed books
    → (updated x f books).asset_id ≡ x
updated-name x f books same_name keyed =
    let old = unwrap_or (lookup x books) (new_book x) in
    let named : old.asset_id ≡ x = elim (Option-cases (lookup x books)) [
      | inl e ↦ rw e refl
      | inr (book, e) ↦ rw e (keyed x book e)
    ] in
    same_name old ∙ named

pub update_book-Keyed :
    (x : Text) (f : BookState → BookState) (books : OrderBookManager)
    → SameName f
    → Keyed books
    → Keyed (update_book x f books)
update_book-Keyed x f books same_name keyed a book e =
    let at = lookup-update_book a x f books in
    elim (Bool-cases (same a x)) [
      | inl same_asset ↦
          ground (arith, at, e, updated-name x f books same_name keyed, eq_of_same a x)
      | inr other ↦ ground (arith, at, e, keyed a book)
    ]

pub get_snapshot-update_book :
    (a x : Text) (f : BookState → BookState) (books : OrderBookManager)
    → get_snapshot (update_book x f books) a
      ≡ (if same a x then some (to_snapshot (updated x f books)) else get_snapshot books a)
unfolding get_snapshot
get_snapshot-update_book a x f books =
    let at = lookup-update_book a x f books in
    elim (Bool-cases (same a x)) [
      | inl same_asset ↦ ground (arith, at)
      | inr other ↦ ground (arith, at)
    ]
