-- ===== src/HotState/Values.antt =====
-- The best level and the midpoint of a book, and the books that a store keeps:
-- crates/rtt-core/src/hot_state.rs.
use rtt.Prelude.{
  ◌≡◌, subst, Bool, true, false, not, Option, none, some, List, [], ◌∷◌, All, if◌then◌else◌, arith,
}
use rtt.Order.{Text, text_ord, pair_ord, same}
use rtt.BTreeMap.Lookup.{lookup-retain}
use rtt.Trigger.{PriceLevel}
use rtt.HotState.Levels.{
  RegisteredMarket, HotBookLevel, readable, beats, reduce, reduced, best_level,
}
use rtt.Events.{ReconnectUpdate, UpdateNotice}
use rtt.HotState.Store.{HotStateKey, asset_key, HotStateStore}
use rtt.HotState.References.{apply_reconnect_update}
use rtt.HotState.Facade.{book_state}

beats_next :
    (take_max : Bool) (current l best : HotBookLevel)
    → beats take_max (if beats take_max l current then l else current) best ≡ false
    → (beats take_max current best ≡ false) × (beats take_max l best ≡ false)
beats_next true current l best h = ground arith
beats_next false current l best h = ground arith

beats_self : (take_max : Bool) (l : HotBookLevel) → beats take_max l l ≡ false
beats_self true l = ground arith
beats_self false l = ground arith

reduce-best :
    (take_max : Bool) (current : HotBookLevel) (ls : List HotBookLevel)
    → let best = reduce take_max current ls in
      (beats take_max current best ≡ false) × All (λ l. beats take_max l best ≡ false) ls
unfolding reduce
reduce-best take_max current [] = (beats_self take_max current, tt)
reduce-best take_max current (l ∷ ls) =
    let next = if beats take_max l current then l else current in
    let rest = reduce-best take_max next ls in
    let both = beats_next take_max current l (reduce take_max next ls) rest.0 in
    (both.0, (both.1, rest.1))

-- A snapshot of a book keeps the best of its readable levels: no level whose price and size can be read
-- has a higher bid price, or a lower ask price, than the one kept, by value and not by text.
pub best_level-best :
    (levels : List PriceLevel) (take_max : Bool) (registered : Option RegisteredMarket)
    (best : HotBookLevel)
    → best_level levels take_max registered ≡ some best
    → All (λ l. beats take_max l best ≡ false) (readable levels registered)
unfolding best_level
best_level-best levels take_max registered best h = go (readable levels registered) h
  where
    go :
        (ls : List HotBookLevel)
        → reduced take_max ls ≡ some best
        → All (λ l. beats take_max l best ≡ false) ls
    go [] e = tt
    go (l ∷ ls) e =
        let rest = reduce-best take_max l ls in
        let same_best : reduce take_max l ls ≡ best = ground (arith, e) in
        subst (λ b. All (λ l. beats take_max l b ≡ false) (l ∷ ls)) same_best rest

-- After a reconnect of a source the store has no book of that source, and every other book is as it
-- was: a strategy never reads a book from before the reconnect.
pub reconnect-book_state :
    (store : HotStateStore) (notice : UpdateNotice) (update : ReconnectUpdate)
    (source_id asset_id : Text)
    → book_state (apply_reconnect_update store notice update) source_id asset_id
      ≡ (if same source_id notice.source_id then none else book_state store source_id asset_id)
unfolding book_state apply_reconnect_update
reconnect-book_state store notice update source_id asset_id =
    let elsewhere : HotStateKey → Bool = λ key. not (same key.0 notice.source_id) in
    ground (arith, lookup-retain elsewhere (asset_key source_id asset_id) store.books)
