-- ===== src/HotState/Levels.antt =====
-- The levels of a book in crates/rtt-core/src/hot_state.rs: the best one, and the midpoint.
use rtt.Prelude.{
  ℕ, ◌+◌, ◌/◌, Bool, true, false, Option, none, some, List, [], ◌∷◌, leb, ltb, if◌then◌else◌,
}
use rtt.Order.{Text}
use rtt.Trigger.{PriceLevel}
use rtt.Safety.{wrap_u64}
use rtt.HotState.{HotStateValue, hot_value, option_then, parse_scaled, ticks_for, format_scaled}

pub record RegisteredMarket : Type 0 where
  pub market_id : Text
  pub tick_size : Text
  pub tick_size_units : ℕ
  pub lot_size : Option Text
  pub lot_size_units : Option ℕ

pub record HotBookLevel : Type 0 where
  pub price : HotStateValue
  pub size : HotStateValue
  pub price_ticks : Option ℕ
  pub size_lots : Option ℕ

abbrev pub steps : Option RegisteredMarket → (RegisteredMarket → Option ℕ) → Text → Option ℕ
steps registered step value =
    option_then registered
      (λ market. option_then (parse_scaled value) (λ units. ticks_for units (step market)))

unfoldable pub make_book_level : Text → Text → Option RegisteredMarket → Option HotBookLevel
make_book_level price size registered = option_then (hot_value price) (λ p.
    option_then (hot_value size) (λ s. some (record {
      price = p;
      size = s;
      price_ticks = steps registered (λ market. some market.tick_size_units) price;
      size_lots = steps registered (λ market. market.lot_size_units) size;
    })))

-- `filter_map(make_book_level)`.
unfoldable pub readable : List PriceLevel → Option RegisteredMarket → List HotBookLevel
readable [] registered = []
readable (level ∷ levels) registered = elim (make_book_level level.price level.size registered) [
  | none ↦ readable levels registered
  | some l ↦ l ∷ readable levels registered
]

abbrev pub beats : Bool → HotBookLevel → HotBookLevel → Bool
beats true candidate current = ltb current.price.units candidate.price.units
beats false candidate current = ltb candidate.price.units current.price.units

-- `reduce`, from its first element on.
unfoldable pub reduce : Bool → HotBookLevel → List HotBookLevel → HotBookLevel
reduce take_max current [] = current
reduce take_max current (candidate ∷ levels) =
    reduce take_max (if beats take_max candidate current then candidate else current) levels

abbrev pub reduced : Bool → List HotBookLevel → Option HotBookLevel
reduced take_max [] = none
reduced take_max (l ∷ ls) = some (reduce take_max l ls)

unfoldable pub best_level : List PriceLevel → Bool → Option RegisteredMarket → Option HotBookLevel
best_level levels take_max registered = reduced take_max (readable levels registered)

-- The sum of the two `u64` prices wraps in the release profile.
unfoldable pub midpoint_for_levels :
    Option HotBookLevel → Option HotBookLevel → Option HotStateValue
midpoint_for_levels best_bid best_ask = option_then best_bid (λ bid. option_then best_ask (λ ask.
    let units = wrap_u64 (bid.price.units + ask.price.units) / 2 in
    some (record { exact = format_scaled units; units = units })))

unfoldable pub updates_best_side : Option HotBookLevel → Option HotBookLevel → Bool → Bool
updates_best_side current none take_max = false
updates_best_side none (some candidate) take_max = true
updates_best_side (some current) (some candidate) true =
    leb current.price.units candidate.price.units
updates_best_side (some current) (some candidate) false =
    leb candidate.price.units current.price.units

abbrev pub refresh_book_level_units :
    Option HotBookLevel → Option ℕ → Option ℕ → Option HotBookLevel
refresh_book_level_units none tick_size_units lot_size_units = none
refresh_book_level_units (some level) tick_size_units lot_size_units = some (record level {
  price_ticks = ticks_for level.price.units tick_size_units;
  size_lots = ticks_for level.size.units lot_size_units;
})
