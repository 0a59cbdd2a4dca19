-- ===== src/Strategies.antt =====
-- The strategies of crates/pm-strategy/src/spread.rs and threshold.rs, and crates/pm-strategy/src/config.rs,
-- which builds them. Arithmetic on `f64` is an interface; reading a configuration from a file is left out.
pub mod Triggers
use rtt.Prelude.{
  ℕ, ◌+◌, Bool, true, false, not, List, [], ◌∷◌, ◌++◌, Option, none, some, Result, ok, err, ok_or,
  and_then, if◌then◌else◌,
}
use rtt.Order.{Text, text, text_ord, same}
use rtt.Safety.{wrap_u64}
use rtt.Trigger.{Side, buy, sell, OrderType, OrderBookSnapshot, PriceLevel, TriggerMessage}
use rtt.HotState.{option_then}
use rtt.Strategy.{
  StrategyRequirements, StrategyRuntimeView, Strategy, TriggerStrategy, bbo_requirement,
  trigger_requirements, shared_feed_acceptable, view_snapshot,
}

-- What the strategies use of `f64`: `parse`, the difference, `<` and `<=`.
pub record Float (F64 : Type 0) : Type 0 where
  pub parse_f64 : Text → Option F64
  pub minus : F64 → F64 → F64
  pub lt_f64 : F64 → F64 → Bool
  pub le_f64 : F64 → F64 → Bool

-- `SpreadStrategy` and `ThresholdStrategy`, which have the same fields: the limit is `max_spread` in the
-- one and `threshold` in the other. The epoch is left out.
pub record PriceStrategy (F64 : Type 0) : Type 0 where
  pub token_id : Text
  pub side : Side
  pub limit : F64
  pub size : Text
  pub order_type : OrderType
  pub next_trigger_id : ℕ

abbrev pub new_strategy : {F64 : Type 0} → Text → Side → F64 → Text → OrderType → PriceStrategy F64
new_strategy token_id side limit size order_type = record {
  token_id = token_id;
  side = side;
  limit = limit;
  size = size;
  order_type = order_type;
  next_trigger_id = 1;
}

unfoldable pub make_trigger :
    {F64 : Type 0} → PriceStrategy F64 → ℕ → Text → TriggerMessage × PriceStrategy F64
make_trigger s elapsed_ns price = (
  record {
    trigger_id = s.next_trigger_id;
    token_id = s.token_id;
    side = s.side;
    price = price;
    size = s.size;
    order_type = s.order_type;
    timestamp_ns = wrap_u64 elapsed_ns;
  },
  record s { next_trigger_id = wrap_u64 (s.next_trigger_id + 1) },
)

-- A trigger at a price, or none.
abbrev pub fire_at :
    {F64 : Type 0} → Option Text → PriceStrategy F64 → ℕ → Option TriggerMessage × PriceStrategy F64
fire_at none s elapsed_ns = (none, s)
fire_at (some price) s elapsed_ns =
    let (trigger, next) = make_trigger s elapsed_ns price in (some trigger, next)

abbrev price_on : Side → PriceLevel → PriceLevel → Text
price_on buy bid ask = ask.price
price_on sell bid ask = bid.price

pub data StrategyKind : Type 0 where
  spread threshold : StrategyKind

abbrev pub BuiltStrategy : Type 0 → Type 0
BuiltStrategy F64 = StrategyKind × PriceStrategy F64

-- `requirements`, the same in both.
abbrev pub bbo_requirements : {F64 : Type 0} → BuiltStrategy F64 → StrategyRequirements
bbo_requirements (kind, s) =
    trigger_requirements (bbo_requirement s.token_id ∷ []) shared_feed_acceptable

pub record StrategyParams (F64 : Type 0) : Type 0 where
  pub threshold : Option F64
  pub max_spread : Option F64

pub record StrategyConfig (F64 : Type 0) : Type 0 where
  pub strategy : Text
  pub token_id : Text
  pub side : Side
  pub size : Text
  pub order_type : OrderType
  pub params : StrategyParams F64

abbrev build_with : {F64 : Type 0} → StrategyConfig F64 → StrategyKind → F64 → BuiltStrategy F64
build_with config kind limit =
    (kind, new_strategy config.token_id config.side limit config.size config.order_type)

-- `build_strategy` and `build_trigger_strategy`, which build the same.
unfoldable pub build_strategy :
    {F64 : Type 0} → StrategyConfig F64 → Result Text (BuiltStrategy F64)
build_strategy config =
    if same config.strategy (text "threshold")
    then and_then
        (ok_or config.params.threshold (text "threshold strategy requires 'threshold' param"))
        (λ limit. ok (build_with config threshold limit))
    else if same config.strategy (text "spread")
    then and_then
        (ok_or config.params.max_spread (text "spread strategy requires 'max_spread' param"))
        (λ limit. ok (build_with config spread limit))
    else err (text "unknown strategy: " ++ config.strategy)

module _ {F64 : Type 0} (float : Float F64) where
  -- The price at which the strategy fires, if it does.
  unfoldable pub spread_price : PriceStrategy F64 → OrderBookSnapshot → Option Text
  spread_price s snapshot =
      if not (same snapshot.asset_id s.token_id)
      then none
      else option_then snapshot.best_bid (λ bid. option_then snapshot.best_ask (λ ask.
        option_then (float.parse_f64 bid.price) (λ bid_price.
          option_then (float.parse_f64 ask.price) (λ ask_price.
            if float.lt_f64 (float.minus ask_price bid_price) s.limit
            then some (price_on s.side bid ask)
            else none))))

  abbrev threshold_side : Side → F64 → OrderBookSnapshot → Option Text
  threshold_side buy limit snapshot = option_then snapshot.best_ask (λ ask.
      option_then (float.parse_f64 ask.price)
        (λ ask_price. if float.le_f64 ask_price limit then some ask.price else none))
  threshold_side sell limit snapshot = option_then snapshot.best_bid (λ bid.
      option_then (float.parse_f64 bid.price)
        (λ bid_price. if float.le_f64 limit bid_price then some bid.price else none))

  unfoldable pub threshold_price : PriceStrategy F64 → OrderBookSnapshot → Option Text
  threshold_price s snapshot =
      if not (same snapshot.asset_id s.token_id)
      then none
      else threshold_side s.side s.limit snapshot

  abbrev pub trigger_price : StrategyKind → PriceStrategy F64 → OrderBookSnapshot → Option Text
  trigger_price spread = spread_price
  trigger_price threshold = threshold_price

  -- `on_book_update`, once the price is known.
  unfoldable pub on_book_update :
      BuiltStrategy F64 → ℕ → OrderBookSnapshot → Option TriggerMessage × BuiltStrategy F64
  on_book_update (kind, s) elapsed_ns snapshot =
      let (trigger, next) = fire_at (trigger_price kind s snapshot) s elapsed_ns in
      (trigger, (kind, next))

  abbrev on_snapshot :
      BuiltStrategy F64 → ℕ → Option OrderBookSnapshot → Option TriggerMessage × BuiltStrategy F64
  on_snapshot s elapsed_ns none = (none, s)
  on_snapshot s elapsed_ns (some snapshot) = on_book_update s elapsed_ns snapshot

  unfoldable pub on_update :
      BuiltStrategy F64 → ℕ → StrategyRuntimeView → Option TriggerMessage × BuiltStrategy F64
  on_update s elapsed_ns view = on_snapshot s elapsed_ns (view_snapshot view s.1.token_id)

  abbrev pub price_strategy : Strategy (BuiltStrategy F64)
  price_strategy = record { on_book_update = on_book_update }

  abbrev pub price_trigger_strategy : TriggerStrategy (BuiltStrategy F64)
  price_trigger_strategy = record { requirements = bbo_requirements; on_update = on_update }
