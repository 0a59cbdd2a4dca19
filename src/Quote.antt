-- ===== src/Quote.antt =====
-- crates/pm-strategy/src/quote.rs: what a quote strategy wants to rest on the exchange.
use rtt.Prelude.{List, [], ◌∷◌}
use rtt.Order.{Text}
use rtt.Trigger.{Side, OrderType}

abbrev pub QuoteId : Type 0
QuoteId = Text

pub record DesiredQuote : Type 0 where
  pub quote_id : QuoteId
  pub asset_id : Text
  pub side : Side
  pub price : Text
  pub size : Text
  pub order_type : OrderType

pub record DesiredQuotes : Type 0 where
  pub quotes : List DesiredQuote

abbrev pub single : DesiredQuote → DesiredQuotes
single quote = record { quotes = quote ∷ [] }
