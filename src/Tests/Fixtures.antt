-- ===== src/Tests/Fixtures.antt =====
-- The quotes, fills and snapshots of the unit tests of crates/pm-executor.
use rtt.Prelude.{ℕ, Bool, none, some, List, [], ◌∷◌}
use rtt.Order.{Text, text}
use rtt.Trigger.{buy, gtc}
use rtt.Quote.{DesiredQuote, DesiredQuotes}
use rtt.OrderState.{
  WorkingQuote, WorkingQuoteState, ExchangeObservedQuote, ExchangeObservedQuoteState,
}
use rtt.OrderManager.{LocalOrderManager, default_policy, new, ExchangeSyncSnapshot, ExchangeFill}

abbrev pub desired_quote : Text → Text → Text → DesiredQuote
desired_quote id price size = record {
  quote_id = id;
  asset_id = text "token_abc";
  side = buy;
  price = price;
  size = size;
  order_type = gtc;
}

abbrev pub quote_in : WorkingQuoteState → Text → Text → Text → ℕ → WorkingQuote
quote_in state id price size last_command_ms = record {
  quote_id = id;
  asset_id = text "token_abc";
  side = buy;
  price = price;
  size = size;
  order_type = gtc;
  state = state;
  client_order_id = some (text "client");
  created_at_ms = 1_000;
  last_update_ms = 1_100;
  last_command_ms = some last_command_ms;
  last_exchange_observed_ms = none;
}

abbrev pub working_quote : Text → Text → Text → ℕ → WorkingQuote
working_quote = quote_in WorkingQuoteState.working

abbrev pub manager : LocalOrderManager
manager = new default_policy

abbrev pub three_working : List WorkingQuote
three_working =
    working_quote (text "quote-1") (text "0.44") (text "10") 1_000
    ∷ working_quote (text "quote-2") (text "0.50") (text "10") 1_000
    ∷ working_quote (text "quote-3") (text "0.40") (text "10") 1_000
    ∷ []

abbrev pub two_desired : DesiredQuotes
two_desired = record {
  quotes =
      desired_quote (text "quote-1") (text "0.47") (text "10")
      ∷ desired_quote (text "quote-2") (text "0.50") (text "10")
      ∷ [];
}

abbrev pub fill : ExchangeFill
fill = record {
  fill_id = text "fill-1";
  asset_id = text "token_abc";
  side = buy;
  filled_size = text "10";
  price = text "0.44";
  observed_at_ms = 2_000;
}

abbrev pub snapshot_of :
    Bool → Bool → List ExchangeObservedQuote → List ExchangeFill → ExchangeSyncSnapshot
snapshot_of authoritative resync_pending quotes fills = record {
  authoritative = authoritative;
  resync_pending = resync_pending;
  quotes = quotes;
  fills = fills;
  observed_at_ms = 2_000;
}

abbrev pub report : Text → ExchangeObservedQuoteState → ℕ → ExchangeObservedQuote
report id state observed_at_ms = record {
  quote_id = id;
  client_order_id = some (text "client-1");
  state = state;
  observed_at_ms = observed_at_ms;
}
