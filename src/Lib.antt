-- ===== src/Lib.antt =====
-- The rtt trading executor (a Cargo workspace of five crates): a feed keeps order books, a strategy turns
-- them into triggers or into desired quotes, and an executor turns those into orders on an exchange.
-- These modules are about the executor's side, where money is committed, and about the feed's side: the
-- registry of markets, the socket's client, the stores of books and references; and the strategies.
--
-- How the parts interact. The registry lists the markets and the universe selects some. The socket's
-- client subscribes to their assets and publishes messages, which the feed turns into updates, applies to
-- its stores and sends on. A runtime gathers from the hot state the view that a strategy asks for. A
-- strategy sends triggers, or says which quotes it wants (crates/pm-strategy/src/quote.rs). The
-- order manager compares them with the quotes at work, whose states follow the exchange's reports, and emits
-- commands. Triggers (crates/rtt-core/src/trigger.rs) go to a loop on its own thread, which asks the circuit
-- breaker, the rate limiter and the order guard before it dispatches a pre-signed order, or one signed
-- on the way.
--
-- The files, with the code that each models (paths from the repository's root):
--   Trigger        crates/rtt-core/src/trigger.rs: the messages
--   Quote          crates/pm-strategy/src/quote.rs: QuoteId, DesiredQuote, DesiredQuotes
--   OrderState     crates/pm-executor/src/order_state.rs: WorkingQuote and all its operations;
--                  Lifecycle, the states that they can reach; Observation, the exchange's reports
--   OrderManager   crates/pm-executor/src/order_manager.rs: LocalOrderManager and reconcile; Sync,
--                  reconcile_with_exchange and collect_new_exposure_deltas; Plan, Converge, Blocking,
--                  Settled, Resync, Recovery and Exposure, what they make true
--   Units          parse_units and format_units of order_manager.rs
--   Safety         crates/pm-executor/src/safety.rs, one call at a time; Threads, the breaker's atomic
--                  accesses one by one; Limits and Rate, their bounds
--   ClobExecutor   crates/rtt-core/src/clob_executor.rs: dispatch_request, PreSignedOrderPool,
--                  process_one_clob, sign_and_dispatch; Pool, the order of the pre-signed orders
--   Connection     crates/rtt-core/src/connection.rs: ConnectionPool; Pool and Broken, which connection
--                  a request is written to
--   Metrics        crates/rtt-core/src/metrics.rs: TimestampRecord and StatsAggregator; Percentiles, how they
--                  lie
--   Bridge         crates/pm-executor/src/bridge.rs; Carried, what crosses it
--   Config         crates/pm-executor/src/config.rs: ExecutorConfig; Assets, what is subscribed to
--   Execution      crates/pm-executor/src/execution.rs: retry_decision and QuoteCommandThrottle, with
--                  Retry and Throttle; Loop, run_execution_loop, with Steps, Limits, DryRun, Pace, Pool
--   OrderBook      crates/pm-data/src/orderbook.rs: PriceLadder, BookState, OrderBookManager; Ladder, one
--                  side of a book; Books, histories of messages; History, what
--                  they leave in the books
--   Subscription   crates/pm-data/src/subscription_plan.rs; Batches, the sizes of the
--                  commands; Served, what they achieve; Shards, how the assets are shared out
--   Market         crates/rtt-core/src/market.rs: MarketMeta and its reads
--   Universe       crates/pm-data/src/snapshot.rs: SelectedUniverse::resolve; Selection, which markets it
--                  selects
--   RegistryProvider  crates/pm-data/src/registry_provider.rs: the trait; Gamma, GammaRegistryProvider;
--                  Normalize, which markets it accepts
--   Registry       crates/pm-data/src/market_registry.rs: MarketRegistry; Retries, Pages and Refresh, that
--                  it ends and what it leaves; Listing, the two together
--   Events         crates/rtt-core/src/public_event.rs and feed_source.rs: updates and notices
--   Messages       crates/pm-data/src/types.rs: WsMessage and to_normalized_updates
--   ReferenceStore crates/pm-data/src/reference_store.rs; Resolve, its reads
--   Feed           crates/pm-data/src/feed.rs: FeedStores, process_adapter_message,
--                  PolymarketFeedManager; Books, Sends and Rounds, what is stored and sent; Reconfigure
--   Ws             crates/pm-data/src/ws.rs: BackoffState, WsClient, connect_and_run and run; Commands and
--                  Subscribed, the subscriptions; Backoff, Reconnects, Lost and Losses, lost
--                  connections
--   Strategy       crates/pm-strategy/src/strategy.rs: requirements, views and the traits
--   Inventory      InventoryStore of crates/pm-strategy/src/runtime.rs; Totals, texts of amounts read
--                  back; Sums, what the positions add up to
--   Runtime        crates/pm-strategy/src/runtime.rs: RuntimeTopologyPlan and SharedRuntimeScaffold; Runs,
--                  the runtimes' loops and that of runner.rs; Views and Seen, what a view holds
--   Strategies     crates/pm-strategy/src/spread.rs, threshold.rs and config.rs; Triggers, what they send
--   Backtest       crates/pm-strategy/src/backtest.rs; Replay, a replay and a runtime
--   ClobOrder      crates/rtt-core/src/clob_order.rs: parse_scaled_decimal and compute_amounts; Parse, what
--                  is read; Amounts, what an order costs
--   HotState       crates/rtt-core/src/hot_state.rs: parse_scaled, format_scaled, ticks_for; Levels, the
--                  levels of a book; Store, its state and the messages;
--                  Updates and References, what changes it; Facade, apply_update and the reads;
--                  Values and Notices, what they keep and find
--   Prelude, Order, BTreeMap, Decimal   what the source uses of Rust's library: comparisons, ordered
--                  maps and sets as lists sorted by key, numbers as text
--   Tests          runs on concrete inputs, many of them the unit tests of the crates
--
-- Conventions. A struct is a record, an enum a data type, a method a function into the new state and
-- the result. A text is the list of its UTF-8 bytes. Numbers are unbounded, with the wrap-around or the
-- saturation of the machine's words written out where the source can meet it. Loops are recursion on
-- the list that the source walks over, or on the list of what the iterations see. The loops of
-- Registry take fuel: one more than the policy has retries is enough for a page, and one more than the
-- length of the listing for the pages. Two helpers of Rust's
-- library take fuel: printing a number, which the round trips of Decimal show to be enough, and trimming
-- a text, where HotState.Trim shows that its length is.
-- What another crate does (signing, encoding, the network, the clock) is an argument.
--
-- Not modelled: floats (the value of an order is given in cents), the reading of the clock, logs and alerts,
-- the web sockets and HTTP, JSON and TOML, and the cryptography, all of which are calls
-- into libraries; the benchmarks, which the parts above do not use; broadcast receivers that lag behind.
-- The strategies compare prices as `f64`, of which Strategies takes four operations as an interface.
pub mod Prelude
pub mod Order
pub mod BTreeMap
pub mod Decimal
pub mod Ws
pub mod Strategy
pub mod Inventory
pub mod Runtime
pub mod Strategies
pub mod Backtest
pub mod Units
pub mod Trigger
pub mod Quote
pub mod OrderState
pub mod OrderManager
pub mod ReferenceStore
pub mod Registry
pub mod RegistryProvider
pub mod Safety
pub mod ClobExecutor
pub mod Events
pub mod Execution
pub mod Messages
pub mod OrderBook
pub mod Subscription
pub mod Market
pub mod Universe
pub mod ClobOrder
pub mod Connection
pub mod Metrics
pub mod Bridge
pub mod Config
pub mod Feed
pub mod HotState
mod Tests
