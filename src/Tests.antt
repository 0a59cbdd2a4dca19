-- ===== src/Tests.antt =====
-- Runs of the model on concrete inputs, many of them the unit tests of the crates, and the theorems at
-- such inputs.
mod Fixtures
mod OrderState
mod OrderManager
mod Safety
mod Execution
mod Feed
mod Registry
mod Channel
mod Strategy
mod Network
mod Metrics
mod Orders
mod HotState
mod Decimal
