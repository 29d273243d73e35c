-- ===== src/Execution.antt =====
-- Paper execution: t0-trading/src/t0_trading/execution.
pub mod Order
pub mod Reducer
pub mod Resources
pub mod Ledger
pub mod Market
pub mod Requests
pub mod Planner
pub mod Matching
pub mod Readiness
pub mod Runtime
mod Tests
