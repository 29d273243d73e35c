-- ===== src/Market.antt =====
-- Market time of t0-trading/src/t0_trading/market.
pub mod Session
pub mod State
mod Tests
