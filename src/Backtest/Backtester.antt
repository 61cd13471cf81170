-- ===== src/Backtest/Backtester.antt =====
-- src/backtest/backtester.rs: the simulation of a strategy on candles.
pub mod State
pub mod Positions
pub mod Fills
pub mod Liquidation
pub mod Orders
pub mod Run
pub mod Funding
pub mod Windows
pub mod Merge
pub mod Simulate
mod Tests
