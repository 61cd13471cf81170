-- ===== src/Backtest.antt =====
-- src/backtest: the candle files, and the fetcher that fills them.
pub mod Backtester
pub mod CandleStore
pub mod Source
pub mod Ranges
pub mod Pages
pub mod Aggregate
pub mod Fetcher
pub mod Requests
mod Tests
