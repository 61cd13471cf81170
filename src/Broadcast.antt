-- ===== src/Broadcast.antt =====
-- src/broadcast: the cache of live candles.
pub mod TfBuilder
pub mod CandleCache
pub mod Commands
mod Tests
