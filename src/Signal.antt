-- ===== src/Signal.antt =====
-- src/signal and src/strategy.rs: the engine that turns candles into orders.
pub mod Intent
pub mod Params
pub mod Checks
pub mod Tracker
pub mod Equality
pub mod Engine
pub mod Orders
pub mod Ticks
pub mod Live
pub mod Loop
pub mod Actions
pub mod Replay
pub mod Agreement
pub mod Tests
