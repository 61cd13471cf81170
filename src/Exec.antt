-- ===== src/Exec.antt =====
-- src/exec: the types of orders and fills, the bookkeeping of one position, and the executor task.
pub mod Types
pub mod Orders
pub mod Position
pub mod Env
pub mod Cancels
pub mod Fills
pub mod Executor
pub mod Commands
mod Tests
