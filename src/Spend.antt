-- ===== src/Spend.antt =====
-- The spend ledger and its commands: baobab/b2b/spend-reservation-commands.ts and the migrations
-- that hold its triggers.
pub mod State
pub mod Ledger
pub mod Tx
pub mod Steps
pub mod Commands
pub mod Run
pub mod Sums
pub mod Consistent
pub mod Capacity
pub mod Keeps
pub mod Serve
pub mod Books
pub mod Frame
pub mod Replay
pub mod Closed
pub mod Committing
pub mod Alone
pub mod Room
mod Fixtures
mod Examples
