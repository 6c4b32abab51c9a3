-- ===== src/Events.antt =====
-- The outbox of events: baobab/events.
pub mod Outbox
pub mod Dispatch
pub mod Kept
pub mod Dispatched
pub mod Enqueue
pub mod Histories
pub mod Taken
pub mod Delays
pub mod Due
pub mod Rounds
mod Rows
mod Tables
mod Examples
