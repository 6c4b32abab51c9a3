-- ===== src/Payments.antt =====
-- Payments and their states: baobab/payments.
pub mod Port
pub mod Adapter
pub mod History
pub mod Noted
pub mod Replay
pub mod Initiated
pub mod Leaks
mod Tables
mod Examples
