-- ===== src/Fulfilment.antt =====
-- Fulfilment requests and their states: baobab/fulfilment.
pub mod Port
pub mod Requested
pub mod Leaks
pub mod Delivered
pub mod Adapter
pub mod Moves
mod Tables
mod Examples
