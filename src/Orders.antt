-- ===== src/Orders.antt =====
-- Orders and their classification: baobab/orders.
pub mod Provenance
pub mod Store
pub mod Classify
pub mod Answers
pub mod Retired
pub mod Once
pub mod Final
pub mod Evidence
pub mod Justified
pub mod Binding
pub mod Separation
mod Examples
