-- ===== src/Commercial.antt =====
-- Requests for quotation and quotations: baobab/b2b/commercial-lifecycle.ts.
pub mod Lifecycle
pub mod Decimals
pub mod Exact
pub mod Versions
pub mod Binding
pub mod Timestamps
pub mod Issue
pub mod Priced
mod Examples
