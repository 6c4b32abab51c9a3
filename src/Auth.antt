-- ===== src/Auth.antt =====
-- The assurance of buyers: baobab/auth.
pub mod Assurance
pub mod Evidence
pub mod Assured
mod Examples
