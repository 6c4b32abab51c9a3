-- ===== src/Security.antt =====
-- Abuse control: baobab/security.
pub mod RateLimit
pub mod Windows
mod Examples
