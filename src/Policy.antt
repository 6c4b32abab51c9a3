-- ===== src/Policy.antt =====
-- The evaluator of one buyer operation, baobab/b2b/buyer-operation-policy.ts.
pub mod Decision
pub mod Facts
pub mod Rules
pub mod Budgets
pub mod Commitment
pub mod Approval
pub mod Evaluate
pub mod Usable
pub mod Scoped
pub mod Covered
pub mod Limits
pub mod Committed
pub mod Outcomes
pub mod Plain
pub mod Exceeds
pub mod Escalation
mod Examples
