-- ===== src/Policy/Approval.antt =====
-- baobab/b2b/buyer-operation-policy.ts: evaluateApprovalDecision.
use baobab_trade.Prelude.{pos, ltb_ℤ, leb_ℤ, not, ◌&&◌, ◌==◌, is_key, Bool}
use baobab_trade.Policy.Decision.{
  Check, ◌>>=◌, ◌>>◌, deny_if, present, context_not_usable, buyer_not_authorised,
  separation_of_duties, transaction_changed, approval_authority_not_configured,
  approval_threshold_exceeded,
}
use baobab_trade.Policy.Facts.{BuyerOperationFacts, BoundApproval}
use baobab_trade.Policy.Commitment.{non_empty, bound_to, find_limit, is_approved, is_pending}

-- Re-evaluating at commit is for an APPROVED approval by its own approver.
abbrev pub is_reevaluation : BuyerOperationFacts → BoundApproval → Bool
is_reevaluation facts a = is_approved a.status && is_key a.approver_principal_id facts.principal_id

unfoldable pub evaluate_approval_decision : BuyerOperationFacts → Check (Unit {0})
evaluate_approval_decision facts = do
  tx ← present facts.transaction context_not_usable
  a ← present facts.approval context_not_usable
  deny_if (leb_ℤ tx.amount_minor (pos 0)) context_not_usable
  market_key ← present (non_empty facts.market_key) context_not_usable
  deny_if (not (a.organisation_id == facts.organisation_id)) buyer_not_authorised
  initiator ← present (non_empty a.initiator_principal_id) context_not_usable
  deny_if (initiator == facts.principal_id) separation_of_duties
  deny_if (not (bound_to a tx market_key)) transaction_changed
  deny_if (not (is_pending a.status) && not (is_reevaluation facts a)) context_not_usable
  limit ←
      find_limit facts tx market_key (λ s. s.approval_limit_minor) approval_authority_not_configured
  deny_if (ltb_ℤ limit tx.amount_minor) approval_threshold_exceeded
