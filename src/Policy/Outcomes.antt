-- ===== src/Policy/Outcomes.antt =====
-- The outcomes of the evaluator by kind of operation.
use baobab_trade.Prelude.{
  ℤ, pos, ◌≤ℤ◌, ◌<ℤ◌, ltb_ℤ, leb_ℤ, ◌≡◌, ◌≢◌, String, Bool, true, false, not, ◌==◌, eq_iff, ◌&&◌,
  Option, some, ◌⊎◌, inl, inr, eq_of_==, is_key, is_key-eq, arith,
}
use baobab_trade.Policy.Decision.{
  pass, >>=-pass, >>-pass, deny_if-pass, present-pass, decision-allow, allow,
}
use baobab_trade.Policy.Facts.{BuyerOperationFacts, Transaction, BoundApproval, ApprovalStatus}
use baobab_trade.Policy.Rules.{OperationRule, operation_rule, commitment, approval}
use baobab_trade.Policy.Commitment.{is_pending, is_approved}
use baobab_trade.Policy.Approval.{evaluate_approval_decision}
use baobab_trade.Policy.Evaluate.{evaluate_buyer_operation, by_kind}
use baobab_trade.Policy.Limits.{HasLimit, find_limit-pass, un_not, non_empty-some}
use baobab_trade.Policy.Committed.{
  IsBound, bound_to-IsBound, IsCommittable, evaluate_commitment-IsCommittable,
}

-- The last step of an allowed evaluation.
by_kind_of_allow :
    (regexp : String → Option (String → Bool)) (facts : BuyerOperationFacts) (rule : OperationRule)
    → operation_rule facts.operation ≡ some rule
    → evaluate_buyer_operation regexp facts ≡ allow
    → by_kind regexp facts rule.kind ≡ pass tt
unfolding evaluate_buyer_operation
by_kind_of_allow regexp facts rule e h = >>=-pass _ _ (decision-allow _ h) λ r listed h2.
    >>-pass _ _ h2 λ not_invitation h3. >>-pass _ _ h3 λ member h4.
      >>=-pass _ _ h4 λ permitted role h5. >>-pass _ _ h5 λ market h6. >>-pass _ _ h6 λ sites h7.
        >>-pass _ _ h7 λ scope last.
          let found = present-pass (operation_rule facts.operation) _ listed in
          let same : r ≡ rule = cc in rw same at last

-- An allowed commitment (accepting a quotation, committing or creating an order, finalizing a draft
-- order) has a positive amount, the purchase order that its rule asks for, exactly one order limit
-- in effect, budgets that cover it, and either an amount within the limit and every applicable
-- threshold or an approval bound to exactly this transaction and given by another Principal.
pub allow-IsCommittable :
    (regexp : String → Option (String → Bool)) (facts : BuyerOperationFacts) (rule : OperationRule)
    → operation_rule facts.operation ≡ some rule
    → rule.kind ≡ commitment
    → evaluate_buyer_operation regexp facts ≡ allow
    → IsCommittable regexp facts
unfolding by_kind
allow-IsCommittable regexp facts rule e k h =
    let last : by_kind regexp facts rule.kind ≡ pass tt = by_kind_of_allow regexp facts rule e h in
    evaluate_commitment-IsCommittable regexp facts (rw k at last)

-- What an allowed approval decision rests on.
pub record IsDecidable (facts : BuyerOperationFacts) : Type 0 where
  pub tx : Transaction
  pub transaction : facts.transaction ≡ some tx
  pub positive : pos 0 <ℤ tx.amount_minor
  pub key : String
  pub market : facts.market_key ≡ some key
  pub approval : BoundApproval
  pub given : facts.approval ≡ some approval
  pub organisation : approval.organisation_id ≡ facts.organisation_id
  pub initiator : String
  pub initiated_by : approval.initiator_principal_id ≡ some initiator
  pub separate : initiator ≢ facts.principal_id
  pub bound : IsBound approval tx key
  pub open_status :
      (approval.status ≡ ApprovalStatus.pending)
      ⊎ ((approval.status ≡ ApprovalStatus.approved)
          × (approval.approver_principal_id ≡ some facts.principal_id))
  pub limit : ℤ
  pub limited : HasLimit facts tx key (λ s. s.approval_limit_minor) limit
  pub within : tx.amount_minor ≤ℤ limit

open_cases :
    (s : ApprovalStatus) (b : Bool)
    → (not (is_pending s) && not (is_approved s && b)) ≡ false
    → (s ≡ ApprovalStatus.pending) ⊎ ((s ≡ ApprovalStatus.approved) × (b ≡ true))
open_cases s b h = ground arith

open_status_of :
    (facts : BuyerOperationFacts) (a : BoundApproval)
    → (a.status ≡ ApprovalStatus.pending)
      ⊎ ((a.status ≡ ApprovalStatus.approved)
          × (is_key a.approver_principal_id facts.principal_id ≡ true))
    → (a.status ≡ ApprovalStatus.pending)
      ⊎ ((a.status ≡ ApprovalStatus.approved) × (a.approver_principal_id ≡ some facts.principal_id))
open_status_of facts a (inl p) = inl p
open_status_of facts a (inr (s, k)) = inr (s, is_key-eq _ _ k)

evaluate_approval_decision-IsDecidable :
    (facts : BuyerOperationFacts) → evaluate_approval_decision facts ≡ pass tt → IsDecidable facts
unfolding evaluate_approval_decision
evaluate_approval_decision-IsDecidable facts h = >>=-pass _ _ h λ tx t h2. >>=-pass _ _ h2 λ a g h3.
    >>-pass _ _ h3 λ amount h4. >>=-pass _ _ h4 λ key k h5. >>-pass _ _ h5 λ organisation h6.
      >>=-pass _ _ h6 λ initiator i h7. >>-pass _ _ h7 λ separate h8. >>-pass _ _ h8 λ bound h9.
        >>-pass _ _ h9 λ status h10. >>=-pass _ _ h10 λ limit l within.
          let more : leb_ℤ tx.amount_minor (pos 0) ≡ false = deny_if-pass _ _ amount in
          let fits : ltb_ℤ limit tx.amount_minor ≡ false = deny_if-pass _ _ within in
          let apart : (initiator == facts.principal_id) ≡ false = deny_if-pass _ _ separate in
          record {
            tx = tx;
            transaction = present-pass _ _ t;
            positive = ground arith;
            key = key;
            market = (non_empty-some _ _ (present-pass _ _ k)).0;
            approval = a;
            given = present-pass _ _ g;
            organisation = eq_of_== _ _ (un_not _ (deny_if-pass _ _ organisation));
            initiator = initiator;
            initiated_by = (non_empty-some _ _ (present-pass _ _ i)).0;
            separate = λ e. ground (arith, eq_iff initiator facts.principal_id);
            bound = bound_to-IsBound a tx key (un_not _ (deny_if-pass _ _ bound));
            open_status = open_status_of facts a (open_cases a.status _ (deny_if-pass _ _ status));
            limit = limit;
            limited = find_limit-pass facts tx key _ _ limit l;
            within = ground arith;
          }

-- An allowed approval decision is about an approval of this Organisation that another Principal
-- initiated, that is bound to exactly this transaction, and that is PENDING or was APPROVED by
-- this very Principal; and the amount is within the one approval limit in effect.
pub allow-IsDecidable :
    (regexp : String → Option (String → Bool)) (facts : BuyerOperationFacts) (rule : OperationRule)
    → operation_rule facts.operation ≡ some rule
    → rule.kind ≡ approval
    → evaluate_buyer_operation regexp facts ≡ allow
    → IsDecidable facts
unfolding by_kind
allow-IsDecidable regexp facts rule e k h =
    let last : by_kind regexp facts rule.kind ≡ pass tt = by_kind_of_allow regexp facts rule e h in
    evaluate_approval_decision-IsDecidable facts (rw k at last)
