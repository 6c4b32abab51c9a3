-- ===== src/Policy/Examples.antt =====
-- A purchase and an approval decision that the evaluator of baobab/b2b/buyer-operation-policy.ts
-- answers, and the theorems about them.
use baobab_trade.Prelude.{
  pos, ◌-ℤ◌, ◌≡◌, refl, String, Bool, true, false, Option, none, some, [], ◌∷◌,
}
use baobab_trade.Policy.Decision.{
  pass, ◌>>=◌, ◌>>◌, deny_if, load, present, single, loaded, allow, refuse, approval_required,
  approval_threshold_exceeded,
}
use baobab_trade.Policy.Facts.{
  BuyerOperationFacts, Transaction, BudgetFact, BudgetStatus, BudgetScope, RoleAssignment,
  ScopeGrant, GrantStatus, shipping, SiteRecord, SiteStatus, SpendAuthority, ApprovalPolicyRecord,
  BoundApproval, ApprovalStatus, MarketAuthority, order_commit, purchase_approval_decide,
}
use baobab_trade.Policy.Rules.{
  OperationRule, operation_rule, commitment, approval, required, if_referenced,
}
use baobab_trade.Policy.Budgets.{
  load_reservation, check_reservation, usable_holds, is_applicable, current_period, needed,
  available, is_short, check_budget, need_one, evaluate_budgets,
}
use baobab_trade.Policy.Commitment.{
  check_rule, check_purchase_order, authority_applies, positive_limit, unique_limit, find_limit,
  policy_applies, bound_to, need_approval, escalate, evaluate_commitment,
}
use baobab_trade.Policy.Approval.{evaluate_approval_decision}
use baobab_trade.Policy.Evaluate.{
  check_membership, check_roles, check_authority, check_market, check_site, check_each_site,
  load_sites, check_sites, active_grant, check_scope, by_kind, evaluate, evaluate_buyer_operation,
}
use baobab_trade.Policy.Scoped.{IsScoped, allow-IsScoped}
use baobab_trade.Policy.Covered.{IsCovered, evaluate_budgets-IsCovered}
use baobab_trade.Policy.Committed.{IsCommittable}
use baobab_trade.Policy.Outcomes.{IsDecidable, allow-IsCommittable, allow-IsDecidable}
use baobab_trade.Policy.Escalation.{NeedsApproval, approval_required-NeedsApproval}

abbrev no_patterns : String → Option (String → Bool)
no_patterns p = none

abbrev grant : String → ScopeGrant
grant k = record {
  key = k;
  status = GrantStatus.active;
  effective_from = some 50;
  effective_until = some 200;
}

abbrev member_of : String → RoleAssignment
member_of name = record {
  role_id = "r1";
  role = name;
  markets = grant "za" ∷ [];
  sites = grant "cape-town" ∷ [];
}

abbrev site : SiteRecord
site = record {
  id = "cape-town";
  organisation_id = "org1";
  market_key = "za";
  status = SiteStatus.active;
  allow_shipping = true;
  allow_billing = false;
}

abbrev purchase : Transaction
purchase = record {
  amount_minor = pos 500;
  currency_code = "ZAR";
  transaction_digest = "sha256:1";
  resource_version = "1";
  agreement_reference = none;
}

abbrev budget : BudgetFact
budget = record {
  policy_id = "p1";
  revision = 1;
  status = BudgetStatus.active;
  scope = BudgetScope.membership;
  membership_id = some "m1";
  agreement_reference = none;
  market_key = "za";
  currency_code = "ZAR";
  limit_minor = pos 1000;
  effective_from = 0;
  effective_until = none;
  period = some (record { starts_at = 0; ends_at = 1000 });
  committed_minor = pos 300;
  reserved_minor = pos 100;
}

abbrev authority : SpendAuthority
authority = record {
  market_key = some "za";
  currency_code = "ZAR";
  order_limit_minor = some (pos 800);
  approval_limit_minor = some (pos 900);
  effective_from = none;
  effective_until = none;
}

abbrev threshold : ApprovalPolicyRecord
threshold = record {
  market_key = some "za";
  currency_code = "ZAR";
  threshold_minor = some (pos 400);
  enabled = true;
}

abbrev to_decide : BoundApproval
to_decide = record {
  status = ApprovalStatus.pending;
  organisation_id = "org1";
  initiator_principal_id = some "buyer";
  approver_principal_id = none;
  market_key = some "za";
  amount_minor = pos 500;
  currency_code = "ZAR";
  transaction_digest = some "sha256:1";
  resource_version = some "1";
  policy_revision = none;
}

abbrev order : BuyerOperationFacts
order = record {
  operation = order_commit;
  now = 100;
  principal_id = "buyer";
  organisation_id = "org1";
  membership_id = "m1";
  membership = record { status = "ACTIVE"; effective_from = none; effective_until = none };
  roles = loaded (member_of "BUYER" ∷ []);
  market_key = some "za";
  market_authority = MarketAuthority.attested;
  sites = record { site_id = "cape-town"; purpose = shipping } ∷ [];
  site_records = loaded (site ∷ []);
  transaction = some purchase;
  spend_authorities = loaded (authority ∷ []);
  approval_policies = loaded [];
  purchase_order = loaded (record { rule = none; number = none });
  budgets = loaded (budget ∷ []);
  reservation = none;
  approval = none;
  approver_reevaluation = none;
}

-- The same order under a policy that asks for approval above its threshold.
abbrev large_order : BuyerOperationFacts
large_order = record order { approval_policies = loaded (threshold ∷ []) }

-- An approver's decision on it.
abbrev approver_view : BuyerOperationFacts
approver_view = record order {
  operation = purchase_approval_decide;
  principal_id = "approver";
  roles = loaded (member_of "APPROVER" ∷ []);
  approval = some to_decide;
}

order-IsAllowed : evaluate_buyer_operation no_patterns order ≡ allow
unfolding evaluate_buyer_operation evaluate check_membership check_roles check_authority
    check_market check_site check_each_site load_sites check_sites active_grant check_scope by_kind
    evaluate_commitment escalate find_limit unique_limit positive_limit authority_applies
    policy_applies check_purchase_order check_rule evaluate_budgets check_budget need_one is_short
    needed available current_period is_applicable usable_holds check_reservation load_reservation
    operation_rule ◌>>=◌ ◌>>◌ deny_if load present single ◌-ℤ◌ evaluate_approval_decision bound_to
    need_approval
order-IsAllowed = refl

large_order-NeedsApproval :
    evaluate_buyer_operation no_patterns large_order
    ≡ refuse approval_required (approval_threshold_exceeded ∷ [])
unfolding evaluate_buyer_operation evaluate check_membership check_roles check_authority
    check_market check_site check_each_site load_sites check_sites active_grant check_scope by_kind
    evaluate_commitment escalate find_limit unique_limit positive_limit authority_applies
    policy_applies check_purchase_order check_rule evaluate_budgets check_budget need_one is_short
    needed available current_period is_applicable usable_holds check_reservation load_reservation
    operation_rule ◌>>=◌ ◌>>◌ deny_if load present single ◌-ℤ◌ evaluate_approval_decision bound_to
    need_approval
large_order-NeedsApproval = refl

decision-IsAllowed : evaluate_buyer_operation no_patterns approver_view ≡ allow
unfolding evaluate_buyer_operation evaluate check_membership check_roles check_authority
    check_market check_site check_each_site load_sites check_sites active_grant check_scope by_kind
    evaluate_commitment escalate find_limit unique_limit positive_limit authority_applies
    policy_applies check_purchase_order check_rule evaluate_budgets check_budget need_one is_short
    needed available current_period is_applicable usable_holds check_reservation load_reservation
    operation_rule ◌>>=◌ ◌>>◌ deny_if load present single ◌-ℤ◌ evaluate_approval_decision bound_to
    need_approval
decision-IsAllowed = refl

budgets-Pass : evaluate_budgets order purchase "za" ≡ pass tt
unfolding evaluate_budgets check_budget need_one is_short needed available current_period
    is_applicable usable_holds check_reservation load_reservation ◌>>=◌ ◌>>◌ deny_if load single
    ◌-ℤ◌
budgets-Pass = refl

abbrev order_rule : OperationRule
order_rule = record {
  roles = "BUYER" ∷ "SENIOR_BUYER" ∷ "PROCUREMENT_MANAGER" ∷ "ACCOUNT_ADMIN" ∷ [];
  market = true;
  site = required;
  kind = commitment;
}

abbrev decision_rule : OperationRule
decision_rule = record {
  roles = "APPROVER" ∷ "PROCUREMENT_MANAGER" ∷ "ACCOUNT_ADMIN" ∷ [];
  market = true;
  site = if_referenced;
  kind = approval;
}

order_is_listed : operation_rule order.operation ≡ some order_rule
unfolding operation_rule
order_is_listed = refl

decision_is_listed : operation_rule approver_view.operation ≡ some decision_rule
unfolding operation_rule
decision_is_listed = refl

allow-IsScoped_example :
    (rule : OperationRule) × (operation_rule order.operation ≡ some rule) × IsScoped order rule
allow-IsScoped_example = allow-IsScoped no_patterns order order-IsAllowed

evaluate_budgets-IsCovered_example : IsCovered order purchase "za"
evaluate_budgets-IsCovered_example = evaluate_budgets-IsCovered order purchase "za" budgets-Pass

allow-IsCommittable_example : IsCommittable no_patterns order
allow-IsCommittable_example =
    allow-IsCommittable no_patterns order order_rule order_is_listed refl order-IsAllowed

allow-IsDecidable_example : IsDecidable approver_view
allow-IsDecidable_example =
    allow-IsDecidable no_patterns approver_view decision_rule decision_is_listed refl
      decision-IsAllowed

approval_required-NeedsApproval_example :
    (rule : OperationRule) × (operation_rule large_order.operation ≡ some rule)
    × (rule.kind ≡ commitment)
    × NeedsApproval large_order (approval_threshold_exceeded ∷ [])
approval_required-NeedsApproval_example =
    approval_required-NeedsApproval no_patterns large_order (approval_threshold_exceeded ∷ [])
      large_order-NeedsApproval
