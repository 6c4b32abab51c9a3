-- ===== src/Policy/Facts.antt =====
-- baobab/b2b/buyer-operation-policy.ts: the facts that the server loads for one buyer operation.
-- A `Date` is its number of milliseconds since 1970; a `bigint` is a ℤ; `null` and `undefined` are
-- `none`.
use baobab_trade.Prelude.{ℕ, ℤ, String, Bool, true, Option, none, some, List, leb, ltb, ◌&&◌}
use baobab_trade.Policy.Decision.{BuyerOperationDecision, Source}

-- `unlisted` is any text outside the vocabulary of `BUYER_OPERATION_RULES`.
pub data BuyerOperation : Type 0 where
  buyer_context_resolve private_catalogue_view contract_price_view : BuyerOperation
  rfq_submit cart_modify quotation_accept order_commit order_create : BuyerOperation
  draft_order_finalize purchase_approval_decide buyer_member_manage : BuyerOperation
  buyer_invitation_accept unlisted : BuyerOperation

pub data GrantStatus : Type 0 where
  active suspended revoked : GrantStatus

pub record ScopeGrant : Type 0 where
  pub key : String
  pub status : GrantStatus
  pub effective_from : Option ℕ
  pub effective_until : Option ℕ

pub record RoleAssignment : Type 0 where
  pub role_id : String
  pub role : String
  pub markets : List ScopeGrant
  pub sites : List ScopeGrant

pub data Use : Type 0 where
  shipping billing : Use

pub record SiteUse : Type 0 where
  pub site_id : String
  pub purpose : Use

pub data SiteStatus : Type 0 where
  active suspended closed : SiteStatus

pub record SiteRecord : Type 0 where
  pub id : String
  pub organisation_id : String
  pub market_key : String
  pub status : SiteStatus
  pub allow_shipping : Bool
  pub allow_billing : Bool

pub record Transaction : Type 0 where
  pub amount_minor : ℤ
  pub currency_code : String
  pub transaction_digest : String
  pub resource_version : String
  pub agreement_reference : Option String

pub data BudgetStatus : Type 0 where
  active suspended retired : BudgetStatus

pub data BudgetScope : Type 0 where
  membership agreement organisation : BudgetScope

pub record Period : Type 0 where
  pub starts_at : ℕ
  pub ends_at : ℕ

pub record BudgetFact : Type 0 where
  pub policy_id : String
  pub revision : ℕ
  pub status : BudgetStatus
  pub scope : BudgetScope
  pub membership_id : Option String
  pub agreement_reference : Option String
  pub market_key : String
  pub currency_code : String
  pub limit_minor : ℤ
  pub effective_from : ℕ
  pub effective_until : Option ℕ
  pub period : Option Period
  pub committed_minor : ℤ
  pub reserved_minor : ℤ

pub data ReservationStatus : Type 0 where
  active committed released expired : ReservationStatus

pub record Hold : Type 0 where
  pub policy_id : String
  pub policy_revision : ℕ
  pub period_starts_at : ℕ
  pub reserved_minor : ℤ

pub record ReservationFact : Type 0 where
  pub status : ReservationStatus
  pub membership_id : String
  pub market_key : String
  pub currency_code : String
  pub agreement_reference : Option String
  pub transaction_digest : String
  pub resource_version : String
  pub expires_at : ℕ
  pub holds : List Hold

pub record SpendAuthority : Type 0 where
  pub market_key : Option String
  pub currency_code : String
  pub order_limit_minor : Option ℤ
  pub approval_limit_minor : Option ℤ
  pub effective_from : Option ℕ
  pub effective_until : Option ℕ

pub record ApprovalPolicyRecord : Type 0 where
  pub market_key : Option String
  pub currency_code : String
  pub threshold_minor : Option ℤ
  pub enabled : Bool

pub record PurchaseOrderRule : Type 0 where
  pub required : Bool
  pub format_pattern : Option String

pub record PurchaseOrderFact : Type 0 where
  pub rule : Option PurchaseOrderRule
  pub number : Option String

pub data ApprovalStatus : Type 0 where
  pending approved rejected cancelled : ApprovalStatus

pub record BoundApproval : Type 0 where
  pub status : ApprovalStatus
  pub organisation_id : String
  pub initiator_principal_id : Option String
  pub approver_principal_id : Option String
  pub market_key : Option String
  pub amount_minor : ℤ
  pub currency_code : String
  pub transaction_digest : Option String
  pub resource_version : Option String
  pub policy_revision : Option String

pub data MarketAuthority : Type 0 where
  attested denied unavailable : MarketAuthority

pub record Membership : Type 0 where
  pub status : String
  pub effective_from : Option ℕ
  pub effective_until : Option ℕ

pub record BuyerOperationFacts : Type 0 where
  pub operation : BuyerOperation
  pub now : ℕ
  pub principal_id : String
  pub organisation_id : String
  pub membership_id : String
  pub membership : Membership
  pub roles : Source (List RoleAssignment)
  pub market_key : Option String
  pub market_authority : MarketAuthority
  pub sites : List SiteUse
  pub site_records : Source (List SiteRecord)
  pub transaction : Option Transaction
  pub spend_authorities : Source (List SpendAuthority)
  pub approval_policies : Source (List ApprovalPolicyRecord)
  pub purchase_order : Source PurchaseOrderFact
  pub budgets : Source (List BudgetFact)
  pub reservation : Option (Source ReservationFact)
  pub approval : Option BoundApproval
  pub approver_reevaluation : Option BuyerOperationDecision

abbrev started : ℕ → Option ℕ → Bool
started now none = true
started now (some from) = leb from now

abbrev not_ended : ℕ → Option ℕ → Bool
not_ended now none = true
not_ended now (some until) = ltb now until

-- The upper bound is exclusive.
abbrev pub in_effect : ℕ → Option ℕ → Option ℕ → Bool
in_effect now from until = started now from && not_ended now until
