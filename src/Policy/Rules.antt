-- ===== src/Policy/Rules.antt =====
-- baobab/b2b/buyer-operation-policy.ts: BUYER_OPERATION_RULES. A role is its text.
use baobab_trade.Prelude.{String, Bool, true, false, Option, none, some, List, [], ◌∷◌, includes}
use baobab_trade.Policy.Facts.{
  BuyerOperation, buyer_context_resolve, private_catalogue_view, contract_price_view, rfq_submit,
  cart_modify, quotation_accept, order_commit, order_create, draft_order_finalize,
  purchase_approval_decide, buyer_member_manage, buyer_invitation_accept, unlisted,
}

abbrev pub b2b_roles : List String
b2b_roles =
    "BUYER" ∷ "SENIOR_BUYER" ∷ "APPROVER" ∷ "PROCUREMENT_MANAGER" ∷ "ACCOUNT_ADMIN" ∷ "VIEWER" ∷ []

abbrev pub purchasing : List String
purchasing = "BUYER" ∷ "SENIOR_BUYER" ∷ "PROCUREMENT_MANAGER" ∷ "ACCOUNT_ADMIN" ∷ []

abbrev pub approving : List String
approving = "APPROVER" ∷ "PROCUREMENT_MANAGER" ∷ "ACCOUNT_ADMIN" ∷ []

abbrev pub is_role : String → Bool
is_role value = includes b2b_roles value

pub data SiteNeed : Type 0 where
  no_site if_referenced required : SiteNeed

pub data Kind : Type 0 where
  read change commitment approval governed : Kind

pub record OperationRule : Type 0 where
  pub roles : List String
  pub market : Bool
  pub site : SiteNeed
  pub kind : Kind

abbrev rule : List String → Bool → SiteNeed → Kind → OperationRule
rule rs m s k = record { roles = rs; market = m; site = s; kind = k }

-- The table; `none` for a text that it does not list.
unfoldable pub operation_rule : BuyerOperation → Option OperationRule
operation_rule buyer_context_resolve = some (rule b2b_roles false no_site read)
operation_rule private_catalogue_view = some (rule b2b_roles true if_referenced read)
operation_rule contract_price_view = some (rule b2b_roles true if_referenced read)
operation_rule rfq_submit = some (rule purchasing true if_referenced change)
operation_rule cart_modify = some (rule purchasing true if_referenced change)
operation_rule quotation_accept = some (rule purchasing true if_referenced commitment)
operation_rule order_commit = some (rule purchasing true required commitment)
operation_rule order_create = some (rule purchasing true required commitment)
operation_rule draft_order_finalize = some (rule purchasing true required commitment)
operation_rule purchase_approval_decide = some (rule approving true if_referenced approval)
operation_rule buyer_member_manage = some (rule ("ACCOUNT_ADMIN" ∷ []) false no_site governed)
operation_rule buyer_invitation_accept = some (rule [] false no_site governed)
operation_rule unlisted = none
