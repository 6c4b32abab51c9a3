-- ===== src/Policy/Commitment.antt =====
-- baobab/b2b/buyer-operation-policy.ts: evaluateCommitment and applyApproval. The regular
-- expressions of a purchase-order rule are compiled by the host: `regexp p` is what
-- `new RegExp(p, "u")` gives, `none` where it throws.
use Prim.Native.Char.{code}
use Prim.Native.String
use baobab_trade.Prelude.{
  ℕ, ℤ, pos, ltb_ℤ, leb_ℤ, eqb_ℤ, leb, String, Bool, true, false, not, ◌&&◌, ◌||◌, ◌==◌, is_key,
  Option, none, some, List, [], ◌∷◌, ◌++◌, filter, all, length, if◌then◌else◌,
}
use baobab_trade.Policy.Decision.{
  Check, pass, stop, ◌>>=◌, ◌>>◌, deny_if, load, present, single, Single, none_found, ambiguous,
  one, denied, unavailable, approval_required, BuyerOperationDecision, allow, refuse,
  DecisionReason, transaction_changed, spend_policy_not_configured, context_not_usable,
  spend_limit_exceeded, purchase_order_required, approval_threshold_exceeded, buyer_not_authorised,
  separation_of_duties, source_unavailable,
}
use baobab_trade.Policy.Facts.{
  BuyerOperationFacts, Transaction, SpendAuthority, ApprovalPolicyRecord, PurchaseOrderRule,
  BoundApproval, ApprovalStatus, in_effect,
}
use baobab_trade.Policy.Budgets.{evaluate_budgets}

abbrev pub policy_revision : String
policy_revision = "trade.buyer-operation-policy:v1"

-- `!text` on a text that may be missing: the empty text is missing too.
abbrev pub non_empty : Option String → Option String
non_empty none = none
non_empty (some s) = if s == "" then none else some s

abbrev codes : String → List ℕ
codes String.[] = []
codes (String.◌∷◌ c s) = code c ∷ codes s

abbrev in_class : ℕ → ℕ → Bool
in_class lo c = leb lo c && leb c 0x7e

abbrev ends_visible : List ℕ → Bool
ends_visible [] = true
ends_visible (c ∷ []) = in_class 0x21 c
ends_visible (c ∷ d ∷ cs) = ends_visible (d ∷ cs)

abbrev starts_visible : List ℕ → Bool
starts_visible [] = false
starts_visible (c ∷ cs) = in_class 0x21 c

-- PO_NUMBER: 1 to 64 printable ASCII characters, the first and the last not spaces.
unfoldable pub is_po_number : String → Bool
is_po_number s =
    let cs = codes s in
    starts_visible cs && (ends_visible cs && (all (in_class 0x20) cs && leb (length cs) 64))

-- The compiled format: it did not compile, or it is the whole number's test.
unfoldable pub check_compiled : Option (String → Bool) → String → Check (Unit {0})
check_compiled none number = stop denied (context_not_usable ∷ [])
check_compiled (some test) number = deny_if (not (test number)) purchase_order_required

module _ (regexp : String → Option (String → Bool)) where
  unfoldable pub check_format : Option String → String → Check (Unit {0})
  check_format none number = pass tt
  check_format (some p) number =
      check_compiled (regexp (String.◌++◌ "^(?:" (String.◌++◌ p ")$"))) number

  unfoldable pub check_required : PurchaseOrderRule → Option String → Check (Unit {0})
  check_required po number = do
    n ← present (non_empty number) purchase_order_required
    deny_if (not (is_po_number n)) purchase_order_required
    check_format po.format_pattern n

  -- A missing rule, and a rule that is not required, ask for nothing.
  unfoldable pub check_rule : Option PurchaseOrderRule → Option String → Check (Unit {0})
  check_rule none number = pass tt
  check_rule (some po) number =
      let checked = check_required po number in if po.required then checked else pass tt

  unfoldable pub check_purchase_order : BuyerOperationFacts → Check (Unit {0})
  check_purchase_order facts = do po ← load facts.purchase_order; check_rule po.rule po.number

unfoldable pub authority_applies : ℕ → String → Transaction → SpendAuthority → Bool
authority_applies now market_key tx s =
    is_key s.market_key market_key
    && (s.currency_code == tx.currency_code && in_effect now s.effective_from s.effective_until)

-- An explicit limit above zero.
unfoldable pub positive_limit : Option ℤ → DecisionReason → Check ℤ
positive_limit none r = stop denied (r ∷ [])
positive_limit (some l) r = if leb_ℤ l (pos 0) then stop denied (r ∷ []) else pass l

unfoldable pub unique_limit :
    (SpendAuthority → Option ℤ) → DecisionReason → Single SpendAuthority → Check ℤ
unfolding positive_limit
unique_limit field r ambiguous = stop denied (context_not_usable ∷ [])
unique_limit field r none_found = stop denied (r ∷ [])
unique_limit field r (one s) = positive_limit (field s) r

-- The one limit in effect for this market and currency.
unfoldable pub find_limit :
    BuyerOperationFacts
    → Transaction
    → String
    → (SpendAuthority → Option ℤ)
    → DecisionReason
    → Check ℤ
find_limit facts tx market_key field r = do
  authorities ← load facts.spend_authorities
  unique_limit field r (single (filter (authority_applies facts.now market_key tx) authorities))

unfoldable pub policy_applies : String → Transaction → ApprovalPolicyRecord → Bool
policy_applies market_key tx p =
    p.enabled && (is_key p.market_key market_key && p.currency_code == tx.currency_code)

abbrev pub over : ℤ → Option ℤ → Bool
over amount none = false
over amount (some threshold) = ltb_ℤ threshold amount

abbrev pub over_threshold : ℤ → Single ApprovalPolicyRecord → Bool
over_threshold amount (one p) = over amount p.threshold_minor
over_threshold amount none_found = false
over_threshold amount ambiguous = false

abbrev pub is_none_found : Single ApprovalPolicyRecord → Bool
is_none_found none_found = true
is_none_found ambiguous = false
is_none_found (one p) = false

abbrev pub is_ambiguous_policy : Single ApprovalPolicyRecord → Bool
is_ambiguous_policy ambiguous = true
is_ambiguous_policy none_found = false
is_ambiguous_policy (one p) = false

abbrev pub escalation_reasons : Bool → Bool → List DecisionReason
escalation_reasons over_limit over_thr =
    (if over_limit then spend_limit_exceeded ∷ [] else [])
    ++ (if over_thr then approval_threshold_exceeded ∷ [] else [])

abbrev pub is_approved : ApprovalStatus → Bool
is_approved ApprovalStatus.approved = true
is_approved _ = false

abbrev pub is_pending : ApprovalStatus → Bool
is_pending ApprovalStatus.pending = true
is_pending _ = false

unfoldable pub bound_to : BoundApproval → Transaction → String → Bool
bound_to a tx market_key =
    is_key a.transaction_digest tx.transaction_digest
    && (is_key a.resource_version tx.resource_version
        && (eqb_ℤ a.amount_minor tx.amount_minor
            && (a.currency_code == tx.currency_code && is_key a.market_key market_key)))

-- What the approver's current re-evaluation answers.
unfoldable pub check_approver :
    Option BuyerOperationDecision → List DecisionReason → Check (Unit {0})
check_approver none rs = stop unavailable (source_unavailable ∷ [])
check_approver (some allow) rs = pass tt
check_approver (some (refuse unavailable _)) rs = stop unavailable (source_unavailable ∷ [])
check_approver (some (refuse _ _)) rs = stop approval_required rs

unfoldable pub apply_approval :
    BuyerOperationFacts
    → Transaction
    → String
    → BoundApproval
    → List DecisionReason
    → Check (Unit {0})
apply_approval facts tx market_key a rs = do
  deny_if (not (a.organisation_id == facts.organisation_id)) buyer_not_authorised
  initiator ← present (non_empty a.initiator_principal_id) context_not_usable
  approver ← present (non_empty a.approver_principal_id) context_not_usable
  revision ← present a.policy_revision context_not_usable
  deny_if (not (initiator == facts.principal_id)) buyer_not_authorised
  deny_if (approver == initiator) separation_of_duties
  deny_if (not (bound_to a tx market_key) || not (revision == policy_revision)) transaction_changed
  check_approver facts.approver_reevaluation rs

unfoldable pub need_approval :
    BuyerOperationFacts
    → Transaction
    → String
    → Option BoundApproval
    → List DecisionReason
    → Check (Unit {0})
need_approval facts tx market_key none rs = stop approval_required rs
need_approval facts tx market_key (some a) rs =
    let applied = apply_approval facts tx market_key a rs in
    if is_approved a.status then applied else stop approval_required rs

-- The part of evaluateCommitment from the approval policy on, given the order limit.
unfoldable pub escalate : BuyerOperationFacts → Transaction → String → ℤ → Check (Unit {0})
escalate facts tx market_key limit = do
  policies ← load facts.approval_policies
  let policy = single (filter (policy_applies market_key tx) policies)
  deny_if (is_ambiguous_policy policy) context_not_usable
  let over_limit = ltb_ℤ limit tx.amount_minor
  deny_if (over_limit && is_none_found policy) spend_limit_exceeded
  let over_thr = over_threshold tx.amount_minor policy
  let escalated =
      need_approval facts tx market_key facts.approval (escalation_reasons over_limit over_thr)
  if not over_limit && not over_thr then pass tt else escalated

module _ (regexp : String → Option (String → Bool)) where
  unfoldable pub evaluate_commitment : BuyerOperationFacts → Check (Unit {0})
  evaluate_commitment facts = do
    tx ← present facts.transaction context_not_usable
    deny_if (leb_ℤ tx.amount_minor (pos 0)) context_not_usable
    market_key ← present (non_empty facts.market_key) context_not_usable
    check_purchase_order regexp facts
    limit ← find_limit facts tx market_key (λ s. s.order_limit_minor) spend_policy_not_configured
    evaluate_budgets facts tx market_key
    escalate facts tx market_key limit
