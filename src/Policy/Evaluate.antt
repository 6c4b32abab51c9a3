-- ===== src/Policy/Evaluate.antt =====
-- baobab/b2b/buyer-operation-policy.ts: evaluateBuyerOperation.
use baobab_trade.Prelude.{
  ℕ, String, Bool, true, false, not, ◌&&◌, ◌||◌, ◌==◌, is_key, Option, none, some, List, [], ◌∷◌,
  filter, find, any, all, includes, if◌then◌else◌,
}
use baobab_trade.Policy.Decision.{
  Check, pass, stop, ◌>>=◌, ◌>>◌, deny_if, load, present, decision, BuyerOperationDecision, denied,
  unavailable, source_unavailable, role_not_permitted, operation_not_activated,
  buyer_not_authorised, context_not_usable, market_not_permitted, site_not_permitted,
}
use baobab_trade.Policy.Facts.{
  BuyerOperation, buyer_invitation_accept, BuyerOperationFacts, Membership, RoleAssignment,
  ScopeGrant, GrantStatus, SiteUse, Use, shipping, billing, SiteRecord, SiteStatus, MarketAuthority,
  in_effect,
}
use baobab_trade.Policy.Rules.{
  is_role, SiteNeed, no_site, if_referenced, required, Kind, read, change, commitment, approval,
  governed, OperationRule, operation_rule,
}
use baobab_trade.Policy.Commitment.{non_empty, evaluate_commitment}
use baobab_trade.Policy.Approval.{evaluate_approval_decision}

abbrev is_invitation : BuyerOperation → Bool
is_invitation buyer_invitation_accept = true
is_invitation _ = false

unfoldable pub check_membership : ℕ → Membership → Check (Unit {0})
check_membership now m =
    deny_if (not (m.status == "ACTIVE") || not (in_effect now m.effective_from m.effective_until))
      buyer_not_authorised

abbrev pub is_permitted : List String → RoleAssignment → Bool
is_permitted rs r = is_role r.role && includes rs r.role

abbrev pub is_empty {ℓ} : {A : Type ℓ} → List A → Bool
is_empty [] = true
is_empty (x ∷ xs) = false

abbrev pub is_governed : Kind → Bool
is_governed governed = true
is_governed _ = false

-- The permitted roles that the member holds.
unfoldable pub check_roles : BuyerOperationFacts → OperationRule → Check (List RoleAssignment)
check_roles facts rule = do
  roles ← load facts.roles
  let permitted = filter (is_permitted rule.roles) roles
  deny_if (is_empty permitted) role_not_permitted
  deny_if (is_governed rule.kind) operation_not_activated
  pass permitted

unfoldable pub check_authority : MarketAuthority → Check (Unit {0})
check_authority MarketAuthority.attested = pass tt
check_authority MarketAuthority.denied = stop denied (market_not_permitted ∷ [])
check_authority MarketAuthority.unavailable = stop unavailable (source_unavailable ∷ [])

unfoldable pub check_market : BuyerOperationFacts → Bool → Check (Unit {0})
check_market facts false = pass tt
check_market facts true = do
  _ ← present (non_empty facts.market_key) context_not_usable
  check_authority facts.market_authority

abbrev pub is_shipping : Use → Bool
is_shipping shipping = true
is_shipping billing = false

abbrev pub is_active_site : SiteStatus → Bool
is_active_site SiteStatus.active = true
is_active_site _ = false

abbrev pub supports : Use → SiteRecord → Bool
supports shipping s = s.allow_shipping
supports billing s = s.allow_billing

unfoldable pub check_site : BuyerOperationFacts → List SiteRecord → SiteUse → Check (Unit {0})
check_site facts records use_ = do
  site ← present (find (λ s. s.id == use_.site_id) records) buyer_not_authorised
  deny_if (not (site.organisation_id == facts.organisation_id)) buyer_not_authorised
  deny_if
      (not (is_active_site site.status)
        || not (is_key facts.market_key site.market_key)
        || not (supports use_.purpose site))
      site_not_permitted

-- The loop over the referenced Sites.
unfoldable pub check_each_site :
    BuyerOperationFacts → List SiteRecord → List SiteUse → Check (Unit {0})
check_each_site facts records [] = pass tt
check_each_site facts records (u ∷ us) =
    check_site facts records u >> check_each_site facts records us

abbrev needs_shipping : SiteNeed → List SiteUse → Bool
needs_shipping required sites = not (any (λ s. is_shipping s.purpose) sites)
needs_shipping no_site sites = false
needs_shipping if_referenced sites = false

abbrev refuses_sites : SiteNeed → List SiteUse → Bool
refuses_sites no_site sites = not (is_empty sites)
refuses_sites required sites = false
refuses_sites if_referenced sites = false

unfoldable pub load_sites : BuyerOperationFacts → List SiteUse → Check (Unit {0})
load_sites facts [] = pass tt
load_sites facts (u ∷ us) = do
  records ← load facts.site_records
  check_each_site facts records (u ∷ us)

unfoldable pub check_sites : BuyerOperationFacts → SiteNeed → Check (Unit {0})
check_sites facts need = do
  deny_if (refuses_sites need facts.sites) context_not_usable
  deny_if (needs_shipping need facts.sites) context_not_usable
  load_sites facts facts.sites

abbrev pub is_active_grant : GrantStatus → Bool
is_active_grant GrantStatus.active = true
is_active_grant _ = false

abbrev pub grants : ℕ → String → ScopeGrant → Bool
grants now key g =
    g.key == key && (is_active_grant g.status && in_effect now g.effective_from g.effective_until)

unfoldable pub active_grant : List ScopeGrant → String → ℕ → Bool
active_grant gs key now = any (grants now key) gs

abbrev pub holds_market : BuyerOperationFacts → RoleAssignment → Bool
holds_market facts r = elim facts.market_key [
  | none ↦ false
  | some key ↦ active_grant r.markets key facts.now
]

abbrev pub holds_sites : BuyerOperationFacts → RoleAssignment → Bool
holds_sites facts r = all (λ s. active_grant r.sites s.site_id facts.now) facts.sites

-- One permitted assignment must hold the Market grant and every Site grant.
unfoldable pub check_scope : BuyerOperationFacts → Bool → List RoleAssignment → Check (Unit {0})
check_scope facts market permitted = do
  let with_market = if market then filter (holds_market facts) permitted else permitted
  deny_if (is_empty with_market) market_not_permitted
  deny_if (is_empty (filter (holds_sites facts) with_market)) site_not_permitted

module _ (regexp : String → Option (String → Bool)) where
  unfoldable pub by_kind : BuyerOperationFacts → Kind → Check (Unit {0})
  by_kind facts commitment = evaluate_commitment regexp facts
  by_kind facts approval = evaluate_approval_decision facts
  by_kind facts read = pass tt
  by_kind facts change = pass tt
  by_kind facts governed = pass tt

  unfoldable pub evaluate : BuyerOperationFacts → Check (Unit {0})
  evaluate facts = do
    rule ← present (operation_rule facts.operation) role_not_permitted
    deny_if (is_invitation facts.operation) operation_not_activated
    check_membership facts.now facts.membership
    permitted ← check_roles facts rule
    check_market facts rule.market
    check_sites facts rule.site
    check_scope facts rule.market permitted
    by_kind facts rule.kind

  unfoldable pub evaluate_buyer_operation : BuyerOperationFacts → BuyerOperationDecision
  unfolding evaluate
  evaluate_buyer_operation facts = decision (evaluate facts)
