-- ===== src/Auth/Assurance.antt =====
-- `evaluateAssurance` of baobab/auth/buyer-assurance.ts, with the policy of
-- baobab/auth/buyer-assurance-policy.ts. A time that is not a number is none; no end is none.
use Prim.Native.Nat.{min}
use baobab_trade.Prelude.{
  ℕ, ◌+◌, ◌-◌, ◌*◌, String, Bool, true, false, not, ◌==◌, ◌&&◌, ◌||◌, Option, none, some, List,
  includes, any, leb, ltb,
}

pub data AssuranceProfile : Type 0 where
  buyer_session buyer_commitment buyer_administration : AssuranceProfile

pub data BuyerOperation : Type 0 where
  buyer_context_resolve private_catalogue_view contract_price_view cart_modify : BuyerOperation
  rfq_submit quotation_accept purchase_approval_decide order_commit order_create : BuyerOperation
  draft_order_finalize buyer_invitation_accept buyer_member_manage : BuyerOperation

unfoldable pub canonical_profile : BuyerOperation → AssuranceProfile
canonical_profile buyer_context_resolve = buyer_session
canonical_profile private_catalogue_view = buyer_session
canonical_profile contract_price_view = buyer_session
canonical_profile cart_modify = buyer_session
canonical_profile rfq_submit = buyer_commitment
canonical_profile quotation_accept = buyer_commitment
canonical_profile purchase_approval_decide = buyer_commitment
canonical_profile order_commit = buyer_commitment
canonical_profile order_create = buyer_commitment
canonical_profile draft_order_finalize = buyer_commitment
canonical_profile buyer_invitation_accept = buyer_commitment
canonical_profile buyer_member_manage = buyer_administration

pub record Requirement : Type 0 where
  pub accepted_acr_values : List String
  pub required_methods : Option (List String)
  pub max_authentication_age_seconds : Option ℕ

pub record ApprovedPolicy : Type 0 where
  pub issuer : String
  pub policy_revision : String
  pub effective_from : ℕ
  pub effective_until : Option ℕ
  pub profiles : AssuranceProfile → Option Requirement

pub record InterimPolicy : Type 0 where
  pub issuer : String
  pub accepted_session_acr : List String
  pub approval_reference : String

pub data Policy : Type 0 where
  absent : Policy
  approved : ApprovedPolicy → Policy
  interim : InterimPolicy → Policy

pub record Token : Type 0 where
  pub issuer : String
  pub acr : Option String
  pub amr : Option (List String)
  pub auth_time : Option ℕ

pub data AssuranceRefusal : Type 0 where
  assurance_insufficient operation_not_activated : AssuranceRefusal

pub data AssuranceOutcome : Type 0 where
  ok : String → Option ℕ → AssuranceOutcome
  refused : AssuranceRefusal → AssuranceOutcome

unfoldable pub refuse_if : Bool → AssuranceRefusal → AssuranceOutcome → AssuranceOutcome
refuse_if true r k = refused r
refuse_if false r k = k

abbrev pub is_accepted : Option String → List String → Bool
is_accepted none values = false
is_accepted (some acr) values = not (acr == "") && includes values acr

abbrev pub is_method_of : Option (List String) → String → Bool
is_method_of none m = false
is_method_of (some methods) m = includes methods m

abbrev pub misses_method : Option (List String) → Option (List String) → Bool
misses_method none amr = false
misses_method (some methods) amr = any (λ m. not (is_method_of amr m)) methods

-- `now < effectiveUntil`, where the policy may have no end.
abbrev pub is_before : ℕ → Option ℕ → Bool
is_before now none = true
is_before now (some until) = ltb now until

-- `Math.min(effectiveUntil, end)`.
abbrev pub earlier : Option ℕ → ℕ → ℕ
earlier none end = end
earlier (some until) end = min until end

-- `Number.MAX_SAFE_INTEGER`.
abbrev pub max_safe : ℕ
max_safe = 9007199254740991

unfoldable pub check_age : ApprovedPolicy → Option ℕ → Option ℕ → ℕ → AssuranceOutcome
check_age p none authenticated now = ok p.policy_revision p.effective_until
check_age p (some seconds) none now = refused assurance_insufficient
check_age p (some seconds) (some t) now =
    refuse_if (not (leb (seconds * 1000) max_safe) || ltb now t || ltb (seconds * 1000) (now - t))
      assurance_insufficient
      (ok p.policy_revision (some (earlier p.effective_until (t + seconds * 1000))))

unfoldable pub check_profile : ApprovedPolicy → Option Requirement → Token → ℕ → AssuranceOutcome
check_profile p none token now = refused operation_not_activated
check_profile p (some r) token now =
    refuse_if
      (not (is_accepted token.acr r.accepted_acr_values)
        || misses_method r.required_methods token.amr)
      assurance_insufficient (check_age p r.max_authentication_age_seconds token.auth_time now)

abbrev pub is_session : AssuranceProfile → Bool
is_session buyer_session = true
is_session _ = false

-- `evaluateAssurance`.
unfoldable pub evaluate_assurance : Policy → BuyerOperation → Token → ℕ → AssuranceOutcome
evaluate_assurance absent operation token now = refused operation_not_activated
evaluate_assurance (approved p) operation token now =
    refuse_if
      (ltb now p.effective_from
        || not (is_before now p.effective_until)
        || not (token.issuer == p.issuer))
      operation_not_activated (check_profile p (p.profiles (canonical_profile operation)) token now)
evaluate_assurance (interim p) operation token now =
    refuse_if (not (is_session (canonical_profile operation))) operation_not_activated (
      refuse_if
        (not (token.issuer == p.issuer) || not (is_accepted token.acr p.accepted_session_acr))
        assurance_insufficient (ok "buyer-assurance.interim-acr-allowlist:v1" none))
