-- ===== src/Orders/Binding.antt =====
-- baobab/orders/governed-binding-command-policy.ts: the checks of a binding's proposal, approval and
-- revocation, true where nothing is thrown. `Date.parse` is a parameter.
use baobab_trade.Prelude.{
  ℕ, zero, suc, ◌+◌, ◌*◌, String, Bool, true, false, not, ◌==◌, ◌&&◌, ◌||◌, Option, none, some,
  List, [], ◌∷◌, if◌then◌else◌, leb, ltb, eqb, includes, has_text, is_run, is_upper, is_digit,
  codes, take,
}
use Prim.Native.Nat.{◌%◌, ◌-◌}
use baobab_trade.Commercial.Timestamps.{after_template}

pub record BindingScope : Type 0 where
  pub cart_id : String
  pub tenant_id : String
  pub organisation_id : String
  pub responsible_legal_entity_id : String
  pub market_code : String
  pub currency_code : String
  pub sales_channel_id : String
  pub region_id : String

pub record GovernedActor : Type 0 where
  pub subject : String
  pub tenant_id : String
  pub organisation_id : String
  pub audience : String
  pub scopes : List String

pub record BindingProposal : Type 0 where
  pub scope : BindingScope
  pub maker : GovernedActor
  pub proposed_at : String
  pub expires_at : String
  pub evidence_reference : String

pub record BindingApproval : Type 0 where
  pub proposal : BindingProposal
  pub checker : GovernedActor
  pub approved_at : String
  pub approval_reference : String

pub data BindingOperation : Type 0 where
  propose approve revoke : BindingOperation

-- The number that digits write.
abbrev number_from : ℕ → List ℕ → ℕ
number_from n [] = n
number_from n (c ∷ cs) = number_from (n * 10 + (c - b'0')) cs

abbrev is_nothing : Option (List ℕ) → Bool
is_nothing (some []) = true
is_nothing _ = false

abbrev is_zone_by : ℕ → List ℕ → Bool
is_zone_by c [] = eqb c b'Z'
is_zone_by c (d ∷ ds) =
    (eqb c b'+' || eqb c b'-') && is_nothing (after_template (codes "dd:dd") (d ∷ ds))

-- `Z`, or a sign with hours and minutes.
abbrev is_zone : List ℕ → Bool
is_zone [] = false
is_zone (c ∷ cs) = is_zone_by c cs

-- Digits, and then the zone.
abbrev is_fraction : List ℕ → Bool
is_fraction [] = false
is_fraction (c ∷ cs) = let rest = is_fraction cs in if is_digit c then rest else is_zone (c ∷ cs)

abbrev is_end : List ℕ → Bool
is_end [] = false
is_end (c ∷ []) = eqb c b'Z'
is_end (c ∷ d ∷ cs) = if eqb c b'.' then is_digit d && is_fraction cs else is_zone (c ∷ d ∷ cs)

abbrev ends : Option (List ℕ) → Bool
ends none = false
ends (some cs) = is_end cs

unfoldable pub is_binding_text : List ℕ → Bool
is_binding_text cs = ends (after_template (codes "dddd-dd-ddTdd:dd:dd") cs)

abbrev is_leap : ℕ → Bool
is_leap y = eqb (y % 4) 0 && (not (eqb (y % 100) 0) || eqb (y % 400) 0)

-- `new Date(Date.UTC(year, month, 0)).getUTCDate()`; the years 0 to 99 are those of 1900.
unfoldable pub days_in : ℕ → ℕ → ℕ
days_in year month =
    let y = if leb year 99 then 1900 + year else year in
    if eqb month 2
    then (if is_leap y then 29 else 28)
    else (if eqb month 4 || eqb month 6 || eqb month 9 || eqb month 11 then 30 else 31)

abbrev drop_codes : ℕ → List ℕ → List ℕ
drop_codes zero cs = cs
drop_codes (suc n) [] = []
drop_codes (suc n) (c ∷ cs) = drop_codes n cs

abbrev field : ℕ → ℕ → List ℕ → ℕ
field from count cs = number_from 0 (take count (drop_codes from cs))

abbrev is_calendar : ℕ → ℕ → ℕ → Bool
is_calendar year month day =
    leb 1 month && leb month 12 && leb 1 day && leb day (days_in year month)

-- `parseBindingTimestamp`; none is NaN.
unfoldable pub parse_binding_timestamp : (String → Option ℕ) → String → Option ℕ
parse_binding_timestamp parse s =
    if is_binding_text (codes s)
      && is_calendar (field 0 4 (codes s)) (field 5 2 (codes s)) (field 8 2 (codes s))
    then parse s
    else none

abbrev pub required_scope : BindingOperation → String
required_scope propose = "trade-binding:propose"
required_scope approve = "trade-binding:approve"
required_scope revoke = "trade-binding:revoke"

unfoldable pub assert_actor : GovernedActor → BindingScope → BindingOperation → Bool
assert_actor a s operation =
    has_text a.subject
    && a.audience == "baobab-control-plane"
    && a.tenant_id == s.tenant_id
    && a.organisation_id == s.organisation_id
    && includes a.scopes (required_scope operation)

unfoldable pub assert_scope : BindingScope → Bool
assert_scope s =
    has_text s.cart_id
    && has_text s.tenant_id
    && has_text s.organisation_id
    && has_text s.responsible_legal_entity_id
    && has_text s.market_code
    && has_text s.currency_code
    && has_text s.sales_channel_id
    && has_text s.region_id
    && is_run is_upper 2 2 s.market_code
    && is_run is_upper 3 3 s.currency_code

-- The times of a proposal: proposed by now, and not expired.
unfoldable pub is_proposed : Option ℕ → Option ℕ → ℕ → Bool
is_proposed none expiry now = false
is_proposed (some proposed) none now = false
is_proposed (some proposed) (some expiry) now =
    leb proposed now && ltb now expiry && ltb proposed expiry

abbrev is_less : ℕ → Option ℕ → Bool
is_less t none = false
is_less t (some u) = ltb t u

abbrev is_at_least : ℕ → Option ℕ → Bool
is_at_least t none = false
is_at_least t (some u) = leb u t

-- The time of an approval: after the proposal, by now and before the end. A comparison with a time
-- that is not a number fails, so it denies nothing.
unfoldable pub is_approved : Option ℕ → Option ℕ → Option ℕ → ℕ → Bool
is_approved none proposed expiry now = false
is_approved (some approved) proposed expiry now =
    not (is_less approved proposed) && leb approved now && not (is_at_least approved expiry)

module _ (parse : String → Option ℕ) where
  -- `assertBindingProposal`.
  unfoldable pub assert_binding_proposal : BindingProposal → ℕ → Bool
  assert_binding_proposal p now =
      assert_scope p.scope
      && assert_actor p.maker p.scope propose
      && has_text p.evidence_reference
      && is_proposed (parse_binding_timestamp parse p.proposed_at)
          (parse_binding_timestamp parse p.expires_at) now

  -- `assertBindingApproval`.
  unfoldable pub assert_binding_approval : BindingApproval → ℕ → Bool
  assert_binding_approval a now =
      assert_binding_proposal a.proposal now
      && assert_actor a.checker a.proposal.scope approve
      && not (a.checker.subject == a.proposal.maker.subject)
      && has_text a.approval_reference
      && is_approved (parse_binding_timestamp parse a.approved_at)
          (parse_binding_timestamp parse a.proposal.proposed_at)
          (parse_binding_timestamp parse a.proposal.expires_at) now

-- `assertBindingRevocation`.
unfoldable pub assert_binding_revocation : BindingScope → GovernedActor → String → String → Bool
assert_binding_revocation s actor reason evidence =
    assert_scope s && assert_actor actor s revoke && has_text reason && has_text evidence
