-- ===== src/Orders/Classify.antt =====
-- `classifyNativeCommitment` of baobab/orders/native-commitment-classification.ts. Parameters: what the
-- Control Plane answers, whether its answer can be recorded, whether a record is of the wire contract
-- and whether the database refuses it, the clock and new ids.
use baobab_trade.Prelude.{
  ℕ, String, Bool, true, false, not, ◌==◌, ◌&&◌, ◌||◌, Option, none, some, List, [], ◌∷◌, ◌++◌,
  has_text, codes, is_alphanumeric, is_key_char, is_digit, between, all, length, leb, ltb, eqb,
  includes, if◌then◌else◌,
}
use baobab_trade.Prelude.Words.{concat}
use baobab_trade.Orders.Provenance.{
  ClassificationRefusal, classification_absent, classification_conflict, classification_changed,
  profile_unavailable, buyer_authority_absent, CommerceModel, b2b, b2c, BuyerModel,
  buyer_organisation, consumer, AssignmentOperation, order_commit, order_create,
  draft_order_finalize, ProvenanceKind, estate_client_binding, governed_resource_assignment,
  EstateProvenance, ProvenStatement, proven, revision_text, Buyer, organisation, individual,
  model_of, ClassifyRequest, Attestation, Resolution, attested, failed, cp_refusal, direct,
  NewClassification, Classification,
}
use baobab_trade.Orders.Store.{
  eq_type, Table, Stored, created, existing, changed, store_fails, classify_row,
}

pub data Outcome : Type 0 where
  classified : Classification → Outcome
  refused : ClassificationRefusal → Outcome

pub record Dependencies : Type 0 where
  pub engine_instance_id : String
  pub profiles : Option (String → String → EstateProvenance → String → Resolution)
  pub observes : Attestation → Bool
  pub conforms : NewClassification → ℕ → Bool
  pub database_refuses : NewClassification → Table → Bool
  pub show : ℕ → String
  pub now : ℕ
  pub new_id : String

-- `/^[A-Za-z0-9][A-Za-z0-9_:.-]{0,199}$/`.
abbrev is_resource_codes : List ℕ → Bool
is_resource_codes [] = false
is_resource_codes (c ∷ cs) = is_alphanumeric c && all is_key_char cs && leb (length cs) 199

unfoldable pub is_resource : String → Bool
is_resource s = is_resource_codes (codes s)

abbrev is_lower_or_digit : ℕ → Bool
is_lower_or_digit c = between b'a' b'z' c || is_digit c

-- The rest of `/^[a-z][a-z0-9]*(?:_[a-z0-9]+)*$/`, after an underscore or not.
unfoldable pub is_market_rest : Bool → List ℕ → Bool
is_market_rest after_underscore [] = not after_underscore
is_market_rest after_underscore (c ∷ cs) =
    let rest = is_market_rest (eqb c b'_') cs in
    (is_lower_or_digit c || eqb c b'_' && not after_underscore) && rest

abbrev is_market_codes : List ℕ → Bool
is_market_codes [] = false
is_market_codes (c ∷ cs) = between b'a' b'z' c && is_market_rest false cs

unfoldable pub is_market : String → Bool
unfolding is_market_rest
is_market s = is_market_codes (codes s)

abbrev pub is_later : Option ℕ → ℕ → Bool
is_later none now = false
is_later (some t) now = ltb now t

abbrev pub eq_operation : AssignmentOperation → AssignmentOperation → Bool
eq_operation order_commit order_commit = true
eq_operation order_create order_create = true
eq_operation draft_order_finalize draft_order_finalize = true
eq_operation _ _ = false

abbrev pub is_operation : Option AssignmentOperation → AssignmentOperation → Bool
is_operation none o = false
is_operation (some p) o = eq_operation p o

-- Whether the provenance is limited to another Market or to another operation.
abbrev pub is_other_market : Option String → String → Bool
is_other_market none market = false
is_other_market (some m) market = not (m == market)

abbrev pub is_other_operation : Option AssignmentOperation → Option AssignmentOperation → Bool
is_other_operation none asked = false
is_other_operation (some o) asked = not (is_operation asked o)

abbrev pub names_by : ProvenanceKind → List String → List String → Bool
names_by governed_resource_assignment evidence references = true
names_by estate_client_binding [] references = false
names_by estate_client_binding (e ∷ es) references = includes references e

abbrev pub names_binding : ProvenStatement → List String → Bool
names_binding estate references = names_by estate.provenance.kind estate.evidence references

-- The check of the buyer relationship: what it refuses, if anything.
unfoldable pub buyer_refusal : Dependencies → ProvenStatement → Buyer → Option ClassificationRefusal
buyer_refusal deps estate (organisation c) =
    if not (c.digital_estate_id == estate.digital_estate_id)
      || not (c.tenant_id == estate.tenant_id)
      || not (c.engine_instance_id == deps.engine_instance_id)
      || not (names_binding estate c.evidence_references)
      || not (is_later c.expires_at deps.now)
    then some classification_conflict
    else none
buyer_refusal deps estate (individual reference) =
    if not (has_text reference) then some classification_absent else none

-- CP and Trade must agree.
unfoldable pub model_refusal : CommerceModel → BuyerModel → Option ClassificationRefusal
model_refusal b2b consumer = some buyer_authority_absent
model_refusal b2c buyer_organisation = some classification_conflict
model_refusal b2b buyer_organisation = none
model_refusal b2c consumer = none

abbrev pub organisation_of : Buyer → Option String
organisation_of (organisation c) = some c.buyer_organisation_id
organisation_of (individual r) = none

abbrev membership_of : Buyer → Option String
membership_of (organisation c) = some c.buyer_membership_id
membership_of (individual r) = none

abbrev pub consumer_of : Buyer → Option String
consumer_of (organisation c) = none
consumer_of (individual r) = some r

abbrev context_of : Buyer → Option String
context_of (organisation c) = some c.context_id
context_of (individual r) = none

abbrev buyer_evidence : Buyer → List String
buyer_evidence (organisation c) = concat "trade-buyer-context:" c.context_id ∷ []
buyer_evidence (individual r) = []

unfoldable pub new_classification :
    Dependencies → ClassifyRequest → ProvenStatement → String → Attestation → NewClassification
new_classification deps q estate market a = record {
  wire = record {
    classification_id = deps.new_id;
    resource_type = q.resource_type;
    resource_id = q.resource_id;
    origin = direct;
    digital_estate_id = estate.digital_estate_id;
    tenant_id = a.tenant_id;
    trade_engine_instance_id = deps.engine_instance_id;
    market_id = market;
    commerce_model = a.commerce_model;
    commerce_profile_id = a.commerce_profile_id;
    profile_revision = a.profile_revision;
    profile_attestation_id = a.attestation_id;
    binding_id = q.attribution.binding_id;
    binding_version = q.attribution.binding_version;
    buyer_account_model = model_of q.buyer;
    buyer_organisation_id = organisation_of q.buyer;
    buyer_membership_id = membership_of q.buyer;
    consumer_reference = consumer_of q.buyer;
    evidence_references =
        revision_text deps.show "cp-commerce-profile:" a.commerce_profile_id a.profile_revision
          ∷ concat "cp-commerce-profile-attestation:" a.attestation_id
          ∷ estate.evidence
        ++ concat "trade-attribution:" q.attribution.attribution_id ∷ buyer_evidence q.buyer;
  };
  attribution_id = q.attribution.attribution_id;
  seller_context_id = q.attribution.context_id;
  buyer_context_id = context_of q.buyer;
  correlation_id = q.correlation_id;
}

unfoldable pub refuse_if : Bool → ClassificationRefusal → Table → Outcome × Table → Outcome × Table
refuse_if true reason t k = (refused reason, t)
refuse_if false reason t k = k

unfoldable pub refuse_by : Option ClassificationRefusal → Table → Outcome × Table → Outcome × Table
refuse_by (some reason) t k = (refused reason, t)
refuse_by none t k = k

unfoldable pub outcome_of : Stored × Table → Outcome × Table
outcome_of (created c, t) = (classified c, t)
outcome_of (existing c, t) = (classified c, t)
outcome_of (changed, t) = (refused classification_changed, t)
outcome_of (store_fails, t) = (refused profile_unavailable, t)

module _ (deps : Dependencies) (q : ClassifyRequest) (t : Table) where
  unfoldable pub store_row : NewClassification → Outcome × Table
  store_row row =
      refuse_if (not (deps.conforms row deps.now)) classification_conflict t
        (outcome_of (classify_row (deps.database_refuses row t) row deps.now t))

  unfoldable pub with_resolution : ProvenStatement → String → Resolution → Outcome × Table
  with_resolution estate market (failed code) = (refused (cp_refusal code), t)
  with_resolution estate market (attested a) =
      refuse_if (not (deps.observes a)) classification_conflict t (
        refuse_if (not (a.tenant_id == estate.tenant_id)) classification_conflict t (
          refuse_by (model_refusal a.commerce_model (model_of q.buyer)) t
            (store_row (new_classification deps q estate market a))))

  unfoldable pub with_profiles :
      ProvenStatement
      → String
      → Option (String → String → EstateProvenance → String → Resolution)
      → Outcome × Table
  with_profiles estate market none = (refused profile_unavailable, t)
  with_profiles estate market (some resolve) =
      with_resolution estate market
        (resolve estate.digital_estate_id market estate.provenance q.correlation_id)

  unfoldable pub with_estate : String → ProvenStatement → Outcome × Table
  with_estate market estate =
      refuse_if
        (not (estate.engine_instance_id == deps.engine_instance_id)
          || not (estate.tenant_id == q.attribution.tenant_id)
          || is_other_market estate.market_id market
          || is_other_operation estate.operation q.operation
          || not (ltb deps.now estate.expires_at))
        classification_conflict t
        (refuse_by (buyer_refusal deps estate q.buyer) t
          (with_profiles estate market deps.profiles))

  unfoldable pub with_market : Option String → Outcome × Table
  with_market none = (refused classification_absent, t)
  with_market (some market) =
      refuse_if (not (is_market market)) classification_absent t
        (with_estate market (proven deps.show q.estate))

  -- `classifyNativeCommitment`.
  unfoldable pub classify_native_commitment : Outcome × Table
  classify_native_commitment =
      refuse_if
        (not (is_resource q.resource_id)
          || not (eq_type q.attribution.subject_type q.resource_type)
          || not (q.attribution.subject_id == q.resource_id)
          || not (q.attribution.engine_instance_id == deps.engine_instance_id)
          || not (q.seller_context_id == q.attribution.context_id))
        classification_absent t (with_market q.seller_market_id)
