-- ===== src/Orders/Provenance.antt =====
-- baobab/orders/native-commitment-classification.ts: the vocabulary of a classification, and what
-- proves the estate of a commitment. How a number is printed is a parameter.
use baobab_trade.Prelude.{ℕ, String, Option, none, some, List, [], ◌∷◌}
use baobab_trade.Prelude.Words.{concat}

pub data ClassificationRefusal : Type 0 where
  classification_absent profile_not_active classification_conflict : ClassificationRefusal
  classification_changed profile_unavailable buyer_authority_absent : ClassificationRefusal

pub data ResourceType : Type 0 where
  cart draft_order order : ResourceType

pub data CommerceModel : Type 0 where
  b2b b2c : CommerceModel

pub data BuyerModel : Type 0 where
  buyer_organisation consumer : BuyerModel

pub data AssignmentOperation : Type 0 where
  order_commit order_create draft_order_finalize : AssignmentOperation

pub data ProvenanceKind : Type 0 where
  estate_client_binding governed_resource_assignment : ProvenanceKind

pub record EstateProvenance : Type 0 where
  pub kind : ProvenanceKind
  pub reference : String

pub record EstateBinding : Type 0 where
  pub binding_id : String
  pub revision : ℕ
  pub digital_estate_id : String
  pub tenant_id : String
  pub engine_instance_id : String
  pub expires_at : ℕ

pub record ResourceAssignment : Type 0 where
  pub attestation_id : String
  pub assignment_id : String
  pub assignment_revision : ℕ
  pub digital_estate_id : String
  pub tenant_id : String
  pub engine_instance_id : String
  pub market_id : String
  pub operation : AssignmentOperation
  pub expires_at : ℕ

pub data EstateProof : Type 0 where
  client_binding : EstateBinding → EstateProof
  resource_assignment : ResourceAssignment → EstateProof

-- What every provenance proves, in one shape.
pub record ProvenStatement : Type 0 where
  pub provenance : EstateProvenance
  pub digital_estate_id : String
  pub tenant_id : String
  pub engine_instance_id : String
  pub expires_at : ℕ
  pub market_id : Option String
  pub operation : Option AssignmentOperation
  pub evidence : List String

abbrev pub revision_text : (ℕ → String) → String → String → ℕ → String
revision_text show kind id revision = concat kind (concat id (concat "@r" (show revision)))

unfoldable pub proven : (ℕ → String) → EstateProof → ProvenStatement
proven show (client_binding e) = record {
  provenance = record { kind = estate_client_binding; reference = e.binding_id };
  digital_estate_id = e.digital_estate_id;
  tenant_id = e.tenant_id;
  engine_instance_id = e.engine_instance_id;
  expires_at = e.expires_at;
  market_id = none;
  operation = none;
  evidence = revision_text show "cp-estate-binding:" e.binding_id e.revision ∷ [];
}
proven show (resource_assignment a) = record {
  provenance = record { kind = governed_resource_assignment; reference = a.attestation_id };
  digital_estate_id = a.digital_estate_id;
  tenant_id = a.tenant_id;
  engine_instance_id = a.engine_instance_id;
  expires_at = a.expires_at;
  market_id = some a.market_id;
  operation = some a.operation;
  evidence =
      revision_text show "cp-resource-assignment:" a.assignment_id a.assignment_revision
      ∷ concat "cp-resource-assignment-attestation:" a.attestation_id
      ∷ [];
}

-- The fields that the code reads of a buyer's execution context.
pub record BuyerContext : Type 0 where
  pub context_id : String
  pub digital_estate_id : String
  pub tenant_id : String
  pub engine_instance_id : String
  pub buyer_organisation_id : String
  pub buyer_membership_id : String
  pub evidence_references : List String
  pub expires_at : Option ℕ

pub data Buyer : Type 0 where
  organisation : BuyerContext → Buyer
  individual : String → Buyer

abbrev pub model_of : Buyer → BuyerModel
model_of (organisation c) = buyer_organisation
model_of (individual r) = consumer

-- The fields that the code reads of a seller attribution.
pub record Attribution : Type 0 where
  pub attribution_id : String
  pub subject_type : ResourceType
  pub subject_id : String
  pub tenant_id : String
  pub engine_instance_id : String
  pub binding_id : String
  pub binding_version : ℕ
  pub context_id : String

pub record ClassifyRequest : Type 0 where
  pub resource_type : ResourceType
  pub resource_id : String
  pub attribution : Attribution
  pub seller_context_id : String
  pub seller_market_id : Option String
  pub estate : EstateProof
  pub operation : Option AssignmentOperation
  pub buyer : Buyer
  pub correlation_id : String

-- What the Control Plane attests of the profile of an estate.
pub record Attestation : Type 0 where
  pub attestation_id : String
  pub commerce_profile_id : String
  pub profile_revision : ℕ
  pub tenant_id : String
  pub commerce_model : CommerceModel

pub data ProfileFailure : Type 0 where
  profile_not_registered not_active ambiguous provenance_invalid : ProfileFailure
  engine_not_permitted caller_not_permitted resolution_unavailable : ProfileFailure

pub data Resolution : Type 0 where
  attested : Attestation → Resolution
  failed : ProfileFailure → Resolution

unfoldable pub cp_refusal : ProfileFailure → ClassificationRefusal
cp_refusal profile_not_registered = classification_absent
cp_refusal provenance_invalid = classification_absent
cp_refusal not_active = profile_not_active
cp_refusal ambiguous = classification_conflict
cp_refusal engine_not_permitted = classification_conflict
cp_refusal caller_not_permitted = profile_unavailable
cp_refusal resolution_unavailable = profile_unavailable

pub data Origin : Type 0 where
  direct converted replacement : Origin

-- The wire fields of a classification.
pub record WireFields : Type 0 where
  pub classification_id : String
  pub resource_type : ResourceType
  pub resource_id : String
  pub origin : Origin
  pub digital_estate_id : String
  pub tenant_id : String
  pub trade_engine_instance_id : String
  pub market_id : String
  pub commerce_model : CommerceModel
  pub commerce_profile_id : String
  pub profile_revision : ℕ
  pub profile_attestation_id : String
  pub binding_id : String
  pub binding_version : ℕ
  pub buyer_account_model : BuyerModel
  pub buyer_organisation_id : Option String
  pub buyer_membership_id : Option String
  pub consumer_reference : Option String
  pub evidence_references : List String

pub record NewClassification : Type 0 where
  pub wire : WireFields
  pub attribution_id : String
  pub seller_context_id : String
  pub buyer_context_id : Option String
  pub correlation_id : String

pub data Status : Type 0 where
  active superseded quarantined : Status

pub record Classification : Type 0 where
  pub wire : WireFields
  pub status : Status
  pub revision : ℕ
  pub classified_at : ℕ
