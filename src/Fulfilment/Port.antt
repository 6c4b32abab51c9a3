-- ===== src/Fulfilment/Port.antt =====
-- baobab/fulfilment/fulfilment-port.ts. The repository of the records is a parameter; what
-- other requests do to it between the lookup of a key and the creation is a parameter of `request`.
use baobab_trade.Prelude.{
  ℕ, String, Bool, true, false, not, ◌&&◌, ◌||◌, ◌==◌, Option, none, some, List, [], ◌∷◌,
  if◌then◌else◌,
}
use baobab_trade.Prelude.Number.{Number, is_positive, is_integer}

pub data FulfilmentStatus : Type 0 where
  requested accepted allocated dispatched delivered cancelled : FulfilmentStatus
  exception reconciliation_required : FulfilmentStatus

pub data FulfilmentMode : Type 0 where
  local_delivery parcel_shipment bulk_freight cross_border customer_collection : FulfilmentMode

pub data Incoterm : Type 0 where
  exw fca fob cfr cif dap dpu ddp : Incoterm

pub record ShipmentMetadata : Type 0 where
  pub origin_country : String
  pub destination_country : String
  pub exporter_organisation_id : Option String
  pub importer_organisation_id : Option String
  pub hs_references : Option (List String)
  pub compliance_decision_id : Option String
  pub incoterm : Option Incoterm
  pub gross_weight_kg : Number
  pub package_count : Number
  pub export_reference : Option String
  pub customs_reference : Option String

pub record RequestFulfilmentCommand : Type 0 where
  pub fulfilment_reference : String
  pub order_reference : String
  pub organisation_id : Option String
  pub customer_reference : Option String
  pub market_key : String
  pub legal_seller_key : String
  pub source_location_key : String
  pub mode : FulfilmentMode
  pub provider_key : String
  pub shipment : ShipmentMetadata
  pub idempotency_key : String
  pub correlation_id : String

pub record FulfilmentSnapshot : Type 0 where
  pub command : RequestFulfilmentCommand
  pub id : String
  pub digital_estate : String
  pub status : FulfilmentStatus
  pub shipment_reference : Option String
  pub carrier_reference : Option String
  pub tracking_reference : Option String
  pub tracking_url : Option String
  pub dispatch_date : Option ℕ
  pub delivery_date : Option ℕ

pub record FulfilmentEvidence : Type 0 where
  pub shipment_reference : Option String
  pub carrier_reference : Option String
  pub tracking_reference : Option String
  pub tracking_url : Option String
  pub dispatch_date : Option ℕ
  pub delivery_date : Option ℕ

-- The messages of the errors that are thrown.
pub data Refusal : Type 0 where
  one_reference positive_weight same_country incomplete_metadata key_reused : Refusal
  invalid_transition shipment_evidence delivery_evidence : Refusal
  not_found reused_for_another state_changed database : Refusal

pub data Result {ℓ} (A : Type ℓ) : Type ℓ where
  ok : A → Result A
  throws : Refusal → Result A

unfoldable pub throw_if {ℓ} : {A : Type ℓ} → Bool → Refusal → Result A → Result A
throw_if true e k = throws e
throw_if false e k = k

-- `Boolean(value)` of an optional text, list or date.
abbrev pub has_value : Option String → Bool
has_value none = false
has_value (some s) = not (s == "")

abbrev pub has_entries : Option (List String) → Bool
has_entries none = false
has_entries (some []) = false
has_entries (some (x ∷ xs)) = true

abbrev pub has_incoterm : Option Incoterm → Bool
has_incoterm none = false
has_incoterm (some t) = true

abbrev pub has_date : Option ℕ → Bool
has_date none = false
has_date (some d) = true

abbrev pub xor : Bool → Bool → Bool
xor true b = not b
xor false b = b

abbrev pub is_incomplete : ShipmentMetadata → Bool
is_incomplete s =
    not (has_value s.exporter_organisation_id)
    || not (has_value s.importer_organisation_id)
    || not (has_incoterm s.incoterm)
    || not (has_entries s.hs_references)
    || not (has_value s.compliance_decision_id)

unfoldable pub validate_mode : FulfilmentMode → ShipmentMetadata → Result (Unit {0})
validate_mode cross_border s =
    throw_if (s.origin_country == s.destination_country) same_country
      (throw_if (is_incomplete s) incomplete_metadata (ok tt))
validate_mode _ s = ok tt

unfoldable pub validate_shipment : RequestFulfilmentCommand → Result (Unit {0})
validate_shipment c =
    throw_if (not (xor (has_value c.organisation_id) (has_value c.customer_reference)))
      one_reference
      (throw_if
        (not (is_positive c.shipment.gross_weight_kg)
          || not (is_integer c.shipment.package_count)
          || not (is_positive c.shipment.package_count))
        positive_weight (validate_mode c.mode c.shipment))

-- The canonical ids of baobab/context/digital-estates.ts.
abbrev pub zuribeans : String
zuribeans = "estate:zuribeans-b2b"

abbrev pub thamani : String
thamani = "estate:thamani-b2c"

unfoldable pub digital_estate_of : RequestFulfilmentCommand → String
digital_estate_of c = if has_value c.organisation_id then zuribeans else thamani

unfoldable pub transitions : FulfilmentStatus → FulfilmentStatus → Bool
transitions requested accepted = true
transitions requested cancelled = true
transitions requested exception = true
transitions requested reconciliation_required = true
transitions accepted allocated = true
transitions accepted cancelled = true
transitions accepted exception = true
transitions accepted reconciliation_required = true
transitions allocated dispatched = true
transitions allocated exception = true
transitions allocated reconciliation_required = true
transitions dispatched delivered = true
transitions dispatched exception = true
transitions dispatched reconciliation_required = true
transitions exception reconciliation_required = true
transitions exception accepted = true
transitions exception allocated = true
transitions exception dispatched = true
transitions reconciliation_required accepted = true
transitions reconciliation_required allocated = true
transitions reconciliation_required dispatched = true
transitions reconciliation_required delivered = true
transitions reconciliation_required cancelled = true
transitions _ _ = false

abbrev pub is_dispatched : FulfilmentStatus → Bool
is_dispatched dispatched = true
is_dispatched _ = false

abbrev pub is_delivered : FulfilmentStatus → Bool
is_delivered delivered = true
is_delivered _ = false

-- What `transition` checks before it hands the change to the repository.
unfoldable pub check_transition :
    FulfilmentStatus → FulfilmentStatus → FulfilmentEvidence → Result FulfilmentStatus
check_transition from to evidence = throw_if (not (transitions from to)) invalid_transition (
    throw_if
      (is_dispatched to
        && (not (has_value evidence.shipment_reference) || not (has_date evidence.dispatch_date)))
      shipment_evidence
      (throw_if (is_delivered to && not (has_date evidence.delivery_date)) delivery_evidence
        (ok to)))

-- FulfilmentRecordRepository: the records, found by their key, created and moved elsewhere. Each
-- operation leaves a state of the records, also where it throws.
pub record Repository : Type 1 where
  pub Records : Type 0
  pub find_by_idempotency_key : Records → String → Option FulfilmentSnapshot
  pub create : Records → RequestFulfilmentCommand → String → Result FulfilmentSnapshot × Records
  pub move :
      Records
      → FulfilmentSnapshot
      → FulfilmentStatus
      → String
      → FulfilmentEvidence
      → Result FulfilmentSnapshot × Records

module _ (repository : Repository) (others : repository.Records → repository.Records) where
  unfoldable pub answer_request :
      repository.Records
      → RequestFulfilmentCommand
      → String
      → Option FulfilmentSnapshot
      → Result FulfilmentSnapshot × repository.Records
  answer_request records c estate (some existing) =
      (throw_if (not (existing.digital_estate == estate)) key_reused (ok existing), records)
  answer_request records c estate none = repository.create (others records) c estate

  unfoldable pub validated :
      repository.Records
      → RequestFulfilmentCommand
      → Result (Unit {0})
      → Result FulfilmentSnapshot × repository.Records
  validated records c (throws e) = (throws e, records)
  validated records c (ok u) =
      answer_request records c (digital_estate_of c)
        (repository.find_by_idempotency_key records c.idempotency_key)

  -- `request`.
  unfoldable pub request :
      repository.Records → RequestFulfilmentCommand → Result FulfilmentSnapshot × repository.Records
  request records c = validated records c (validate_shipment c)

module _ (repository : Repository) where
  unfoldable pub moved :
      repository.Records
      → FulfilmentSnapshot
      → String
      → FulfilmentEvidence
      → Result FulfilmentStatus
      → Result FulfilmentSnapshot × repository.Records
  moved records current key evidence (throws e) = (throws e, records)
  moved records current key evidence (ok to) = repository.move records current to key evidence

  -- `transition`.
  unfoldable pub transition :
      repository.Records
      → FulfilmentSnapshot
      → FulfilmentStatus
      → String
      → FulfilmentEvidence
      → Result FulfilmentSnapshot × repository.Records
  transition records current to key evidence =
      moved records current key evidence (check_transition current.status to evidence)
