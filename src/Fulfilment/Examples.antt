-- ===== src/Fulfilment/Examples.antt =====
-- Requests and a history over a bridge of fulfilments kept in maps, with the theorems about them.
use baobab_trade.Prelude.{
  ◌≡◌, refl, sym, ap, ◌∙◌, ==_refl, ◌⊎◌, arith, Option, String, true, none, some, List, [], ◌∷◌,
  any, ◌==◌, pos,
}
use baobab_trade.Prelude.Number.{dyadic}
use baobab_trade.Fulfilment.Port.{
  FulfilmentStatus, requested, accepted, allocated, dispatched, delivered, cross_border, fob,
  RequestFulfilmentCommand, FulfilmentSnapshot, FulfilmentEvidence, Repository, request, ok,
  digital_estate_of,
}
use baobab_trade.Fulfilment.Delivered.{
  Change, Reaches, start, next, delivers, ships, delivered-HasEvidence,
}
use baobab_trade.Fulfilment.Requested.{IsShippable, Raced, request-IsOwned}
use baobab_trade.Fulfilment.Leaks.{Creates, request-Leaks}
use baobab_trade.Fulfilment.Port.{validate_shipment, transition, throws, reused_for_another}
use baobab_trade.Fulfilment.Adapter.{StoredFulfilment, StoredTransition, adapter, wrote, violation}
use baobab_trade.Fulfilment.Adapter.{snapshot as stored_snapshot}
use baobab_trade.Fulfilment.Moves.{Follows, transition-Follows, replayed-IsRefused}
use baobab_trade.Fulfilment.Tables.{
  Maps, stored, add_row, put, maps, maps-IsBridge, local_row, one_row,
}
use baobab_trade.Prelude.{◌&&◌, if◌then◌else◌}

abbrev export_command : RequestFulfilmentCommand
export_command = record {
  fulfilment_reference = "f1";
  order_reference = "o1";
  market_key = "za";
  legal_seller_key = "seller";
  source_location_key = "durban";
  provider_key = "provider";
  correlation_id = "c1";
  organisation_id = some "org1";
  customer_reference = none;
  mode = cross_border;
  shipment = record {
    origin_country = "ZA";
    destination_country = "KE";
    exporter_organisation_id = some "org0";
    importer_organisation_id = some "org1";
    hs_references = some ("0901.21" ∷ []);
    compliance_decision_id = some "c1";
    incoterm = some fob;
    gross_weight_kg = dyadic (pos 5) 1;
    package_count = dyadic (pos 3) 0;
    export_reference = none;
    customs_reference = none;
  };
  idempotency_key = "key1";
}

abbrev empty : Maps
empty = record { rows = λ j. none; notes = λ i k. none }

abbrev export_row : StoredFulfilment
export_row = stored export_command "estate:zuribeans-b2b"

abbrev started : Maps
started = (request (adapter maps) (λ m. m) empty export_command).1

export-IsAnswered :
    request (adapter maps) (λ m. m) empty export_command
    ≡ (ok (stored_snapshot export_row), started)
unfolding baobab_trade.Fulfilment.Port.request baobab_trade.Fulfilment.Port.validated
    baobab_trade.Fulfilment.Port.answer_request baobab_trade.Fulfilment.Port.validate_shipment
    baobab_trade.Fulfilment.Port.validate_mode baobab_trade.Fulfilment.Port.throw_if
    baobab_trade.Fulfilment.Port.digital_estate_of baobab_trade.Fulfilment.Adapter.find_fulfilment
    baobab_trade.Fulfilment.Adapter.create baobab_trade.Fulfilment.Adapter.answer_create
    baobab_trade.Fulfilment.Adapter.settle_creation stored_snapshot
export-IsAnswered = refl

maps_stores :
    (m : Maps) (c : RequestFulfilmentCommand) (estate : String) (o : Option StoredFulfilment)
    (r : StoredFulfilment) (m' : Maps)
    → add_row m c estate o ≡ (wrote r, m')
    → (r.digital_estate ≡ estate) × (m'.rows c.idempotency_key ≡ some r)
maps_stores m c estate none r m' h =
    let q : wrote (stored c estate) ≡ wrote r = ap (λ x. x.0) h in
    let same : stored c estate ≡ r = cc in
    (
      ap (λ x. x.digital_estate) (sym same),
      ap (λ x. x.rows c.idempotency_key) (sym (ap (λ x. x.1) h))
          ∙ rw (==_refl c.idempotency_key) (ap some same),
    )
maps_stores m c estate (some q) r m' h =
    absurd (let q : violation ≡ wrote r = ap (λ x. x.0) h in ground arith)

maps_violates :
    (m : Maps) (c : RequestFulfilmentCommand) (estate : String) (o : Option StoredFulfilment)
    (m' : Maps) (key : String)
    → add_row m c estate o ≡ (violation, m')
    → m'.rows key ≡ m.rows key
maps_violates m c estate none m' key h =
    absurd (let q : wrote _ ≡ violation = ap (λ x. x.0) h in ground arith)
maps_violates m c estate (some p) m' key h = ap (λ x. x.1.rows key) (sym h)

maps-Creates : Creates maps
maps-Creates = record {
  stores = λ m c estate r m' h. maps_stores m c estate _ r m' h;
  violates = λ m c estate m' key h. maps_violates m c estate _ m' key h;
}

abbrev b2c_command : RequestFulfilmentCommand
b2c_command = record export_command { organisation_id = none; customer_reference = some "x" }

abbrev theirs : FulfilmentSnapshot
theirs = stored_snapshot (stored b2c_command "estate:thamani-b2c")

abbrev taken : Maps
taken = (request (adapter maps) (λ m. m) empty b2c_command).1

theirs-IsAnswered : request (adapter maps) (λ m. m) empty b2c_command ≡ (ok theirs, taken)
unfolding baobab_trade.Fulfilment.Port.request baobab_trade.Fulfilment.Port.validated
    baobab_trade.Fulfilment.Port.answer_request baobab_trade.Fulfilment.Port.validate_shipment
    baobab_trade.Fulfilment.Port.validate_mode baobab_trade.Fulfilment.Port.throw_if
    baobab_trade.Fulfilment.Port.digital_estate_of baobab_trade.Fulfilment.Adapter.find_fulfilment
    baobab_trade.Fulfilment.Adapter.create baobab_trade.Fulfilment.Adapter.answer_create
    baobab_trade.Fulfilment.Adapter.settle_creation stored_snapshot
theirs-IsAnswered = refl

valid_command : validate_shipment export_command ≡ ok tt
unfolding validate_shipment baobab_trade.Fulfilment.Port.validate_mode
    baobab_trade.Fulfilment.Port.throw_if
valid_command = refl

free_key : baobab_trade.Fulfilment.Adapter.find_fulfilment maps empty "key1" ≡ none
unfolding baobab_trade.Fulfilment.Adapter.find_fulfilment
free_key = refl

other_estate : ¬ (digital_estate_of b2c_command ≡ digital_estate_of export_command)
unfolding digital_estate_of
other_estate h = clash (ap (λ s. s == "estate:zuribeans-b2b") h)
  where
    clash : ("estate:thamani-b2c" == "estate:zuribeans-b2b") ≡ true → ⊥
    clash e = ground arith

abbrev evidence : FulfilmentEvidence
evidence = record {
  shipment_reference = some "s1";
  carrier_reference = none;
  tracking_reference = none;
  tracking_url = none;
  dispatch_date = some 10;
  delivery_date = some 20;
}

abbrev change : FulfilmentStatus → Change
change to = record { to = to; evidence = evidence }

abbrev journey : List Change
journey = change accepted ∷ change allocated ∷ change dispatched ∷ change delivered ∷ []

journey-Reaches : Reaches requested journey delivered
unfolding baobab_trade.Fulfilment.Port.check_transition baobab_trade.Fulfilment.Port.transitions
    baobab_trade.Fulfilment.Port.throw_if
journey-Reaches = next (change accepted) refl (
    next (change allocated) refl
      (next (change dispatched) refl (next (change delivered) refl start)))

request-IsOwned_example :
    IsShippable export_command
    × (((stored_snapshot export_row).digital_estate ≡ digital_estate_of export_command)
        ⊎ Raced maps (λ m. m) empty export_command (stored_snapshot export_row))
request-IsOwned_example =
    request-IsOwned maps (λ m. m) (λ m c estate r m' h. (maps_stores m c estate _ r m' h).0) empty
      export_command export-IsAnswered

request-Leaks_example :
    (request
        (adapter maps)
        (λ d. (request (adapter maps) (λ e. e) d b2c_command).1)
        empty
        export_command
      ≡ (ok theirs, taken))
    × (theirs.digital_estate ≡ digital_estate_of b2c_command)
    × (¬ (theirs.digital_estate ≡ digital_estate_of export_command))
request-Leaks_example =
    request-Leaks maps maps-Creates empty export_command b2c_command valid_command refl other_estate
      free_key theirs-IsAnswered

delivered-HasEvidence_example : (any delivers journey ≡ true) × (any ships journey ≡ true)
delivered-HasEvidence_example = delivered-HasEvidence journey journey-Reaches

transition-Follows_example :
    Follows maps maps-IsBridge one_row
      (transition (adapter maps) one_row (stored_snapshot local_row) accepted "k1" evidence).1
transition-Follows_example =
    transition-Follows maps maps-IsBridge one_row (stored_snapshot local_row) accepted "k1" evidence

abbrev accepted_note : StoredTransition
accepted_note = record {
  fulfilment_id = "key2";
  from_status = requested;
  to_status = accepted;
  idempotency_key = "k1";
  evidence = evidence;
}

abbrev noted_row : Maps
noted_row = record one_row {
  notes = λ i k. if "key2" == i && "k1" == k then some accepted_note else none;
}

abbrev accepted_row : StoredFulfilment
accepted_row = record local_row { status = accepted }

replayed-IsRefused_example :
    (transition (adapter maps) one_row (stored_snapshot local_row) accepted "k1" evidence
      ≡ (ok (stored_snapshot accepted_row), put noted_row "key2" accepted_row))
    × (transition
          (adapter maps)
          (put noted_row "key2" accepted_row)
          (stored_snapshot local_row)
          accepted
          "k1"
          evidence
        ≡ (throws reused_for_another, put noted_row "key2" accepted_row))
unfolding stored_snapshot baobab_trade.Fulfilment.Port.check_transition
    baobab_trade.Fulfilment.Port.transitions baobab_trade.Fulfilment.Port.throw_if
replayed-IsRefused_example =
    replayed-IsRefused maps maps-IsBridge one_row (stored_snapshot local_row) accepted "k1" evidence
      local_row accepted_row refl refl refl refl refl refl
