-- ===== src/Fulfilment/Tables.antt =====
-- A bridge of fulfilments kept in two maps, with an order of roasted coffee on its way.
use baobab_trade.Prelude.{
  ◌≡◌, refl, sym, ap, ◌∙◌, String, Option, none, some, inl, inr, arith, ◌==◌, if◌then◌else◌, pos,
  ==_refl, ◌⊎◌, ◌&&◌,
}
use baobab_trade.Prelude.Number.{dyadic}
use baobab_trade.Fulfilment.Port.{
  FulfilmentStatus, requested, local_delivery, RequestFulfilmentCommand,
}
use baobab_trade.Fulfilment.Adapter.{
  StoredFulfilment, StoredTransition, Bridge, Write, wrote, violation, failure,
}
use baobab_trade.Fulfilment.Moves.{IsBridge}

pub record Maps : Type 0 where
  pub rows : String → Option StoredFulfilment
  pub notes : String → String → Option StoredTransition

abbrev pub stored : RequestFulfilmentCommand → String → StoredFulfilment
stored c estate = record {
  id = c.idempotency_key;
  digital_estate = estate;
  fulfilment_reference = c.fulfilment_reference;
  order_reference = c.order_reference;
  organisation_id = c.organisation_id;
  customer_reference = c.customer_reference;
  market_key = c.market_key;
  legal_seller_key = c.legal_seller_key;
  source_location_key = c.source_location_key;
  mode = c.mode;
  provider_key = c.provider_key;
  shipment_metadata = c.shipment;
  source_idempotency_key = c.idempotency_key;
  correlation_id = c.correlation_id;
  status = requested;
  shipment_reference = none;
  carrier_reference = none;
  tracking_reference = none;
  tracking_url = none;
  dispatch_date = none;
  delivery_date = none;
}

abbrev pub put : Maps → String → StoredFulfilment → Maps
put m id r = record m { rows = λ j. if id == j then some r else m.rows j }

abbrev pub add_row :
    Maps
    → RequestFulfilmentCommand
    → String
    → Option StoredFulfilment
    → Write StoredFulfilment × Maps
add_row m c estate (some r) = (violation, m)
add_row m c estate none = (wrote (stored c estate), put m c.idempotency_key (stored c estate))

abbrev add_note : Maps → StoredTransition → Option StoredTransition → Write StoredTransition × Maps
add_note m t (some u) = (violation, m)
add_note m t none = (
  wrote t,
  record m {
    notes = λ i k. if t.fulfilment_id == i && t.idempotency_key == k then some t else m.notes i k;
  },
)

abbrev set_row :
    Maps → String → FulfilmentStatus → Option StoredFulfilment → Write StoredFulfilment × Maps
set_row m id s none = (failure, m)
set_row m id s (some r) = (wrote (record r { status = s }), put m id (record r { status = s }))

abbrev pub maps : Bridge
maps = record {
  Db = Maps;
  fulfilment_by_key = λ m k. m.rows k;
  fulfilment_of = λ m id. m.rows id;
  transition_of = λ m i k. m.notes i k;
  create_fulfilment = λ m c estate. add_row m c estate (m.rows c.idempotency_key);
  create_transition = λ m t. add_note m t (m.notes t.fulfilment_id t.idempotency_key);
  update_fulfilment = λ m id s e. set_row m id s (m.rows id);
}

module _ (m : Maps) where
  note_keeps :
      (t : StoredTransition) (id : String) (o : Option StoredTransition)
      → (add_note m t o).1.rows id ≡ m.rows id
  note_keeps t id none = refl
  note_keeps t id (some u) = refl

  note_found :
      (t n : StoredTransition) (m' : Maps) (o : Option StoredTransition)
      → add_note m t o ≡ (wrote n, m')
      → m'.notes t.fulfilment_id t.idempotency_key ≡ some t
  note_found t n m' none h =
      ap (λ x. x.1.notes t.fulfilment_id t.idempotency_key) (sym h)
      ∙ rw (==_refl t.fulfilment_id, ==_refl t.idempotency_key) refl
  note_found t n m' (some u) h =
      absurd (let q : violation ≡ wrote n = ap (λ x. x.0) h in ground arith)

  update_notes :
      (id : String) (s : FulfilmentStatus) (o : Option StoredFulfilment) (i k : String)
      → (set_row m id s o).1.notes i k ≡ m.notes i k
  update_notes id s none i k = refl
  update_notes id s (some r) i k = refl

  update_found :
      (id : String) (s : FulfilmentStatus) (o : Option StoredFulfilment) (r : StoredFulfilment)
      (m' : Maps) (j : String)
      → set_row m id s o ≡ (wrote r, m')
      → (r.status ≡ s) × (m'.rows j ≡ (if id == j then some r else m.rows j))
  update_found id s none r m' j h =
      absurd (let q : failure ≡ wrote r = ap (λ x. x.0) h in ground arith)
  update_found id s (some old) r m' j h =
      let q : wrote (record old { status = s }) ≡ wrote r = ap (λ x. x.0) h in
      let same : record old { status = s } ≡ r = cc in
      (
        ap (λ x. x.status) (sym same),
        ap (λ x. x.1.rows j) (sym h) ∙ ap (λ x. if id == j then some x else m.rows j) same,
      )

  update_fails :
      (id : String) (s : FulfilmentStatus) (o : Option StoredFulfilment)
      (w : Write StoredFulfilment) (m' : Maps) (j : String)
      → set_row m id s o ≡ (w, m')
      → (w ≡ violation) ⊎ (w ≡ failure)
      → m'.rows j ≡ m.rows j
  update_fails id s none w m' j h f = ap (λ x. x.1.rows j) (sym h)
  update_fails id s (some old) w m' j h f = absurd (clash (ap (λ x. x.0) h) f)
    where
      clash : {r : StoredFulfilment} → wrote r ≡ w → (w ≡ violation) ⊎ (w ≡ failure) → ⊥
      clash q (inl e) = ground arith
      clash q (inr e) = ground arith

pub maps-IsBridge : IsBridge maps
maps-IsBridge = record {
  note_keeps = λ m t id. note_keeps m t id _;
  note_found = λ m t n m' h. note_found m t n m' _ h;
  update_notes = λ m id s e i k. update_notes m id s _ i k;
  update_found = λ m id s e r m' j h. update_found m id s _ r m' j h;
  update_fails = λ m id s e w m' j h f. update_fails m id s _ w m' j h f;
}

abbrev pub local_command : RequestFulfilmentCommand
local_command = record {
  fulfilment_reference = "f2";
  order_reference = "o2";
  organisation_id = none;
  customer_reference = some "customer1";
  market_key = "thamani-za";
  legal_seller_key = "seller";
  source_location_key = "durban";
  mode = local_delivery;
  provider_key = "provider";
  shipment = record {
    origin_country = "ZA";
    destination_country = "ZA";
    exporter_organisation_id = none;
    importer_organisation_id = none;
    hs_references = none;
    compliance_decision_id = none;
    incoterm = none;
    gross_weight_kg = dyadic (pos 5) 1;
    package_count = dyadic (pos 1) 0;
    export_reference = none;
    customs_reference = none;
  };
  idempotency_key = "key2";
  correlation_id = "c2";
}

abbrev pub local_row : StoredFulfilment
local_row = stored local_command "estate:thamani-b2c"

abbrev pub one_row : Maps
one_row = put (record { rows = λ j. none; notes = λ i k. none }) "key2" local_row
