-- ===== src/Fulfilment/Adapter.antt =====
-- baobab/fulfilment/record-adapter.ts: the repository of fulfilments over the tables of the
-- fulfilment bridge. A body under a lock is one step; the bridge's service is a parameter.
use baobab_trade.Prelude.{
  ℕ, String, Bool, true, false, Option, none, some, not, ◌||◌, if◌then◌else◌,
}
use baobab_trade.Fulfilment.Port.{
  FulfilmentStatus, requested, accepted, allocated, dispatched, delivered, cancelled, exception,
  reconciliation_required, FulfilmentMode, ShipmentMetadata, RequestFulfilmentCommand,
  FulfilmentSnapshot, FulfilmentEvidence, Result, ok, throws, throw_if, not_found,
  reused_for_another, state_changed, database, Repository,
}

pub record StoredFulfilment : Type 0 where
  pub id : String
  pub digital_estate : String
  pub fulfilment_reference : String
  pub order_reference : String
  pub organisation_id : Option String
  pub customer_reference : Option String
  pub market_key : String
  pub legal_seller_key : String
  pub source_location_key : String
  pub mode : FulfilmentMode
  pub provider_key : String
  pub shipment_metadata : ShipmentMetadata
  pub source_idempotency_key : String
  pub correlation_id : String
  pub status : FulfilmentStatus
  pub shipment_reference : Option String
  pub carrier_reference : Option String
  pub tracking_reference : Option String
  pub tracking_url : Option String
  pub dispatch_date : Option ℕ
  pub delivery_date : Option ℕ

pub record StoredTransition : Type 0 where
  pub fulfilment_id : String
  pub from_status : FulfilmentStatus
  pub to_status : FulfilmentStatus
  pub idempotency_key : String
  pub evidence : FulfilmentEvidence

unfoldable pub snapshot : StoredFulfilment → FulfilmentSnapshot
snapshot r = record {
  command = record {
    fulfilment_reference = r.fulfilment_reference;
    order_reference = r.order_reference;
    organisation_id = r.organisation_id;
    customer_reference = r.customer_reference;
    market_key = r.market_key;
    legal_seller_key = r.legal_seller_key;
    source_location_key = r.source_location_key;
    mode = r.mode;
    provider_key = r.provider_key;
    shipment = r.shipment_metadata;
    idempotency_key = r.source_idempotency_key;
    correlation_id = r.correlation_id;
  };
  id = r.id;
  digital_estate = r.digital_estate;
  status = r.status;
  shipment_reference = r.shipment_reference;
  carrier_reference = r.carrier_reference;
  tracking_reference = r.tracking_reference;
  tracking_url = r.tracking_url;
  dispatch_date = r.dispatch_date;
  delivery_date = r.delivery_date;
}

-- How a write ends: with its row, by a violation of a unique constraint, or by another error.
pub data Write (A : Type 0) : Type 0 where
  wrote : A → Write A
  violation failure : Write A

-- The calls of FulfilmentBridgeModuleService that the adapter makes; a failed write leaves a state.
pub record Bridge : Type 1 where
  pub Db : Type 0
  pub fulfilment_by_key : Db → String → Option StoredFulfilment
  pub fulfilment_of : Db → String → Option StoredFulfilment
  pub transition_of : Db → String → String → Option StoredTransition
  pub create_fulfilment : Db → RequestFulfilmentCommand → String → Write StoredFulfilment × Db
  pub create_transition : Db → StoredTransition → Write StoredTransition × Db
  pub update_fulfilment :
      Db → String → FulfilmentStatus → FulfilmentEvidence → Write StoredFulfilment × Db

unfoldable pub eq_status : FulfilmentStatus → FulfilmentStatus → Bool
eq_status requested requested = true
eq_status accepted accepted = true
eq_status allocated allocated = true
eq_status dispatched dispatched = true
eq_status delivered delivered = true
eq_status cancelled cancelled = true
eq_status exception exception = true
eq_status reconciliation_required reconciliation_required = true
eq_status _ _ = false

abbrev pub found : Option StoredFulfilment → Option FulfilmentSnapshot
found none = none
found (some r) = some (snapshot r)

module _ (bridge : Bridge) where
  unfoldable pub find_fulfilment : bridge.Db → String → Option FulfilmentSnapshot
  find_fulfilment db key = found (bridge.fulfilment_by_key db key)

  -- The answer of a read after a violation: what is found there, or the error again.
  unfoldable pub raced_with :
      bridge.Db → Option FulfilmentSnapshot → Result FulfilmentSnapshot × bridge.Db
  raced_with db none = (throws database, db)
  raced_with db (some s) = (ok s, db)

  unfoldable pub settle_creation :
      RequestFulfilmentCommand
      → Write StoredFulfilment × bridge.Db
      → Result FulfilmentSnapshot × bridge.Db
  settle_creation c (wrote r, db) = (ok (snapshot r), db)
  settle_creation c (violation, db) = raced_with db (find_fulfilment db c.idempotency_key)
  settle_creation c (failure, db) = (throws database, db)

  unfoldable pub answer_create :
      bridge.Db
      → RequestFulfilmentCommand
      → String
      → Option FulfilmentSnapshot
      → Result FulfilmentSnapshot × bridge.Db
  answer_create db c estate (some existing) = (ok existing, db)
  answer_create db c estate none = settle_creation c (bridge.create_fulfilment db c estate)

  unfoldable pub create :
      bridge.Db → RequestFulfilmentCommand → String → Result FulfilmentSnapshot × bridge.Db
  create db c estate = answer_create db c estate (find_fulfilment db c.idempotency_key)

  unfoldable pub updated :
      Write StoredFulfilment × bridge.Db → Result FulfilmentSnapshot × bridge.Db
  updated (wrote r, db) = (ok (snapshot r), db)
  updated (violation, db) = (throws database, db)
  updated (failure, db) = (throws database, db)

  -- The catch of the note: the same transition was noted meanwhile, or the error is thrown again.
  unfoldable pub raced_note :
      bridge.Db → StoredTransition → Option StoredTransition → Result FulfilmentSnapshot × bridge.Db
  raced_note db t none = (throws database, db)
  raced_note db t (some raced) =
      if not (eq_status raced.from_status t.from_status)
        || not (eq_status raced.to_status t.to_status)
      then (throws database, db)
      else raced_with db (found (bridge.fulfilment_of db t.fulfilment_id))

  unfoldable pub recorded :
      StoredTransition → Write StoredTransition × bridge.Db → Result FulfilmentSnapshot × bridge.Db
  recorded t (wrote n, db) =
      updated (bridge.update_fulfilment db t.fulfilment_id t.to_status t.evidence)
  recorded t (violation, db) =
      raced_note db t (bridge.transition_of db t.fulfilment_id t.idempotency_key)
  recorded t (failure, db) = (throws database, db)

  -- The body of `transition` once the row is found, for the transition found under the key.
  unfoldable pub replay_or_move :
      bridge.Db
      → StoredTransition
      → StoredFulfilment
      → Option StoredTransition
      → Result FulfilmentSnapshot × bridge.Db
  replay_or_move db t stored (some prior) = (
    throw_if
        (not (eq_status prior.from_status stored.status)
          || not (eq_status prior.to_status t.to_status))
        reused_for_another (ok (snapshot stored)),
    db,
  )
  replay_or_move db t stored none =
      if not (eq_status stored.status t.from_status)
      then (throws state_changed, db)
      else recorded t (bridge.create_transition db t)

  unfoldable pub move_stored :
      bridge.Db
      → StoredTransition
      → Option StoredTransition
      → Option StoredFulfilment
      → Result FulfilmentSnapshot × bridge.Db
  move_stored db t prior none = (throws not_found, db)
  move_stored db t prior (some stored) = replay_or_move db t stored prior

  -- `transition`, for the row of the transition that it would create.
  unfoldable pub move_by : bridge.Db → StoredTransition → Result FulfilmentSnapshot × bridge.Db
  move_by db t =
      move_stored db t (bridge.transition_of db t.fulfilment_id t.idempotency_key)
        (bridge.fulfilment_of db t.fulfilment_id)

  abbrev pub asked :
      FulfilmentSnapshot → FulfilmentStatus → String → FulfilmentEvidence → StoredTransition
  asked current to key evidence = record {
    fulfilment_id = current.id;
    from_status = current.status;
    to_status = to;
    idempotency_key = key;
    evidence = evidence;
  }

  unfoldable pub move :
      bridge.Db
      → FulfilmentSnapshot
      → FulfilmentStatus
      → String
      → FulfilmentEvidence
      → Result FulfilmentSnapshot × bridge.Db
  move db current to key evidence = move_by db (asked current to key evidence)

  -- FulfilmentBridgeRecordAdapter.
  abbrev pub adapter : Repository
  adapter = record {
    Records = bridge.Db;
    find_by_idempotency_key = find_fulfilment;
    create = create;
    move = move;
  }
