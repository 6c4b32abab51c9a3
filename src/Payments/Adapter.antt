-- ===== src/Payments/Adapter.antt =====
-- baobab/payments/payment-record-adapter.ts: the repository of payments over the tables of the
-- payment bridge. A body under a lock is one step; the bridge's service is a parameter.
use baobab_trade.Prelude.{String, Bool, true, false, Option, none, some, if◌then◌else◌, not, ◌||◌}
use baobab_trade.Prelude.Number.{Number}
use baobab_trade.Payments.Port.{
  PaymentStatus, created, pending, authorized, captured, settled, failed, cancelled, unknown,
  PaymentMethod, PaymentTerms, InitiatePaymentCommand, PaymentSnapshot, PaymentResult, ok, throws,
  throw_if, not_found, key_reused, state_changed, database, Repository,
}
use baobab_trade.Prelude.{ℕ}

pub record StoredPayment : Type 0 where
  pub id : String
  pub digital_estate : String
  pub payment_reference : String
  pub order_reference : String
  pub organisation_id : Option String
  pub customer_reference : Option String
  pub market_key : String
  pub legal_seller_key : String
  pub method : PaymentMethod
  pub terms : PaymentTerms
  pub provider_key : String
  pub provider_reference : Option String
  pub provider_status : Option String
  pub currency_code : String
  pub amount_minor : Number
  pub status : PaymentStatus
  pub source_idempotency_key : String
  pub correlation_id : String
  pub due_at : Option ℕ

pub record StoredTransition : Type 0 where
  pub payment_id : String
  pub from_status : PaymentStatus
  pub to_status : PaymentStatus
  pub idempotency_key : String
  pub provider_reference : Option String
  pub provider_status : Option String

abbrev pub command_of : StoredPayment → InitiatePaymentCommand
command_of p = record {
  payment_reference = p.payment_reference;
  order_reference = p.order_reference;
  organisation_id = p.organisation_id;
  customer_reference = p.customer_reference;
  market_key = p.market_key;
  legal_seller_key = p.legal_seller_key;
  method = p.method;
  terms = p.terms;
  provider_key = p.provider_key;
  currency = p.currency_code;
  amount_minor = p.amount_minor;
  idempotency_key = p.source_idempotency_key;
  correlation_id = p.correlation_id;
  due_at = p.due_at;
}

unfoldable pub snapshot : StoredPayment → PaymentSnapshot
snapshot p = record {
  command = command_of p;
  id = p.id;
  digital_estate = p.digital_estate;
  status = p.status;
  provider_reference = p.provider_reference;
  provider_status = p.provider_status;
}

-- How a creation ends: with the row, by a violation of a unique constraint, or by another error.
pub data Creation : Type 0 where
  row : StoredPayment → Creation
  violation failure : Creation

-- The calls of PaymentBridgeModuleService that the adapter makes; a write that fails leaves a state.
pub record Bridge : Type 1 where
  pub Db : Type 0
  pub payment_by_key : Db → String → Option StoredPayment
  pub payment_of : Db → String → Option StoredPayment
  pub transition_by_key : Db → String → Option StoredTransition
  pub create_payment : Db → InitiatePaymentCommand → String → Creation × Db
  pub create_transition : Db → StoredTransition → Bool × Db
  pub update_payment :
      Db → String → PaymentStatus → Option String → Option String → Option StoredPayment × Db

unfoldable pub eq_status : PaymentStatus → PaymentStatus → Bool
eq_status created created = true
eq_status pending pending = true
eq_status authorized authorized = true
eq_status captured captured = true
eq_status settled settled = true
eq_status failed failed = true
eq_status cancelled cancelled = true
eq_status unknown unknown = true
eq_status _ _ = false

abbrev pub found : Option StoredPayment → Option PaymentSnapshot
found none = none
found (some p) = some (snapshot p)

module _ (bridge : Bridge) where
  unfoldable pub find_payment : bridge.Db → String → Option PaymentSnapshot
  find_payment db key = found (bridge.payment_by_key db key)

  -- What a creation that failed by a unique constraint answers.
  unfoldable pub raced_with :
      bridge.Db → Option PaymentSnapshot → PaymentResult PaymentSnapshot × bridge.Db
  raced_with db none = (throws database, db)
  raced_with db (some payment) = (ok payment, db)

  unfoldable pub settle_creation :
      InitiatePaymentCommand → Creation × bridge.Db → PaymentResult PaymentSnapshot × bridge.Db
  settle_creation c (row p, db) = (ok (snapshot p), db)
  settle_creation c (violation, db) = raced_with db (find_payment db c.idempotency_key)
  settle_creation c (failure, db) = (throws database, db)

  unfoldable pub answer_create :
      bridge.Db
      → InitiatePaymentCommand
      → String
      → Option PaymentSnapshot
      → PaymentResult PaymentSnapshot × bridge.Db
  answer_create db c estate (some existing) = (ok existing, db)
  answer_create db c estate none = settle_creation c (bridge.create_payment db c estate)

  unfoldable pub create :
      bridge.Db → InitiatePaymentCommand → String → PaymentResult PaymentSnapshot × bridge.Db
  create db c estate = answer_create db c estate (find_payment db c.idempotency_key)

  unfoldable pub updated :
      Option StoredPayment × bridge.Db → PaymentResult PaymentSnapshot × bridge.Db
  updated (none, db) = (throws database, db)
  updated (some p, db) = (ok (snapshot p), db)

  unfoldable pub recorded :
      StoredTransition → Bool × bridge.Db → PaymentResult PaymentSnapshot × bridge.Db
  recorded t (false, db) = (throws database, db)
  recorded t (true, db) =
      updated
        (bridge.update_payment db t.payment_id t.to_status t.provider_reference t.provider_status)

  -- The body of `transition` once the payment is found, for the transition found under the key.
  unfoldable pub replay_or_move :
      bridge.Db
      → StoredTransition
      → StoredPayment
      → Option StoredTransition
      → PaymentResult PaymentSnapshot × bridge.Db
  replay_or_move db t current (some existing) = (
    throw_if
        (not (eq_status existing.from_status t.from_status)
          || not (eq_status existing.to_status t.to_status))
        key_reused (ok (snapshot current)),
    db,
  )
  replay_or_move db t current none =
      if not (eq_status current.status t.from_status)
      then (throws state_changed, db)
      else recorded t (bridge.create_transition db t)

  unfoldable pub move_current :
      bridge.Db
      → StoredTransition
      → Option StoredTransition
      → Option StoredPayment
      → PaymentResult PaymentSnapshot × bridge.Db
  move_current db t existing none = (throws not_found, db)
  move_current db t existing (some current) = replay_or_move db t current existing

  -- `transition`, for the row of the transition that it would create.
  unfoldable pub move_by : bridge.Db → StoredTransition → PaymentResult PaymentSnapshot × bridge.Db
  move_by db t =
      move_current db t (bridge.transition_by_key db t.idempotency_key)
        (bridge.payment_of db t.payment_id)

  unfoldable pub move :
      bridge.Db
      → String
      → PaymentStatus
      → PaymentStatus
      → String
      → Option String
      → Option String
      → PaymentResult PaymentSnapshot × bridge.Db
  move db id from to key reference status = move_by db record {
    payment_id = id;
    from_status = from;
    to_status = to;
    idempotency_key = key;
    provider_reference = reference;
    provider_status = status;
  }

  -- PaymentBridgeRecordAdapter.
  abbrev pub adapter : Repository
  adapter = record {
    Payments = bridge.Db;
    find_by_idempotency_key = find_payment;
    create = create;
    move = move;
  }
