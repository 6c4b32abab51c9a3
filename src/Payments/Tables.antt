-- ===== src/Payments/Tables.antt =====
-- A bridge of payments kept in two maps, for runs of the port.
use baobab_trade.Prelude.{
  ◌≡◌, refl, sym, ap, ◌∙◌, String, Bool, true, false, Option, none, some, inl, inr, arith, ◌==◌,
  if◌then◌else◌, pos, Bool-cases, ==_refl, eq_of_==,
}
use baobab_trade.Prelude.Number.{dyadic}
use baobab_trade.Payments.Port.{
  PaymentStatus, PaymentSnapshot, created, captured, prepaid, bank_transfer, InitiatePaymentCommand,
}
use baobab_trade.Payments.Adapter.{
  StoredPayment, StoredTransition, Bridge, Creation, row, violation, snapshot,
}
use baobab_trade.Payments.History.{IsBridge}

pub record Maps : Type 0 where
  pub pays : String → Option StoredPayment
  pub notes : String → Option StoredTransition

abbrev pub or_else {ℓ} : {A : Type ℓ} → Option A → Option A → Option A
or_else none o = o
or_else (some a) o = some a

abbrev pub stored : InitiatePaymentCommand → String → StoredPayment
stored c estate = record {
  id = c.idempotency_key;
  digital_estate = estate;
  payment_reference = c.payment_reference;
  order_reference = c.order_reference;
  organisation_id = c.organisation_id;
  customer_reference = c.customer_reference;
  market_key = c.market_key;
  legal_seller_key = c.legal_seller_key;
  method = c.method;
  terms = c.terms;
  provider_key = c.provider_key;
  provider_reference = none;
  provider_status = none;
  currency_code = c.currency;
  amount_minor = c.amount_minor;
  status = created;
  source_idempotency_key = c.idempotency_key;
  correlation_id = c.correlation_id;
  due_at = c.due_at;
}

abbrev pub add_payment :
    Maps → InitiatePaymentCommand → String → Option StoredPayment → Creation × Maps
add_payment m c estate (some p) = (violation, m)
add_payment m c estate none = (
  row (stored c estate),
  record m {
    pays =
        λ j. or_else (m.pays j) (if c.idempotency_key == j then some (stored c estate) else none);
  },
)

abbrev pub add_note : Maps → StoredTransition → Option StoredTransition → Bool × Maps
add_note m t (some u) = (false, m)
add_note m t none =
    (true, record m { notes = λ k. if t.idempotency_key == k then some t else m.notes k })

-- The update of a payment that is not there fails, and every update that names a provider.
abbrev pub set_payment :
    Maps
    → String
    → PaymentStatus
    → Option String
    → Option StoredPayment
    → Option StoredPayment × Maps
set_payment m id s (some r) o = (none, m)
set_payment m id s none none = (none, m)
set_payment m id s none (some p) = (
  some (record p { status = s }),
  record m { pays = λ j. if id == j then some (record p { status = s }) else m.pays j },
)

abbrev pub maps : Bridge
maps = record {
  Db = Maps;
  payment_by_key = λ m k. m.pays k;
  payment_of = λ m id. m.pays id;
  transition_by_key = λ m k. m.notes k;
  create_payment = λ m c estate. add_payment m c estate (m.pays c.idempotency_key);
  create_transition = λ m t. add_note m t (m.notes t.idempotency_key);
  update_payment = λ m id s r q. set_payment m id s r (m.pays id);
}

module _ (m : Maps) where
  creation_keeps :
      (c : InitiatePaymentCommand) (estate id : String) (p : StoredPayment)
      (o : Option StoredPayment)
      → m.pays id ≡ some p
      → (add_payment m c estate o).1.pays id ≡ some p
  creation_keeps c estate id p none h = rw h refl
  creation_keeps c estate id p (some q) h = h

  creation_notes :
      (c : InitiatePaymentCommand) (estate k : String) (t : StoredTransition)
      (o : Option StoredPayment)
      → m.notes k ≡ some t
      → (add_payment m c estate o).1.notes k ≡ some t
  creation_notes c estate k t none h = h
  creation_notes c estate k t (some q) h = h

  note_keeps :
      (t : StoredTransition) (id : String) (o : Option StoredTransition)
      → (add_note m t o).1.pays id ≡ m.pays id
  note_keeps t id none = refl
  note_keeps t id (some u) = refl

  note_notes :
      (t : StoredTransition) (k : String) (u : StoredTransition) (o : Option StoredTransition)
      → m.notes t.idempotency_key ≡ o
      → m.notes k ≡ some u
      → (add_note m t o).1.notes k ≡ some u
  note_notes t k u (some v) e h = h
  note_notes t k u none e h = elim (Bool-cases (t.idempotency_key == k)) [
    | inr other ↦ rw other h
    | inl same ↦
        absurd (let q : none ≡ some u = sym e ∙ ap m.notes (eq_of_== _ _ same) ∙ h in ground arith)
  ]

  note_found :
      (t : StoredTransition) (m' : Maps) (o : Option StoredTransition)
      → add_note m t o ≡ (true, m')
      → m'.notes t.idempotency_key ≡ some t
  note_found t m' none h =
      ap (λ x. x.1.notes t.idempotency_key) (sym h) ∙ rw (==_refl t.idempotency_key) refl
  note_found t m' (some u) h = absurd (let q : false ≡ true = ap (λ x. x.0) h in ground arith)

  update_notes :
      (id : String) (s : PaymentStatus) (r : Option String) (o : Option StoredPayment) (k : String)
      → (set_payment m id s r o).1.notes k ≡ m.notes k
  update_notes id s (some r) o k = refl
  update_notes id s none none k = refl
  update_notes id s none (some p) k = refl

  update_found :
      (id : String) (s : PaymentStatus) (r : Option String) (o : Option StoredPayment)
      (p : StoredPayment) (m' : Maps) (j : String)
      → set_payment m id s r o ≡ (some p, m')
      → (p.status ≡ s) × (m'.pays j ≡ (if id == j then some p else m.pays j))
  update_found id s (some r) o p m' j h =
      absurd (let q : none ≡ some p = ap (λ x. x.0) h in ground arith)
  update_found id s none none p m' j h =
      absurd (let q : none ≡ some p = ap (λ x. x.0) h in ground arith)
  update_found id s none (some old) p m' j h =
      let q : some (record old { status = s }) ≡ some p = ap (λ x. x.0) h in
      (ground arith, ap (λ x. x.1.pays j) (sym h) ∙ ap (λ o. if id == j then o else m.pays j) q)

  update_fails :
      (id : String) (s : PaymentStatus) (r : Option String) (o : Option StoredPayment) (m' : Maps)
      (j : String)
      → set_payment m id s r o ≡ (none, m')
      → m'.pays j ≡ m.pays j
  update_fails id s (some r) o m' j h = ap (λ x. x.1.pays j) (sym h)
  update_fails id s none none m' j h = ap (λ x. x.1.pays j) (sym h)
  update_fails id s none (some old) m' j h =
      absurd (let q : some _ ≡ none = ap (λ x. x.0) h in ground arith)

pub maps-IsBridge : IsBridge maps
maps-IsBridge = record {
  creation_keeps = λ m c estate id p h. creation_keeps m c estate id p _ h;
  creation_notes = λ m c estate k t h. creation_notes m c estate k t _ h;
  note_keeps = λ m t id. note_keeps m t id _;
  note_notes = λ m t k u h. note_notes m t k u _ refl h;
  note_found = λ m t m' h. note_found m t m' _ h;
  update_notes = λ m id s r q k. update_notes m id s r _ k;
  update_found = λ m id s r q p m' j h. update_found m id s r _ p m' j h;
  update_fails = λ m id s r q m' j h. update_fails m id s r _ m' j h;
}

abbrev pub command : InitiatePaymentCommand
command = record {
  payment_reference = "p1";
  order_reference = "o1";
  organisation_id = some "org1";
  customer_reference = none;
  market_key = "zuribeans-ug";
  legal_seller_key = "seller";
  method = bank_transfer;
  terms = prepaid;
  provider_key = "medusa-manual-ug";
  currency = "UGX";
  amount_minor = dyadic (pos 5000) 0;
  idempotency_key = "a";
  correlation_id = "c1";
  due_at = none;
}

abbrev pub theirs : PaymentSnapshot
theirs = snapshot (
    stored (record command { organisation_id = none; customer_reference = some "x" })
      "estate:thamani-b2c")

abbrev pub empty : Maps
empty = record { pays = λ j. none; notes = λ k. none }

abbrev pub row_a : StoredPayment
row_a = stored command "estate:zuribeans-b2b"

abbrev pub row_b : StoredPayment
row_b = record row_a { id = "b"; source_idempotency_key = "b"; status = captured }

abbrev pub two : Maps
two = record {
  pays = λ j. if j == "a" then some row_a else (if j == "b" then some row_b else none);
  notes = λ k. none;
}
