-- ===== src/Payments/Initiated.antt =====
-- What an initiated payment of baobab/payments/orchestration-port.ts has passed and whose it is, and
-- what a transition whose update fails leaves.
use baobab_trade.Prelude.{
  ◌≡◌, refl, sym, ap, ◌∙◌, String, Bool, true, false, Option, none, some, inl, inr, Bool-cases,
  arith, not, ◌&&◌, ◌⊎◌, eq_of_==,
}
use baobab_trade.Prelude.Number.{is_positive, is_safe_integer}
use baobab_trade.Fulfilment.Port.{has_value, xor}
use baobab_trade.Payments.Port.{
  PaymentStatus, PaymentSnapshot, PaymentResult, ok, throws, throw_if, transitions, transition,
  InitiatePaymentCommand, validate_command, digital_estate_of, answer_initiate, validated, initiate,
  database, is_prepaid, is_invoice_terms, prepaid, invoice_terms,
}
use baobab_trade.Payments.Adapter.{
  StoredPayment, Bridge, Creation, row, violation, failure, eq_status, snapshot, updated, recorded,
  replay_or_move, move_current, move_by, move, adapter, find_payment, create, answer_create,
  settle_creation, raced_with,
}
use baobab_trade.Payments.History.{IsBridge, eq_status_refl}
use baobab_trade.Payments.Noted.{throw_if-ok, asked}

-- A safe positive number of minor units, one party, and terms that suit the method.
pub record IsChargeable (c : InitiatePaymentCommand) : Type 0 where
  pub safe : is_safe_integer c.amount_minor ≡ true
  pub positive : is_positive c.amount_minor ≡ true
  pub one_party : ¬ (has_value c.organisation_id ≡ has_value c.customer_reference)
  pub on_terms : (c.terms ≡ prepaid) ⊎ (c.method ≡ invoice_terms)

not_both : (a b : Bool) → not (xor a b) ≡ false → ¬ (a ≡ b)
not_both true b h e = ground arith
not_both false b h e = ground arith

suited :
    (c : InitiatePaymentCommand)
    → (not (is_prepaid c.terms) && not (is_invoice_terms c.method)) ≡ false
    → (c.terms ≡ prepaid) ⊎ (c.method ≡ invoice_terms)
suited c h = elim (Bool-cases (is_prepaid c.terms)) [
  | inl e ↦ inl (ground arith)
  | inr e ↦ inr (ground arith)
]

validate_command-IsChargeable :
    (c : InitiatePaymentCommand) → validate_command c ≡ ok tt → IsChargeable c
unfolding validate_command
validate_command-IsChargeable c h =
    let (a, k) = throw_if-ok _ _ _ h in
    let (p, k2) = throw_if-ok _ _ _ k in
    let (t, k3) = throw_if-ok _ _ _ k2 in
    record {
      safe = ground arith;
      positive = ground arith;
      one_party = not_both _ _ p;
      on_terms = suited c t;
    }

module _ (b : Bridge) (others : b.Db → b.Db) where
  -- The creation of the payment broke a unique constraint, and the payment is there then.
  abbrev pub Clashed : b.Db → InitiatePaymentCommand → PaymentSnapshot → Type 0
  Clashed db c a =
      (db2 : b.Db) × (b.create_payment db c (digital_estate_of c) ≡ (violation, db2))
      × (find_payment b db2 c.idempotency_key ≡ some a)

  -- The key was free at the lookup, and the payment was there when the creation looked again, or the
  -- creation itself clashed with it.
  abbrev pub Raced : b.Db → InitiatePaymentCommand → PaymentSnapshot → Type 0
  Raced db c a =
      (find_payment b db c.idempotency_key ≡ none)
      × ((find_payment b (others db) c.idempotency_key ≡ some a) ⊎ Clashed (others db) c a)

  raced_found :
      (db : b.Db) (key : String) (o : Option PaymentSnapshot) {a : PaymentSnapshot} {db' : b.Db}
      → find_payment b db key ≡ o
      → raced_with b db o ≡ (ok a, db')
      → find_payment b db key ≡ some a
  unfolding raced_with
  raced_found db key none e h = absurd (let k : throws _ ≡ ok _ = ap (λ x. x.0) h in ground arith)
  raced_found db key (some s) {a} {db'} e h =
      let k : ok s ≡ ok a = ap (λ x. x.0) h in let same : s ≡ a = cc in e ∙ ap some same

  settled_owner :
      ((db : b.Db) (c : InitiatePaymentCommand) (estate : String) (p : StoredPayment) (db' : b.Db)
        → b.create_payment db c estate ≡ (row p, db')
        → p.digital_estate ≡ estate)
      → (db : b.Db) (c : InitiatePaymentCommand) (r : Creation × b.Db) {a : PaymentSnapshot}
        {db' : b.Db}
      → b.create_payment db c (digital_estate_of c) ≡ r
      → settle_creation b c r ≡ (ok a, db')
      → (a.digital_estate ≡ digital_estate_of c) ⊎ Clashed db c a
  unfolding settle_creation snapshot
  settled_owner owned db c (row p, db2) {a} e h =
      let k : ok (snapshot p) ≡ ok a = ap (λ x. x.0) h in
      let same : snapshot p ≡ a = cc in
      inl (ap (λ s. s.digital_estate) (sym same) ∙ owned db c (digital_estate_of c) p db2 e)
  settled_owner owned db c (failure, db2) e h =
      absurd (let k : throws _ ≡ ok _ = ap (λ x. x.0) h in ground arith)
  settled_owner owned db c (violation, db2) {a} {db'} e h =
      inr (db2, e, raced_found db2 c.idempotency_key _ refl h)

  created_owner :
      ((db : b.Db) (c : InitiatePaymentCommand) (estate : String) (p : StoredPayment) (db' : b.Db)
        → b.create_payment db c estate ≡ (row p, db')
        → p.digital_estate ≡ estate)
      → (db : b.Db) (c : InitiatePaymentCommand) (o : Option PaymentSnapshot) {a : PaymentSnapshot}
        {db' : b.Db}
      → find_payment b db c.idempotency_key ≡ o
      → answer_create b db c (digital_estate_of c) o ≡ (ok a, db')
      → (a.digital_estate ≡ digital_estate_of c)
        ⊎ ((find_payment b db c.idempotency_key ≡ some a) ⊎ Clashed db c a)
  unfolding answer_create
  created_owner owned db c none e h = elim (settled_owner owned db c _ refl h) [
    | inl same ↦ inl same
    | inr raced ↦ inr (inr raced)
  ]
  created_owner owned db c (some s) {a} e h =
      let k : ok s ≡ ok a = ap (λ x. x.0) h in let same : s ≡ a = cc in inr (inl (e ∙ ap some same))

  answered_owner :
      ((db : b.Db) (c : InitiatePaymentCommand) (estate : String) (p : StoredPayment) (db' : b.Db)
        → b.create_payment db c estate ≡ (row p, db')
        → p.digital_estate ≡ estate)
      → (db : b.Db) (c : InitiatePaymentCommand) (o : Option PaymentSnapshot) {a : PaymentSnapshot}
        {db' : b.Db}
      → find_payment b db c.idempotency_key ≡ o
      → answer_initiate (adapter b) others db c (digital_estate_of c) o ≡ (ok a, db')
      → (a.digital_estate ≡ digital_estate_of c) ⊎ Raced db c a
  unfolding answer_initiate create
  answered_owner owned db c (some s) {a} e h =
      let (differs, k) = throw_if-ok _ _ _ (ap (λ x. x.0) h) in
      let same : s ≡ a = cc in
      inl (ap (λ s. s.digital_estate) (sym same) ∙ eq_of_== _ _ (ground arith))
  answered_owner owned db c none e h = elim (created_owner owned (others db) c _ refl h) [
    | inl same ↦ inl same
    | inr raced ↦ inr (e, raced)
  ]

  pub initiated :
      (db : b.Db) (c : InitiatePaymentCommand) (v : PaymentResult (Unit {0})) {a : PaymentSnapshot}
      {db' : b.Db}
      → validated (adapter b) others db c v ≡ (ok a, db')
      → (v ≡ ok tt)
        × (answer_initiate
              (adapter b)
              others
              db
              c
              (digital_estate_of c)
              (find_payment b db c.idempotency_key)
            ≡ (ok a, db'))
  unfolding validated
  initiated db c (ok tt) h = (refl, h)
  initiated db c (throws e) h = absurd (let k : throws _ ≡ ok _ = ap (λ x. x.0) h in ground arith)

  -- A payment that is initiated was asked for with a safe positive amount, one party, and terms that
  -- suit the method; and it belongs to the digital estate of the command, where the bridge stores the
  -- estate it is told, unless the key was free at the lookup and the payment was there before the
  -- command's own creation, or clashed with it.
  pub initiate-IsOwned :
      ((db : b.Db) (c : InitiatePaymentCommand) (estate : String) (p : StoredPayment) (db' : b.Db)
        → b.create_payment db c estate ≡ (row p, db')
        → p.digital_estate ≡ estate)
      → (db : b.Db) (c : InitiatePaymentCommand) {a : PaymentSnapshot} {db' : b.Db}
      → initiate (adapter b) others db c ≡ (ok a, db')
      → IsChargeable c × ((a.digital_estate ≡ digital_estate_of c) ⊎ Raced db c a)
  unfolding initiate
  initiate-IsOwned owned db c h =
      let (valid, k) = initiated db c (validate_command c) h in
      (validate_command-IsChargeable c valid, answered_owner owned db c _ refl k)

module _ (b : Bridge) (laws : IsBridge b) where
  -- A transition whose note is written and whose update fails is an error, and the same call sent
  -- again is answered as done, with the payment still in the status it had, and changes nothing.
  pub failed-IsSwallowed :
      (db : b.Db) {db' db2 : b.Db} (payment : PaymentSnapshot) (to : PaymentStatus) (key : String)
      (reference status : Option String) (p : StoredPayment)
      → transitions payment.status to ≡ true
      → b.transition_by_key db key ≡ none
      → b.payment_of db payment.id ≡ some p
      → p.status ≡ payment.status
      → b.create_transition db (asked b laws payment to key reference status) ≡ (true, db')
      → b.update_payment db' payment.id to reference status ≡ (none, db2)
      → (transition (adapter b) db payment to key reference status ≡ (throws database, db2))
        × (transition (adapter b) db2 payment to key reference status ≡ (ok (snapshot p), db2))
  unfolding transition move move_by move_current replay_or_move recorded updated throw_if
  failed-IsSwallowed db {db'} {db2} payment to key reference status p allowed free at from noted
        fails =
      let same : eq_status p.status payment.status ≡ true =
        ap (λ s. eq_status s payment.status) from ∙ eq_status_refl payment.status in
      let wrote = laws.note_found db (asked b laws payment to key reference status) db' noted in
      let kept : b.transition_by_key db2 key ≡ some (asked b laws payment to key reference status) =
        ap (λ x. b.transition_by_key x.1 key) (sym fails)
        ∙ laws.update_notes db' _ _ _ _ key
        ∙ wrote in
      let stays : b.payment_of db2 payment.id ≡ some p =
        laws.update_fails db' _ _ _ _ db2 payment.id fails
        ∙ ap (λ x. b.payment_of x.1 payment.id) (sym noted)
        ∙ laws.note_keeps db _ payment.id
        ∙ at in
      (
        rw (allowed, free, at, same, noted, fails) refl,
        rw (allowed, kept, stays, eq_status_refl payment.status, eq_status_refl to) refl,
      )
