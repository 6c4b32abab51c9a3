-- ===== src/Payments/Examples.antt =====
-- Runs of the port over a bridge kept in two maps, and the theorems about them.
use baobab_trade.Prelude.{
  ◌≡◌, refl, sym, ap, ◌∙◌, ==_refl, String, true, Option, none, some, arith, ◌==◌, if◌then◌else◌,
  ◌⊎◌,
}
use baobab_trade.Payments.Port.{
  PaymentStatus, PaymentSnapshot, PaymentResult, ok, throws, transitions, transition, created,
  pending, authorized, captured, prepaid, bank_transfer, InitiatePaymentCommand, initiate, database,
  digital_estate_of, key_reused, validate_command, terms_method, net_30,
}
use baobab_trade.Payments.Adapter.{
  StoredPayment, StoredTransition, Bridge, Creation, row, violation, snapshot, adapter,
}
use baobab_trade.Payments.History.{Route, still, first, moves}
use baobab_trade.Payments.Replay.{history-Follows, answered-IsReplayed, reused-IsAnswered, is_final}
use baobab_trade.Payments.Initiated.{initiate-IsOwned, failed-IsSwallowed, IsChargeable, Raced}
use baobab_trade.Payments.Leaks.{Creates, initiate-Leaks}
use baobab_trade.Payments.Adapter.{eq_status}
use baobab_trade.Prelude.{◌&&◌, if◌then◌else◌}
use baobab_trade.Payments.Tables.{
  Maps, stored, add_payment, maps, command, theirs, empty, row_a, row_b, two, maps-IsBridge,
}

abbrev after : Maps
after = (transition (adapter maps) two (snapshot row_a) authorized "k1" none none).1

initiated_run : (initiate (adapter maps) (λ m. m) empty command).0 ≡ ok (snapshot row_a)
unfolding initiate baobab_trade.Payments.Port.validated baobab_trade.Payments.Port.validate_command
    baobab_trade.Payments.Port.throw_if baobab_trade.Payments.Port.answer_initiate
    baobab_trade.Payments.Port.digital_estate_of baobab_trade.Payments.Adapter.find_payment
    baobab_trade.Payments.Adapter.create baobab_trade.Payments.Adapter.answer_create
    baobab_trade.Payments.Adapter.settle_creation snapshot
initiated_run = refl

refused_terms : validate_command (record command { terms = net_30 }) ≡ throws terms_method
unfolding validate_command baobab_trade.Payments.Port.throw_if
refused_terms = refl

authorized_run :
    transition (adapter maps) two (snapshot row_a) authorized "k1" none none
    ≡ (ok (snapshot (record row_a { status = authorized })), after)
unfolding transition transitions snapshot baobab_trade.Payments.Adapter.move
    baobab_trade.Payments.Adapter.move_by baobab_trade.Payments.Adapter.move_current
    baobab_trade.Payments.Adapter.replay_or_move baobab_trade.Payments.Adapter.recorded
    baobab_trade.Payments.Adapter.updated baobab_trade.Payments.Adapter.eq_status
authorized_run = refl

history-Follows_example :
    (p' : StoredPayment) × (after.pays "a" ≡ some p')
    × Route created p'.status
    × (is_final created ≡ true → p'.status ≡ created)
history-Follows_example =
    history-Follows maps maps-IsBridge "a" row_a
      (first (moves (snapshot row_a) authorized "k1" none none refl) still) refl

answered-IsReplayed_example :
    (p : StoredPayment) × (after.pays "a" ≡ some p)
    × (transition (adapter maps) after (snapshot row_a) authorized "k1" none none
        ≡ (ok (snapshot p), after))
unfolding snapshot
answered-IsReplayed_example =
    answered-IsReplayed maps maps-IsBridge two (snapshot row_a) authorized "k1" none none
      authorized_run still

b_there : after.pays "b" ≡ some row_b
unfolding transition transitions snapshot baobab_trade.Payments.Adapter.move
    baobab_trade.Payments.Adapter.move_by baobab_trade.Payments.Adapter.move_current
    baobab_trade.Payments.Adapter.replay_or_move baobab_trade.Payments.Adapter.recorded
    baobab_trade.Payments.Adapter.updated baobab_trade.Payments.Adapter.eq_status
b_there = refl

abbrev seen_b : PaymentSnapshot
seen_b = snapshot (record row_b { status = created })

allowed_b : transitions seen_b.status authorized ≡ true
unfolding transitions snapshot
allowed_b = refl

id_b : after.pays seen_b.id ≡ some row_b
unfolding snapshot
id_b = b_there

-- The other payment is captured, and its transition is answered as done.
reused-IsAnswered_example : transition (adapter maps) after seen_b authorized "k1" none none ≡ (
  if eq_status (snapshot row_a).status seen_b.status && eq_status authorized authorized
      then ok (snapshot row_b)
      else throws key_reused,
  after,
)
reused-IsAnswered_example =
    reused-IsAnswered maps maps-IsBridge two (snapshot row_a) authorized "k1" none none seen_b
      authorized none none row_b authorized_run still allowed_b id_b

estate_stored :
    (m : Maps) (c : InitiatePaymentCommand) (estate : String) (o : Option StoredPayment)
    (p : StoredPayment) (m' : Maps)
    → add_payment m c estate o ≡ (row p, m')
    → p.digital_estate ≡ estate
estate_stored m c estate none p m' h =
    let q : row (stored c estate) ≡ row p = ap (λ x. x.0) h in
    let same : stored c estate ≡ p = cc in ap (λ x. x.digital_estate) (sym same)
estate_stored m c estate (some q) p m' h =
    absurd (let q : violation ≡ row p = ap (λ x. x.0) h in ground arith)

abbrev started : Maps
started = (initiate (adapter maps) (λ m. m) empty command).1

initiated_whole : initiate (adapter maps) (λ m. m) empty command ≡ (ok (snapshot row_a), started)
unfolding initiate baobab_trade.Payments.Port.validated baobab_trade.Payments.Port.validate_command
    baobab_trade.Payments.Port.throw_if baobab_trade.Payments.Port.answer_initiate
    baobab_trade.Payments.Port.digital_estate_of baobab_trade.Payments.Adapter.find_payment
    baobab_trade.Payments.Adapter.create baobab_trade.Payments.Adapter.answer_create
    baobab_trade.Payments.Adapter.settle_creation snapshot
initiated_whole = refl

initiate-IsOwned_example :
    IsChargeable command
    × (((snapshot row_a).digital_estate ≡ digital_estate_of command)
        ⊎ Raced maps (λ m. m) empty command (snapshot row_a))
initiate-IsOwned_example =
    initiate-IsOwned maps (λ m. m) (λ m c estate p m' h. estate_stored m c estate _ p m' h) empty
      command initiated_whole

abbrev b2c_command : InitiatePaymentCommand
b2c_command = record command { organisation_id = none; customer_reference = some "x" }

maps_stores :
    (m : Maps) (c : InitiatePaymentCommand) (estate : String) (o : Option StoredPayment)
    (p : StoredPayment) (m' : Maps)
    → m.pays c.idempotency_key ≡ o
    → add_payment m c estate o ≡ (row p, m')
    → (p.digital_estate ≡ estate) × (m'.pays c.idempotency_key ≡ some p)
maps_stores m c estate none p m' free h =
    let q : row (stored c estate) ≡ row p = ap (λ x. x.0) h in
    let same : stored c estate ≡ p = cc in
    (
      estate_stored m c estate none p m' h,
      ap (λ x. x.pays c.idempotency_key) (sym (ap (λ x. x.1) h))
          ∙ rw (free, ==_refl c.idempotency_key) (ap some same),
    )
maps_stores m c estate (some q) p m' free h =
    absurd (let q : violation ≡ row p = ap (λ x. x.0) h in ground arith)

maps_violates :
    (m : Maps) (c : InitiatePaymentCommand) (estate : String) (o : Option StoredPayment) (m' : Maps)
    (key : String)
    → add_payment m c estate o ≡ (violation, m')
    → m'.pays key ≡ m.pays key
maps_violates m c estate none m' key h =
    absurd (let q : row _ ≡ violation = ap (λ x. x.0) h in ground arith)
maps_violates m c estate (some p) m' key h = ap (λ x. x.1.pays key) (sym h)

maps-Creates : Creates maps
maps-Creates = record {
  stores = λ m c estate p m' h. maps_stores m c estate _ p m' refl h;
  violates = λ m c estate m' key h. maps_violates m c estate _ m' key h;
}

abbrev taken : Maps
taken = (initiate (adapter maps) (λ m. m) empty b2c_command).1

theirs_answered : initiate (adapter maps) (λ m. m) empty b2c_command ≡ (ok theirs, taken)
unfolding initiate baobab_trade.Payments.Port.validated baobab_trade.Payments.Port.validate_command
    baobab_trade.Payments.Port.throw_if baobab_trade.Payments.Port.answer_initiate
    baobab_trade.Payments.Port.digital_estate_of baobab_trade.Payments.Adapter.find_payment
    baobab_trade.Payments.Adapter.create baobab_trade.Payments.Adapter.answer_create
    baobab_trade.Payments.Adapter.settle_creation snapshot
theirs_answered = refl

valid_command : validate_command command ≡ ok tt
unfolding validate_command baobab_trade.Payments.Port.throw_if
valid_command = refl

free_key : baobab_trade.Payments.Adapter.find_payment maps empty "a" ≡ none
unfolding baobab_trade.Payments.Adapter.find_payment
free_key = refl

other_estate : ¬ (digital_estate_of b2c_command ≡ digital_estate_of command)
unfolding digital_estate_of
other_estate h = clash h (eq_of_text h)
  where
    clash :
        digital_estate_of b2c_command ≡ digital_estate_of command
        → ("estate:thamani-b2c" == "estate:zuribeans-b2b") ≡ true
        → ⊥
    clash e h = ground arith

    eq_of_text :
        digital_estate_of b2c_command ≡ digital_estate_of command
        → ("estate:thamani-b2c" == "estate:zuribeans-b2b") ≡ true
    eq_of_text e = ap (λ s. s == "estate:zuribeans-b2b") e

initiate-Leaks_example :
    (initiate (adapter maps) (λ d. (initiate (adapter maps) (λ e. e) d b2c_command).1) empty command
      ≡ (ok theirs, taken))
    × (theirs.digital_estate ≡ digital_estate_of b2c_command)
    × (¬ (theirs.digital_estate ≡ digital_estate_of command))
initiate-Leaks_example =
    initiate-Leaks maps maps-Creates empty command b2c_command valid_command refl other_estate
      free_key theirs_answered

abbrev noted_only : Maps
noted_only = record two {
  notes = λ k.
      if "k1" == k
      then some record {
        payment_id = "a";
        from_status = created;
        to_status = authorized;
        idempotency_key = "k1";
        provider_reference = some "down";
        provider_status = none;
      }
      else none;
}

failed-IsSwallowed_example :
    (transition (adapter maps) two (snapshot row_a) authorized "k1" (some "down") none
      ≡ (throws database, noted_only))
    × (transition (adapter maps) noted_only (snapshot row_a) authorized "k1" (some "down") none
        ≡ (ok (snapshot row_a), noted_only))
unfolding transitions snapshot
failed-IsSwallowed_example =
    failed-IsSwallowed maps maps-IsBridge two (snapshot row_a) authorized "k1" (some "down") none
      row_a refl refl refl refl refl refl
