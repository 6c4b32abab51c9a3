-- ===== src/Payments/Replay.antt =====
-- Where the payments of baobab/payments/payment-record-adapter.ts can go, what a repeated transition
-- answers, and what another one under its key answers.
use baobab_trade.Prelude.{
  ◌&&◌, if◌then◌else◌, ◌≡◌, refl, ap, ◌∙◌, String, Bool, true, false, Option, some, arith, not,
  ◌||◌,
}
use baobab_trade.Payments.Port.{
  PaymentStatus, PaymentSnapshot, ok, throws, throw_if, transitions, transition, key_reused,
  settled, failed, cancelled, PaymentResult,
}
use baobab_trade.Payments.Adapter.{
  StoredPayment, StoredTransition, Bridge, eq_status, snapshot, replay_or_move, move_current,
  move_by, move, adapter,
}
use baobab_trade.Payments.History.{Route, here, by, IsBridge, eq_status_refl, History, History-Kept}
use baobab_trade.Payments.Noted.{Noted-later, answered_Noted}

abbrev pub is_final : PaymentStatus → Bool
is_final settled = true
is_final failed = true
is_final cancelled = true
is_final _ = false

final_edge : (s t : PaymentStatus) → is_final s ≡ true → transitions s t ≡ true → ⊥
unfolding transitions
final_edge s t f h = ground arith

Route-final : {s t : PaymentStatus} → Route s t → is_final s ≡ true → t ≡ s
Route-final here f = refl
Route-final (by e h) f = absurd (final_edge _ _ f e)

module _ (b : Bridge) (laws : IsBridge b) where
  -- Over any history of creations and transitions of any snapshots, stale ones included, a payment
  -- stays and its status moves along the allowed transitions only; settled, failed and cancelled
  -- payments keep their status.
  pub history-Follows :
      {x y : b.Db} (id : String) (p : StoredPayment)
      → History b x y
      → b.payment_of x id ≡ some p
      → (p' : StoredPayment) × (b.payment_of y id ≡ some p')
        × Route p.status p'.status
        × (is_final p.status ≡ true → p'.status ≡ p.status)
  history-Follows id p h at =
      let (q, found, route) = (History-Kept b laws h).pays id p at in
      (q, found, route, Route-final route)

  -- The answer to a call under a key that is noted, for a payment that is there.
  replayed :
      (db : b.Db) (payment : PaymentSnapshot) (to : PaymentStatus) (key : String)
      (reference status : Option String) (note : StoredTransition) (p : StoredPayment)
      → transitions payment.status to ≡ true
      → b.transition_by_key db key ≡ some note
      → b.payment_of db payment.id ≡ some p
      → transition (adapter b) db payment to key reference status ≡ (
        throw_if
            (not (eq_status note.from_status payment.status) || not (eq_status note.to_status to))
            key_reused
            (ok (snapshot p)),
        db,
      )
  unfolding transition move move_by move_current replay_or_move
  replayed db payment to key reference status note p allowed noted at = rw (allowed, noted, at) refl

  both_same :
      (a c s t : PaymentStatus)
      → a ≡ s
      → c ≡ t
      → (not (eq_status a s) || not (eq_status c t)) ≡ false
  both_same a c s t e f =
      let e1 : eq_status a s ≡ true = ap (λ x. eq_status x s) e ∙ eq_status_refl s in
      let e2 : eq_status c t ≡ true = ap (λ x. eq_status x t) f ∙ eq_status_refl t in
      rw (e1, e2) refl

  throw_by :
      (x y : Bool) (k : PaymentResult PaymentSnapshot)
      → throw_if (not x || not y) key_reused k ≡ (if x && y then k else throws key_reused)
  unfolding throw_if
  throw_by true true k = refl
  throw_by true false k = refl
  throw_by false true k = refl
  throw_by false false k = refl

  -- A transition that was answered is answered again, after any later history, with the payment as
  -- it then is, and nothing is changed.
  pub answered-IsReplayed :
      (db : b.Db) {db' db2 : b.Db} (payment : PaymentSnapshot) (to : PaymentStatus) (key : String)
      (reference status : Option String) {a : PaymentSnapshot}
      → transition (adapter b) db payment to key reference status ≡ (ok a, db')
      → History b db' db2
      → (p : StoredPayment) × (b.payment_of db2 payment.id ≡ some p)
        × (transition (adapter b) db2 payment to key reference status ≡ (ok (snapshot p), db2))
  unfolding throw_if
  answered-IsReplayed db {db2 = db2} payment to key reference status h later =
      let (allowed, first) = answered_Noted b laws db payment to key reference status h in
      let n = Noted-later b laws first later in
      (
        n.current,
        n.present,
        replayed db2 payment to key reference status n.note n.current allowed n.noted n.present
            ∙ ap (λ c. (throw_if c key_reused (ok (snapshot n.current)), db2))
                (both_same n.note.from_status n.note.to_status payment.status to n.same_from
                  n.same_to),
      )

  -- Under the key of an answered transition, an allowed transition of any payment that is there, the
  -- same payment or another, is answered after any later history as done where it is between the same
  -- statuses, whatever that payment's status is, and is an error otherwise; it changes nothing.
  pub reused-IsAnswered :
      (db : b.Db) {db' db2 : b.Db} (payment : PaymentSnapshot) (to : PaymentStatus) (key : String)
      (reference status : Option String) {a : PaymentSnapshot} (other : PaymentSnapshot)
      (to' : PaymentStatus) (reference' status' : Option String) (p : StoredPayment)
      → transition (adapter b) db payment to key reference status ≡ (ok a, db')
      → History b db' db2
      → transitions other.status to' ≡ true
      → b.payment_of db2 other.id ≡ some p
      → transition (adapter b) db2 other to' key reference' status' ≡ (
        if eq_status payment.status other.status && eq_status to to'
            then ok (snapshot p)
            else throws key_reused,
        db2,
      )
  reused-IsAnswered db {db2 = db2} payment to key reference status other to' reference' status' p h
        later allowed at =
      let (_, first) = answered_Noted b laws db payment to key reference status h in
      let n = Noted-later b laws first later in
      replayed db2 other to' key reference' status' n.note p allowed n.noted at
      ∙ ap (λ s. (answer s n.note.to_status, db2)) n.same_from
      ∙ ap (λ s. (answer payment.status s, db2)) n.same_to
      ∙ ap (λ x. (x, db2))
          (throw_by (eq_status payment.status other.status) (eq_status to to') (ok (snapshot p)))
    where
      answer : PaymentStatus → PaymentStatus → PaymentResult PaymentSnapshot
      answer from target =
          throw_if (not (eq_status from other.status) || not (eq_status target to')) key_reused
            (ok (snapshot p))
