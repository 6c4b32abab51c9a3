-- ===== src/Payments/Noted.antt =====
-- What an answered transition of baobab/payments/payment-record-adapter.ts leaves in the tables, and
-- that it stays there.
use baobab_trade.Prelude.{
  ◌≡◌, refl, sym, ap, ◌∙◌, String, Bool, true, false, Option, none, some, inl, inr, Bool-cases,
  arith, ==_refl,
}
use baobab_trade.Payments.Port.{
  PaymentStatus, PaymentSnapshot, PaymentRefusal, PaymentResult, ok, throws, throw_if, transitions,
  transition,
}
use baobab_trade.Payments.Adapter.{
  StoredPayment, StoredTransition, Bridge, eq_status, updated, recorded, replay_or_move,
  move_current, move_by, move, adapter,
}
use baobab_trade.Payments.History.{IsBridge, eq_status-eq, History, History-Kept}

pub throw_if-ok {ℓ} :
    {A : Type ℓ} (c : Bool) (e : PaymentRefusal) (k : PaymentResult A) {a : A}
    → throw_if c e k ≡ ok a
    → (c ≡ false) × (k ≡ ok a)
unfolding throw_if
throw_if-ok true e k h = absurd (ground arith)
throw_if-ok false e k h = (refl, h)

module _ (b : Bridge) (laws : IsBridge b) where
  -- What a transition that is answered leaves: its note under the key, and the payment.
  pub record Noted (db : b.Db) (t : StoredTransition) : Type 0 where
    pub note : StoredTransition
    pub noted : b.transition_by_key db t.idempotency_key ≡ some note
    pub same_from : note.from_status ≡ t.from_status
    pub same_to : note.to_status ≡ t.to_status
    pub current : StoredPayment
    pub present : b.payment_of db t.payment_id ≡ some current

  updated-Noted :
      (db : b.Db) (t : StoredTransition) (r : Option StoredPayment × b.Db) {a : PaymentSnapshot}
      {db' : b.Db}
      → b.transition_by_key db t.idempotency_key ≡ some t
      → b.update_payment db t.payment_id t.to_status t.provider_reference t.provider_status ≡ r
      → updated b r ≡ (ok a, db')
      → Noted db' t
  unfolding updated
  updated-Noted db t (none, db2) n e h =
      absurd (let k : throws _ ≡ ok _ = ap (λ x. x.0) h in ground arith)
  updated-Noted db t (some p, db2) {a} {db'} n e h =
      let last : db2 ≡ db' = ap (λ x. x.1) h in
      let (st, found) = laws.update_found db _ _ _ _ p db2 t.payment_id e in
      record {
        note = t;
        noted =
            ap (λ x. b.transition_by_key x t.idempotency_key) (sym last ∙ sym (ap (λ x. x.1) e))
            ∙ laws.update_notes db _ _ _ _ t.idempotency_key
            ∙ n;
        same_from = refl;
        same_to = refl;
        current = p;
        present =
            ap (λ x. b.payment_of x t.payment_id) (sym last)
            ∙ found
            ∙ rw (==_refl t.payment_id) refl;
      }

  recorded-Noted :
      (db : b.Db) (t : StoredTransition) (r : Bool × b.Db) {a : PaymentSnapshot} {db' : b.Db}
      → b.create_transition db t ≡ r
      → recorded b t r ≡ (ok a, db')
      → Noted db' t
  unfolding recorded
  recorded-Noted db t (false, db2) e h =
      absurd (let k : throws _ ≡ ok _ = ap (λ x. x.0) h in ground arith)
  recorded-Noted db t (true, db2) e h = updated-Noted db2 t _ (laws.note_found db t db2 e) refl h

  moved_Noted :
      (db : b.Db) (t : StoredTransition) (o : Option StoredTransition) (c : Option StoredPayment)
      {a : PaymentSnapshot} {db' : b.Db}
      → b.transition_by_key db t.idempotency_key ≡ o
      → b.payment_of db t.payment_id ≡ c
      → move_current b db t o c ≡ (ok a, db')
      → Noted db' t
  unfolding move_current replay_or_move
  moved_Noted db t none none n at h =
      absurd (let k : throws _ ≡ ok _ = ap (λ x. x.0) h in ground arith)
  moved_Noted db t (some u) none n at h =
      absurd (let k : throws _ ≡ ok _ = ap (λ x. x.0) h in ground arith)
  moved_Noted db t (some u) (some p) n at h =
      let (same, k) = throw_if-ok _ _ _ (ap (λ x. x.0) h) in
      let last : db ≡ _ = ap (λ x. x.1) h in
      record {
        note = u;
        noted = ap (λ x. b.transition_by_key x t.idempotency_key) (sym last) ∙ n;
        same_from = eq_status-eq _ _ (ground arith);
        same_to = eq_status-eq _ _ (ground arith);
        current = p;
        present = ap (λ x. b.payment_of x t.payment_id) (sym last) ∙ at;
      }
  moved_Noted db t none (some p) n at h = elim (Bool-cases (eq_status p.status t.from_status)) [
    | inr other ↦ absurd (let k : throws _ ≡ ok _ = ap (λ x. x.0) (rw other at h) in ground arith)
    | inl same ↦ recorded-Noted db t _ refl (rw same at h)
  ]

  pub Noted-later :
      {db db2 : b.Db} {t : StoredTransition} → Noted db t → History b db db2 → Noted db2 t
  Noted-later {t = t} n h =
      let kept = History-Kept b laws h in
      let (q, found, route) = kept.pays t.payment_id n.current n.present in
      record {
        note = n.note;
        noted = kept.notes t.idempotency_key n.note n.noted;
        same_from = n.same_from;
        same_to = n.same_to;
        current = q;
        present = found;
      }

  -- The transition that a call of the port asks for.
  abbrev pub asked :
      PaymentSnapshot → PaymentStatus → String → Option String → Option String → StoredTransition
  asked payment to key reference status = record {
    payment_id = payment.id;
    from_status = payment.status;
    to_status = to;
    idempotency_key = key;
    provider_reference = reference;
    provider_status = status;
  }

  pub answered_Noted :
      (db : b.Db) {db' : b.Db} (payment : PaymentSnapshot) (to : PaymentStatus) (key : String)
      (reference status : Option String) {a : PaymentSnapshot}
      → transition (adapter b) db payment to key reference status ≡ (ok a, db')
      → (transitions payment.status to ≡ true) × Noted db' (asked payment to key reference status)
  unfolding transition move move_by
  answered_Noted db payment to key reference status h =
      elim (Bool-cases (transitions payment.status to)) [
        | inr refused ↦
            absurd (let k : throws _ ≡ ok _ = ap (λ x. x.0) (rw refused at h) in ground arith)
        | inl allowed ↦ (
          allowed,
          moved_Noted db (asked payment to key reference status) _ _ refl refl (rw allowed at h),
        )
      ]
