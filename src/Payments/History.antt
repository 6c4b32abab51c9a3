-- ===== src/Payments/History.antt =====
-- Histories of the calls of baobab/payments/orchestration-port.ts over the adapter of
-- baobab/payments/payment-record-adapter.ts: what every step keeps of the tables.
use baobab_trade.Prelude.{
  ◌≡◌, refl, sym, ap, ◌∙◌, String, Bool, true, false, Option, none, some, inl, inr, Bool-cases,
  arith, ◌==◌, if◌then◌else◌, eq_of_==, subst,
}
use baobab_trade.Payments.Port.{
  PaymentStatus, InitiatePaymentCommand, PaymentSnapshot, transitions, transition,
}
use baobab_trade.Payments.Adapter.{
  StoredPayment, StoredTransition, Bridge, Creation, row, violation, failure, eq_status,
  find_payment, raced_with, settle_creation, answer_create, create, updated, recorded,
  replay_or_move, move_current, move_by, move, adapter,
}

-- A chain of allowed transitions.
pub data Route : PaymentStatus → PaymentStatus → Type 0 where
  here : {s : PaymentStatus} → Route s s
  by : {s t u : PaymentStatus} → transitions s t ≡ true → Route t u → Route s u

pub Route-trans : {s t u : PaymentStatus} → Route s t → Route t u → Route s u
Route-trans here k = k
Route-trans (by e h) k = by e (Route-trans h k)

-- What the service of the bridge documents: a row is found under its id and keys as it was last
-- written, and a write touches no other row. A creation that fails leaves the rows found before.
pub record IsBridge (b : Bridge) : Type 0 where
  pub creation_keeps :
      (db : b.Db) (c : InitiatePaymentCommand) (estate id : String) (p : StoredPayment)
      → b.payment_of db id ≡ some p
      → b.payment_of (b.create_payment db c estate).1 id ≡ some p
  pub creation_notes :
      (db : b.Db) (c : InitiatePaymentCommand) (estate k : String) (t : StoredTransition)
      → b.transition_by_key db k ≡ some t
      → b.transition_by_key (b.create_payment db c estate).1 k ≡ some t
  pub note_keeps :
      (db : b.Db) (t : StoredTransition) (id : String)
      → b.payment_of (b.create_transition db t).1 id ≡ b.payment_of db id
  pub note_notes :
      (db : b.Db) (t : StoredTransition) (k : String) (u : StoredTransition)
      → b.transition_by_key db k ≡ some u
      → b.transition_by_key (b.create_transition db t).1 k ≡ some u
  pub note_found :
      (db : b.Db) (t : StoredTransition) (db' : b.Db)
      → b.create_transition db t ≡ (true, db')
      → b.transition_by_key db' t.idempotency_key ≡ some t
  pub update_notes :
      (db : b.Db) (id : String) (s : PaymentStatus) (r q : Option String) (k : String)
      → b.transition_by_key (b.update_payment db id s r q).1 k ≡ b.transition_by_key db k
  pub update_found :
      (db : b.Db) (id : String) (s : PaymentStatus) (r q : Option String) (p : StoredPayment)
      (db' : b.Db) (j : String)
      → b.update_payment db id s r q ≡ (some p, db')
      → (p.status ≡ s) × (b.payment_of db' j ≡ (if id == j then some p else b.payment_of db j))
  pub update_fails :
      (db : b.Db) (id : String) (s : PaymentStatus) (r q : Option String) (db' : b.Db) (j : String)
      → b.update_payment db id s r q ≡ (none, db')
      → b.payment_of db' j ≡ b.payment_of db j

pub eq_status-eq : (s t : PaymentStatus) → eq_status s t ≡ true → s ≡ t
unfolding eq_status
eq_status-eq s t h = ground arith

pub eq_status_refl : (s : PaymentStatus) → eq_status s s ≡ true
unfolding eq_status
eq_status_refl s = ground arith

module _ (b : Bridge) where
  -- Payments stay and move along the transitions, and the transitions stay.
  pub record Kept (db db' : b.Db) : Type 0 where
    pub pays :
        (id : String) (p : StoredPayment)
        → b.payment_of db id ≡ some p
        → (p' : StoredPayment) × (b.payment_of db' id ≡ some p') × Route p.status p'.status
    pub notes :
        (k : String) (t : StoredTransition)
        → b.transition_by_key db k ≡ some t
        → b.transition_by_key db' k ≡ some t

  pub Kept-refl : (db : b.Db) → Kept db db
  Kept-refl db = record { pays = λ id p h. (p, h, here); notes = λ k t h. h }

  pub Kept-trans : {x y z : b.Db} → Kept x y → Kept y z → Kept x z
  Kept-trans h k = record {
    pays = λ id p e.
        let (q, f, r) = h.pays id p e in
        let (q2, f2, r2) = k.pays id q f in (q2, f2, Route-trans r r2);
    notes = λ key t e. k.notes key t (h.notes key t e);
  }

  -- A call of the port: a creation, or a transition of any snapshot.
  pub data Step : b.Db → b.Db → Type 0 where
    creates :
        {db db' : b.Db} (c : InitiatePaymentCommand) (estate : String)
        → (create b db c estate).1 ≡ db'
        → Step db db'
    moves :
        {db db' : b.Db} (payment : PaymentSnapshot) (to : PaymentStatus) (key : String)
        (reference status : Option String)
        → (transition (adapter b) db payment to key reference status).1 ≡ db'
        → Step db db'

  pub data History : b.Db → b.Db → Type 0 where
    still : {db : b.Db} → History db db
    first : {x y z : b.Db} → Step x y → History y z → History x z

  module _ (laws : IsBridge b) where
    settled_creation :
        (db : b.Db) (c : InitiatePaymentCommand) (r : Creation × b.Db)
        → Kept db r.1
        → Kept db (settle_creation b c r).1
    unfolding settle_creation raced_with
    settled_creation db c (row p, db') h = h
    settled_creation db c (failure, db') h = h
    settled_creation db c (violation, db') h = raced (find_payment b db' c.idempotency_key)
      where
        raced : (o : Option PaymentSnapshot) → Kept db (raced_with b db' o).1
        raced none = h
        raced (some s) = h

    create-Kept :
        (db : b.Db) (c : InitiatePaymentCommand) (estate : String)
        → Kept db (create b db c estate).1
    unfolding create answer_create
    create-Kept db c estate = answered (find_payment b db c.idempotency_key)
      where
        answered : (o : Option PaymentSnapshot) → Kept db (answer_create b db c estate o).1
        answered none = settled_creation db c (b.create_payment db c estate) (record {
          pays = λ id p e. (p, laws.creation_keeps db c estate id p e, here);
          notes = λ k t e. laws.creation_notes db c estate k t e;
        })
        answered (some s) = Kept-refl db

    update_Kept :
        (db : b.Db) (t : StoredTransition) (p : StoredPayment)
        → b.payment_of db t.payment_id ≡ some p
        → p.status ≡ t.from_status
        → transitions t.from_status t.to_status ≡ true
        → (r : Option StoredPayment × b.Db)
        → b.update_payment db t.payment_id t.to_status t.provider_reference t.provider_status ≡ r
        → Kept db (updated b r).1
    unfolding updated
    update_Kept db t p at from allowed (none, db') e = record {
      pays = λ id q f. (q, laws.update_fails db _ _ _ _ db' id e ∙ f, here);
      notes =
          λ k u f. ap (λ x. b.transition_by_key x.1 k) (sym e) ∙ laws.update_notes db _ _ _ _ k ∙ f;
    }
    update_Kept db t p at from allowed (some new, db') e = record {
      pays = λ id q f.
          let (st, found) = laws.update_found db _ _ _ _ new db' id e in
          elim (Bool-cases (t.payment_id == id)) [
            | inr other ↦ (q, found ∙ rw other f, here)
            | inl same ↦ (new, found ∙ rw same refl, route id q f st (eq_of_== _ _ same))
          ];
      notes =
          λ k u f. ap (λ x. b.transition_by_key x.1 k) (sym e) ∙ laws.update_notes db _ _ _ _ k ∙ f;
    }
      where
        route :
            (id : String) (q : StoredPayment)
            → b.payment_of db id ≡ some q
            → new.status ≡ t.to_status
            → t.payment_id ≡ id
            → Route q.status new.status
        route id q f st same =
            let e1 : some p ≡ some q = sym at ∙ ap (λ x. b.payment_of db x) same ∙ f in
            let e2 : p ≡ q = cc in
            let e3 : t.from_status ≡ q.status = sym from ∙ ap (λ x. x.status) e2 in
            by
              (subst (λ s. transitions s new.status ≡ true) e3
                (ap (λ s. transitions t.from_status s) st ∙ allowed))
              here

    noted_at :
        (db : b.Db) (t : StoredTransition) (db' : b.Db)
        → (b.create_transition db t).1 ≡ db'
        → (id : String) → b.payment_of db' id ≡ b.payment_of db id
    noted_at db t db' e id = ap (λ x. b.payment_of x id) (sym e) ∙ laws.note_keeps db t id

    noted_Kept :
        (db : b.Db) (t : StoredTransition) (db' : b.Db)
        → (b.create_transition db t).1 ≡ db'
        → Kept db db'
    noted_Kept db t db' e = record {
      pays = λ id q f. (q, noted_at db t db' e id ∙ f, here);
      notes = λ k u f. ap (λ x. b.transition_by_key x k) (sym e) ∙ laws.note_notes db t k u f;
    }

    recorded-Kept :
        (db : b.Db) (t : StoredTransition) (p : StoredPayment)
        → b.payment_of db t.payment_id ≡ some p
        → p.status ≡ t.from_status
        → transitions t.from_status t.to_status ≡ true
        → (r : Bool × b.Db) → b.create_transition db t ≡ r
        → Kept db (recorded b t r).1
    unfolding recorded
    recorded-Kept db t p at from allowed (false, db') e = noted_Kept db t db' (ap (λ x. x.1) e)
    recorded-Kept db t p at from allowed (true, db') e =
        let e' : (b.create_transition db t).1 ≡ db' = ap (λ x. x.1) e in
        Kept-trans (noted_Kept db t db' e')
          (update_Kept db' t p (noted_at db t db' e' t.payment_id ∙ at) from allowed _ refl)

    moved_Kept :
        (db : b.Db) (t : StoredTransition)
        → transitions t.from_status t.to_status ≡ true
        → (o : Option StoredTransition) (c : Option StoredPayment)
        → b.payment_of db t.payment_id ≡ c
        → Kept db (move_current b db t o c).1
    unfolding move_current replay_or_move
    moved_Kept db t allowed none none at = Kept-refl db
    moved_Kept db t allowed (some u) none at = Kept-refl db
    moved_Kept db t allowed (some u) (some p) at = Kept-refl db
    moved_Kept db t allowed none (some p) at =
        elim (Bool-cases (eq_status p.status t.from_status)) [
          | inr other ↦ rw other (Kept-refl db)
          | inl same ↦ rw same (recorded-Kept db t p at (eq_status-eq _ _ same) allowed _ refl)
        ]

    Step-Kept : {x y : b.Db} → Step x y → Kept x y
    unfolding transition move move_by
    Step-Kept {x} {y} (creates c estate e) = subst (λ z. Kept x z) e (create-Kept x c estate)
    Step-Kept {x} {y} (moves payment to key r s e) =
        elim (Bool-cases (transitions payment.status to)) [
          | inr refused ↦ subst (λ z. Kept x z) (rw refused at e) (Kept-refl x)
          | inl allowed ↦ subst (λ z. Kept x z) (rw allowed at e) (moved_Kept x _ allowed _ _ refl)
        ]

    pub History-Kept : {x y : b.Db} → History x y → Kept x y
    History-Kept {x} still = Kept-refl x
    History-Kept (first s h) = Kept-trans (Step-Kept s) (History-Kept h)
