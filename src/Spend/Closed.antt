-- ===== src/Spend/Closed.antt =====
-- baobab/b2b/spend-reservation-commands.ts: a reservation that is COMMITTED, RELEASED or EXPIRED.
use baobab_trade.Prelude.{
  ◌≡◌, refl, ap, String, Bool, true, false, ◌==◌, Option, some, List, [], ◌∷◌, find, any, All,
  Bool-cases, inl, inr, arith, if◌then◌else◌, ==_refl, eq_of_==, or_false, ◌∙◌,
}
use baobab_trade.Spend.State.{Db, Reservation, is_active, alter, find_reservation}
use baobab_trade.Spend.Tx.{Env, write_entry, set_status, advance_hold_revision}
use baobab_trade.Spend.Steps.{CommitCommand, clashes}
use baobab_trade.Spend.Run.{Request}
use baobab_trade.Spend.Keeps.{Keeps, Writes}
use baobab_trade.Spend.Books.{update_row-ok, with_unit-ok}
use baobab_trade.Spend.Frame.{insert_entry-SameRows}
use baobab_trade.Spend.Serve.{Call, serve, serve-Keeps}

abbrev pub is_named : String → Reservation → Bool
is_named id r = r.id == id

module _ (f : Reservation → Reservation) (same : (x : Reservation) → (f x).id ≡ x.id) where
  -- An update under one id leaves a row of another id where it is.
  pub find-alter_other :
      (id id' : String) (rs : List Reservation)
      → (id' == id) ≡ false
      → find (is_named id) (alter (is_named id') f rs) ≡ find (is_named id) rs
  unfolding alter
  find-alter_other id id' [] other = refl
  find-alter_other id id' (r ∷ rs) other = elim (Bool-cases (r.id == id')) [
    | inl t ↦ let at : r.id ≡ id' = eq_of_== _ _ t in rw t (rw (same r) (rw at (rw other refl)))
    | inr n ↦
        let rest = find-alter_other id id' rs other in
        rw n (ap (λ o. if r.id == id then some r else o) rest)
  ]

  -- An update under the id of a row is read back.
  pub find-alter_same :
      (id : String) (rs : List Reservation) {r : Reservation}
      → find (is_named id) rs ≡ some r
      → find (is_named id) (alter (is_named id) f rs) ≡ some (f r)
  unfolding alter
  find-alter_same id [] h = absurd (ground arith)
  find-alter_same id (x ∷ rs) {r} h = elim (Bool-cases (x.id == id)) [
    | inl t ↦
        let found : x ≡ r = ground (arith, rw t at h) in
        let kept : ((f x).id == id) ≡ true = rw (same x) t in
        rw t (rw kept (ap (λ y. some (f y)) found))
    | inr n ↦ rw n (rw n (find-alter_same id rs (rw n at h)))
  ]

-- The reservation is this row, and it is closed.
abbrev pub IsClosed : String → Reservation → Db → Type 0
IsClosed id r db = (find_reservation db id ≡ some r) × (is_active r.status ≡ false)

-- A new row that clashes with none comes before no row of its id.
find-fresh :
    (env : Env) (n : Reservation) (id : String) (rs : List Reservation) {r : Reservation}
    → any (clashes env n) rs ≡ false
    → find (is_named id) rs ≡ some r
    → (n.id == id) ≡ false
find-fresh env n id [] fresh h = absurd (ground arith)
find-fresh env n id (x ∷ rs) fresh h = elim (Bool-cases (x.id == id)) [
  | inl t ↦
      let other : (x.id == n.id) ≡ false =
        (or_false (x.id == n.id) _ ((or_false (clashes env n x) _ fresh).0)).0 in
      elim (Bool-cases (n.id == id)) [
        | inl u ↦ absurd (clash (rw (eq_of_== _ _ t) (rw (eq_of_== _ _ u) (==_refl id))) other)
        | inr v ↦ v
      ]
  | inr k ↦ find-fresh env n id rs ((or_false (clashes env n x) _ fresh).1) (rw k at h)
]
  where
    clash : {b : Bool} → b ≡ true → b ≡ false → ⊥
    clash p q = ground arith

-- An update past the guard is of another row.
update-IsClosed :
    (id id' : String) (r : Reservation) (f : Reservation → Reservation) (db : Db)
    → ((x : Reservation) → (f x).id ≡ x.id)
    → IsClosed id r db
    → (x : Reservation) → find_reservation db id' ≡ some x
    → is_active x.status ≡ true
    → IsClosed id r (record db { reservations = alter (is_named id') f db.reservations })
update-IsClosed id id' r f db same (h, closed) x found t = elim (Bool-cases (id' == id)) [
  | inl u ↦
      let key : id' ≡ id = eq_of_== _ _ u in
      let row : r ≡ x = one_row h (rw key at found) in absurd (clash t (rw row at closed))
  | inr n ↦ (find-alter_other f same id id' db.reservations n ∙ h, closed)
]
  where
    one_row : {o : Option Reservation} {a b : Reservation} → o ≡ some a → o ≡ some b → a ≡ b
    one_row p q = cc

    clash : {b : Bool} → b ≡ true → b ≡ false → ⊥
    clash p q = ground arith

IsClosed-Writes : (env : Env) (id : String) (r : Reservation) → Writes env (IsClosed id r)
unfolding write_entry set_status advance_hold_revision
IsClosed-Writes env id r = record {
  entry = λ e db a db' h k.
      let s = insert_entry-SameRows env.month env.now db e (with_unit-ok _ a db' k) in
      (rw s.reservations (h.0), h.1);
  status = λ id' s db a db' h k.
      update_row-ok env (IsClosed id r) _ _ _ db a db' h
        (update-IsClosed id id' r _ db (λ x. refl) h) k;
  revision = λ id' db a db' h k.
      update_row-ok env (IsClosed id r) _ _ _ db a db' h
        (update-IsClosed id id' r _ db (λ x. refl) h) k;
  reservation = λ n db h fresh. (rw (find-fresh env n id db.reservations fresh (h.0)) (h.0), h.1);
  command = λ row db h fresh. h;
}

-- A reservation that is COMMITTED, RELEASED or EXPIRED is terminal: through any history of calls of
-- the commands its row stays exactly as it is, where the mutations of atomic commits leave it so.
pub serve-IsClosed :
    (digest : Request → String) (id : String) (r : Reservation) (cs : List Call) (db : Db)
    → All (λ c. (k : CommitCommand) → Keeps (IsClosed id r) (c.mutation k)) cs
    → IsClosed id r db
    → IsClosed id r (serve digest cs db)
serve-IsClosed digest id r cs db ms h =
    serve-Keeps digest (IsClosed id r) (λ env. IsClosed-Writes env id r) cs db ms h
