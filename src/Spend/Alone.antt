-- ===== src/Spend/Alone.antt =====
-- baobab/b2b/spend-reservation-commands.ts: one ACTIVE reservation for a purchase.
use baobab_trade.Prelude.{
  ◌+◌, ◌≤◌, ◌≡◌, refl, String, Bool, true, false, not, ◌==◌, ◌&&◌, some, List, [], ◌∷◌, find, any,
  filter, length, All, Bool-cases, inl, inr, arith, eq_of_==, or_false, and_true,
}
use baobab_trade.Spend.State.{Db, Reservation, ReservationStatus, is_active, alter}
use baobab_trade.Spend.Tx.{Env, write_entry, set_status, advance_hold_revision}
use baobab_trade.Spend.Steps.{CommitCommand, clashes}
use baobab_trade.Spend.Run.{Request}
use baobab_trade.Spend.Keeps.{Keeps, Writes}
use baobab_trade.Spend.Books.{update_row-ok, with_unit-ok}
use baobab_trade.Spend.Frame.{insert_entry-SameRows}
use baobab_trade.Spend.Closed.{is_named}
use baobab_trade.Spend.Serve.{Call, serve, serve-Keeps}

-- An ACTIVE reservation of this purchase.
abbrev pub is_open : String → String → Reservation → Bool
is_open organisation purchase r =
    is_active r.status
    && (not r.deleted && (r.organisation_id == organisation && r.purchase_reference == purchase))

-- No reservation clashes with an older one.
abbrev pub AreDistinct : Env → List Reservation → Type 0
AreDistinct env [] = Unit
AreDistinct env (n ∷ rs) = (any (clashes env n) rs ≡ false) × AreDistinct env rs

abbrev pub IsDistinct : Env → Db → Type 0
IsDistinct env db = AreDistinct env db.reservations

open-Clashes :
    (env : Env) (o p : String) (n r : Reservation)
    → is_open o p n ≡ true
    → is_open o p r ≡ true
    → clashes env n r ≡ true
open-Clashes env o p n r h k =
    let (na, h1) = and_true (is_active n.status) _ h in
    let (nd, h2) = and_true (not n.deleted) _ h1 in
    let (n_org, np) = and_true (n.organisation_id == o) _ h2 in
    let (ra, k1) = and_true (is_active r.status) _ k in
    let (rd, k2) = and_true (not r.deleted) _ k1 in
    let (ro, rp) = and_true (r.organisation_id == o) _ k2 in
    let same_o : (r.organisation_id == n.organisation_id) ≡ true = rw (eq_of_== _ _ n_org) ro in
    let same_p : (r.purchase_reference == n.purchase_reference) ≡ true = rw (eq_of_== _ _ np) rp in
    ground arith

none_open :
    (env : Env) (o p : String) (n : Reservation) (rs : List Reservation)
    → is_open o p n ≡ true
    → any (clashes env n) rs ≡ false
    → length (filter (is_open o p) rs) ≡ 0
none_open env o p n [] h k = refl
none_open env o p n (r ∷ rs) h k =
    let (here, there) = or_false (clashes env n r) _ k in
    elim (Bool-cases (is_open o p r)) [
      | inl t ↦ absurd (apart (open-Clashes env o p n r h t) here)
      | inr f ↦ rw f (none_open env o p n rs h there)
    ]
  where
    apart : {b : Bool} → b ≡ true → b ≡ false → ⊥
    apart a b = ground arith

open-Alone :
    (env : Env) (o p : String) (rs : List Reservation)
    → AreDistinct env rs
    → length (filter (is_open o p) rs) ≤ 1
open-Alone env o p [] d = omega arith
open-Alone env o p (n ∷ rs) (fresh, d) = elim (Bool-cases (is_open o p n)) [
  | inl t ↦ rw t (omega (arith, none_open env o p n rs t fresh))
  | inr f ↦ rw f (open-Alone env o p rs d)
]

module _ (env : Env) (f : Reservation → Reservation)
    (same : (n r : Reservation) → clashes env (f n) r ≡ clashes env n r)
    (fewer : (n r : Reservation)
      → is_active r.status ≡ true
      → clashes env n r ≡ false
      → clashes env n (f r) ≡ false)
    (id : String) where
  any-same :
      (n : Reservation) (rs : List Reservation)
      → any (clashes env n) rs ≡ false
      → any (clashes env (f n)) rs ≡ false
  any-same n [] h = refl
  any-same n (r ∷ rs) h =
      let (here, there) = or_false (clashes env n r) _ h in
      rw (same n r) (rw here (any-same n rs there))

  any-alter :
      (n : Reservation) (rs : List Reservation) {x : Reservation}
      → find (is_named id) rs ≡ some x
      → is_active x.status ≡ true
      → any (clashes env n) rs ≡ false
      → any (clashes env n) (alter (is_named id) f rs) ≡ false
  unfolding alter
  any-alter n [] e t h = refl
  any-alter n (r ∷ rs) {x} e t h =
      let (here, there) = or_false (clashes env n r) _ h in
      elim (Bool-cases (r.id == id)) [
        | inl y ↦
            let found : r ≡ x = ground (arith, rw y at e) in
            rw y (rw (fewer n r (rw found t) here) there)
        | inr m ↦ rw m (rw here (any-alter n rs (rw m at e) t there))
      ]

  alter-AreDistinct :
      (rs : List Reservation) {x : Reservation}
      → find (is_named id) rs ≡ some x
      → is_active x.status ≡ true
      → AreDistinct env rs
      → AreDistinct env (alter (is_named id) f rs)
  unfolding alter
  alter-AreDistinct [] e t d = d
  alter-AreDistinct (r ∷ rs) e t (fresh, d) = elim (Bool-cases (r.id == id)) [
    | inl y ↦ rw y (any-same r rs fresh, d)
    | inr m ↦ rw m (any-alter r rs (rw m at e) t fresh, alter-AreDistinct rs (rw m at e) t d)
  ]

closes_no_more :
    (env : Env) (s : ReservationStatus) (n r : Reservation)
    → is_active r.status ≡ true
    → clashes env n r ≡ false
    → clashes env n (record r { status = s }) ≡ false
closes_no_more env s n r t h = ground arith

IsDistinct-Writes : (env here : Env) → Writes here (IsDistinct env)
unfolding write_entry set_status advance_hold_revision
IsDistinct-Writes env here = record {
  entry = λ e db a db' h k.
      let s = insert_entry-SameRows here.month here.now db e (with_unit-ok _ a db' k) in
      rw s.reservations h;
  status = λ id s db a db' h k.
      update_row-ok here (IsDistinct env) _ id _ db a db' h
        (λ r e t.
          alter-AreDistinct env (λ x. record x { status = s }) (λ n x. refl) (closes_no_more env s)
            id db.reservations e t h)
        k;
  revision = λ id db a db' h k.
      update_row-ok here (IsDistinct env) _ id _ db a db' h
        (λ r e t.
          alter-AreDistinct env (λ x. record x { hold_revision = x.hold_revision + 1 })
            (λ n x. refl) (λ n x u v. v) id db.reservations e t h)
        k;
  reservation = λ n db h fresh. (fresh, h);
  command = λ row db h fresh. h;
}

-- From tables where no reservation clashes with an older one, after any history of calls of the
-- commands a purchase of an Organisation has at most one ACTIVE reservation, where the mutations of
-- atomic commits let no reservation clash.
pub serve-Alone :
    (env : Env) (digest : Request → String) (cs : List Call) (db : Db)
    (organisation purchase : String)
    → All (λ c. (k : CommitCommand) → Keeps (IsDistinct env) (c.mutation k)) cs
    → IsDistinct env db
    → length (filter (is_open organisation purchase) (serve digest cs db).reservations) ≤ 1
serve-Alone env digest cs db organisation purchase ms h =
    open-Alone env organisation purchase _
      (serve-Keeps digest (IsDistinct env) (IsDistinct-Writes env) cs db ms h)
