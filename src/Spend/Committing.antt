-- ===== src/Spend/Committing.antt =====
-- baobab/b2b/spend-reservation-commands.ts, commitCapacity: what a commit has checked.
use baobab_trade.Prelude.{
  ◌≡◌, ◌<◌, ap, String, Bool, true, false, not, ◌==◌, Option, none, some, List, [], ◌∷◌, Memᴰ, find,
  any, filter, map, Bool-cases, Option-cases, inl, inr, arith, eq_of_==, or_false, and_true, eqb,
  filter-mem, mem-filter, find-mem,
}
use baobab_trade.Spend.State.{Db, Policy, Reservation, Hold, CommandResult, ok, Failure, is_active}
use baobab_trade.Spend.Tx.{
  Tx, ◌>>=◌, return, Env, PolicyRow, with_state, lock_reservation, reservation_is, policy_applies,
  policy_row, period_start, insert_row, sort_rows, insert_hold, sort_holds, hold_before,
  applicable_policies, holds, current_hold, is_before,
}
use baobab_trade.Spend.Steps.{CommitCommand}
use baobab_trade.Spend.Commands.{is_fully_held, commit_body}
use baobab_trade.Spend.Keeps.{continue-ok, throw_if-passed}

-- A hold of the full amount under a budget's current revision and period.
pub record IsHeld (env : Env) (db : Db) (r : Reservation) (p : Policy) : Type 0 where
  pub hold : Hold
  pub stored : Memᴰ hold db.holds
  pub reservation : hold.reservation_id ≡ r.id
  pub policy : hold.budget_policy_id ≡ p.id
  pub revision : hold.policy_revision ≡ p.revision
  pub period : hold.period_starts_at ≡ period_start env p p.period_kind
  pub amount : hold.reserved_minor ≡ r.amount_minor

-- What a commit relies on, in the tables it found.
pub record IsFunded (env : Env) (db : Db) (c : CommitCommand) (r : Reservation) : Type 0 where
  pub row : Memᴰ r db.reservations
  pub id : r.id ≡ c.base.reservation_id
  pub organisation : r.organisation_id ≡ c.base.organisation_id
  pub active : is_active r.status ≡ true
  pub unexpired : env.now < r.expires_at
  pub digest : r.transaction_digest ≡ c.transaction_digest
  pub version : r.resource_version ≡ c.resource_version
  pub amount : r.amount_minor ≡ c.amount_minor
  pub hold_revision : r.hold_revision ≡ c.hold_revision
  pub held : (p : Policy) → Memᴰ p db.policies → policy_applies env r p ≡ true → IsHeld env db r p

pub >>=-passed {μ} :
    {A B : Type 0} {P : Type μ} (m : Tx A) (f : A → Tx B) (db : Db) {x : B × Db}
    → (m >>= f) db ≡ ok x
    → ((a : A) (db1 : Db) → m db ≡ ok (a, db1) → f a db1 ≡ ok x → P)
    → P
unfolding ◌>>=◌
>>=-passed m f db h k = let (a, db1, e, rest) = continue-ok f (m db) h in k a db1 e rest

pub mem_between {ℓ} : {A : Type ℓ} {a b x : A} {ys : List A} → Memᴰ x (a ∷ ys) → Memᴰ x (a ∷ b ∷ ys)
mem_between (Memᴰ.head e) = Memᴰ.head e
mem_between (Memᴰ.tail l) = Memᴰ.tail (Memᴰ.tail l)

module _ {ℓ} {A : Type ℓ} {a x : A} {xs ys : List A} where
  mem_under : (Memᴰ x xs → Memᴰ x ys) → Memᴰ x (a ∷ xs) → Memᴰ x (a ∷ ys)
  mem_under f (Memᴰ.head e) = Memᴰ.head e
  mem_under f (Memᴰ.tail m) = Memᴰ.tail (f m)

  mem_past : {b : A} → (Memᴰ x (a ∷ xs) → Memᴰ x ys) → Memᴰ x (a ∷ b ∷ xs) → Memᴰ x (b ∷ ys)
  mem_past f (Memᴰ.head e) = Memᴰ.tail (f (Memᴰ.head e))
  mem_past f (Memᴰ.tail (Memᴰ.head e)) = Memᴰ.head e
  mem_past f (Memᴰ.tail (Memᴰ.tail m)) = Memᴰ.tail (f (Memᴰ.tail m))

  mem_beside : {b : A} → (Memᴰ x xs → Memᴰ x (a ∷ ys)) → Memᴰ x (b ∷ xs) → Memᴰ x (a ∷ b ∷ ys)
  mem_beside f (Memᴰ.head e) = Memᴰ.tail (Memᴰ.head e)
  mem_beside f (Memᴰ.tail m) = mem_between (f m)

-- Sorting keeps the rows.
mem-insert_row :
    (env : Env) (q : PolicyRow) (ps : List PolicyRow) {x : PolicyRow}
    → Memᴰ x (q ∷ ps)
    → Memᴰ x (insert_row env q ps)
mem-insert_row env q [] m = m
mem-insert_row env q (p ∷ ps) m = elim (Bool-cases (is_before env p.id q.id)) [
  | inl t ↦ rw t (mem_past (mem-insert_row env q ps) m)
  | inr n ↦ rw n m
]

mem-sort_rows :
    (env : Env) (ps : List PolicyRow) {x : PolicyRow} → Memᴰ x ps → Memᴰ x (sort_rows env ps)
mem-sort_rows env [] m = m
mem-sort_rows env (p ∷ ps) m =
    mem-insert_row env p (sort_rows env ps) (mem_under (mem-sort_rows env ps) m)

insert_hold-mem :
    (env : Env) (h : Hold) (ks : List Hold) {x : Hold}
    → Memᴰ x (insert_hold env h ks)
    → Memᴰ x (h ∷ ks)
insert_hold-mem env h [] m = m
insert_hold-mem env h (k ∷ ks) m = elim (Bool-cases (hold_before env k h)) [
  | inl t ↦ mem_beside (insert_hold-mem env h ks) (rw t at m)
  | inr n ↦ rw n at m
]

sort_holds-mem : (env : Env) (hs : List Hold) {x : Hold} → Memᴰ x (sort_holds env hs) → Memᴰ x hs
sort_holds-mem env [] m = m
sort_holds-mem env (h ∷ hs) m =
    mem_under (sort_holds-mem env hs) (insert_hold-mem env h (sort_holds env hs) m)

mem-map {ℓ κ} :
    {A : Type ℓ} {B : Type κ} (f : A → B) (xs : List A) {x : A} → Memᴰ x xs → Memᴰ (f x) (map f xs)
mem-map f [] m = elim m [ ]
mem-map f (x ∷ xs) (Memᴰ.head e) = Memᴰ.head (ap f e)
mem-map f (x ∷ xs) (Memᴰ.tail m) = Memᴰ.tail (mem-map f xs m)

any-none {ℓ} :
    {A : Type ℓ} (p : A → Bool) (xs : List A) {x : A} → any p xs ≡ false → Memᴰ x xs → p x ≡ false
any-none p [] h m = elim m [ ]
any-none p (y ∷ xs) h (Memᴰ.head e) = rw e ((or_false (p y) _ h).0)
any-none p (y ∷ xs) h (Memᴰ.tail m) = any-none p xs ((or_false (p y) _ h).1) m

-- What the lookups of a commit give.
with_state-passed :
    (o : Option Reservation) (e : Failure) (db : Db) {r : Reservation} {db' : Db}
    → with_state o e db ≡ ok (r, db')
    → (o ≡ some r) × (db ≡ db')
unfolding with_state
with_state-passed none e db h = absurd (ground arith)
with_state-passed (some a) e db h = (ground arith, ground arith)

lock_reservation-passed :
    (env : Env) (organisation id : String) (db : Db) {r : Reservation} {db' : Db}
    → lock_reservation env organisation id db ≡ ok (r, db')
    → (find (reservation_is env organisation id) db.reservations ≡ some r) × (db ≡ db')
unfolding lock_reservation
lock_reservation-passed env organisation id db h = with_state-passed _ _ db h

applicable_policies-passed :
    (env : Env) (r : Reservation) (db : Db) {ps : List PolicyRow} {db' : Db}
    → applicable_policies env r db ≡ ok (ps, db')
    → (ps ≡ sort_rows env (map (policy_row env) (filter (policy_applies env r) db.policies)))
      × (db ≡ db')
unfolding applicable_policies return
applicable_policies-passed env r db h =
    let (a, k) = throw_if-passed _ _ _ db h in
    let (b, k2) = throw_if-passed _ _ _ db k in (ground arith, ground arith)

holds-passed :
    (env : Env) (id : String) (db : Db) {hs : List Hold} {db' : Db}
    → holds env id db ≡ ok (hs, db')
    → (hs ≡ sort_holds env (filter (λ h. h.reservation_id == id) db.holds)) × (db ≡ db')
unfolding holds
holds-passed env id db h = (ground arith, ground arith)

-- A budget whose hold is the full amount.
is_fully_held-IsHeld :
    (env : Env) (db : Db) (r : Reservation) (p : Policy)
    → is_fully_held env r
        (sort_holds env (filter (λ h. h.reservation_id == r.id) db.holds))
        (policy_row env p)
      ≡ true
    → IsHeld env db r p
unfolding is_fully_held
is_fully_held-IsHeld env db r p t =
    let hs = sort_holds env (filter (λ h. h.reservation_id == r.id) db.holds) in
    elim (Option-cases (current_hold env hs (policy_row env p))) [
      | inl n ↦ absurd (ground (arith, rw (is_fully_held, n) at t))
      | inr (h, e) ↦
          let (m, current) = find-mem _ hs e in
          let (stored, mine) = filter-mem _ db.holds (sort_holds-mem env _ m) in
          let (same, rest) = and_true (h.budget_policy_id == p.id) _ current in
          let (revision, period) = and_true (eqb h.policy_revision p.revision) _ rest in
          let amount : eqb h.reserved_minor r.amount_minor ≡ true = rw (is_fully_held, e) at t in
          record {
            hold = h;
            stored = stored;
            reservation = eq_of_== _ _ mine;
            policy = eq_of_== _ _ same;
            revision = ground arith;
            period = ground arith;
            amount = ground arith;
          }
    ]

budgets-AreHeld :
    (env : Env) (db : Db) (r : Reservation) (rows : List PolicyRow) (hs : List Hold)
    → rows ≡ sort_rows env (map (policy_row env) (filter (policy_applies env r) db.policies))
    → hs ≡ sort_holds env (filter (λ h. h.reservation_id == r.id) db.holds)
    → any (λ p. not (is_fully_held env r hs p)) rows ≡ false
    → (p : Policy) → Memᴰ p db.policies
    → policy_applies env r p ≡ true
    → IsHeld env db r p
budgets-AreHeld env db r rows hs e f full p m applies =
    let row =
      mem-sort_rows env _ (mem-map (policy_row env) _ (mem-filter _ db.policies m applies)) in
    let listed : Memᴰ (policy_row env p) rows = rw e row in
    let held = any-none _ rows full listed in
    is_fully_held-IsHeld env db r p (un_not (rw f at held))
  where
    un_not : {b : Bool} → not b ≡ false → b ≡ true
    un_not {b} h = ground arith

-- A commit that goes through found, under its organisation and its id, an ACTIVE reservation before
-- its expiry, with the digest, the version, the amount and the hold revision the command names; and
-- each budget that applies to it now held the full amount, under its current revision and period.
pub commit_body-IsFunded :
    (env : Env) (c : CommitCommand) (mutation : Tx (Unit {0})) (db : Db) (a : CommandResult)
    (db' : Db)
    → commit_body env c mutation db ≡ ok (a, db')
    → (r : Reservation) × IsFunded env db c r
unfolding commit_body
commit_body-IsFunded env c mutation db a db' h = >>=-passed _ _ db h λ r db1 locked h1.
    let (row, same1) = lock_reservation-passed env _ _ db locked in
    let (usable, h2) = throw_if-passed _ _ _ _ h1 in
    let (unchanged, h3) = throw_if-passed _ _ _ _ h2 in
    >>=-passed _ _ _ h3 λ policies db2 applicable h4. >>=-passed _ _ _ h4 λ hs db3 holding h5.
      let (full, h6) = throw_if-passed _ _ _ _ h5 in
      let (active, early) = or_false (not (is_active r.status)) _ usable in
      let (stored, named) = find-mem _ db.reservations row in
      let (id, rest) = and_true (r.id == c.base.reservation_id) _ named in
      let (organisation, kept) = and_true (r.organisation_id == c.base.organisation_id) _ rest in
      let (rows, same2) = applicable_policies-passed env r db1 applicable in
      let (held, same3) = holds-passed env r.id db2 holding in
      (
        r,
        record {
          row = stored;
          id = eq_of_== _ _ id;
          organisation = eq_of_== _ _ organisation;
          active = ground arith;
          unexpired = ground arith;
          digest = eq_of_== _ _ (ground arith);
          version = ground arith;
          amount = ground arith;
          hold_revision = ground arith;
          held = budgets-AreHeld env db r policies hs (rw same1 rows) (rw (same1, same2) held) full;
        },
      )
