-- ===== src/Spend/Keeps.antt =====
-- What the commands keep, given what their writes keep.
use baobab_trade.Prelude.{
  subst, ◌≡◌, refl, String, Bool, true, false, any, Option, none, some, List, [], ◌∷◌, inl, inr,
  Bool-cases, arith, eqb,
}
use baobab_trade.Spend.State.{
  Db, Reservation, ReservationStatus, ReleaseReason, Entry, CommandRow, Result, ok, fail, Failure,
}
use baobab_trade.Spend.Tx.{
  Tx, continue, with_state, ◌>>=◌, ◌>>◌, return, throw_if, Env, Caller, write_entry,
  lock_reservation, applicable_policies, holds, set_status, advance_hold_revision,
}
use baobab_trade.Spend.Steps.{
  SubmitCommand, ReservationCommand, CommitCommand, ReleaseStep, ReserveStep, each, reserve_entry,
  release_hold, each_budget, in_policy_order, add_reservation, insert_reservation, clashes,
}
use baobab_trade.Spend.Commands.{
  submit_body, resubmit_body, commit_body, commit_entry, close_body, rollover_body, advance_if,
}
use baobab_trade.Spend.Run.{find_command}

-- Where the step succeeds, the property still holds.
abbrev pub Keeps {ℓ} : (Db → Type ℓ) → {A : Type 0} → Tx A → Type ℓ
Keeps P {A} m = (db : Db) (a : A) (db' : Db) → P db → m db ≡ ok (a, db') → P db'

pub continue-ok :
    {A B : Type 0} (f : A → Tx B) (r : Result (A × Db)) {x : B × Db}
    → continue f r ≡ ok x
    → (a : A) × (db : Db) × (r ≡ ok (a, db)) × (f a db ≡ ok x)
unfolding continue
continue-ok f (ok (a, db)) h = (a, db, refl, h)
continue-ok f (fail e) h = absurd (ground arith)

pub throw_if-passed :
    {B : Type 0} (c : Bool) (e : Failure) (m : Tx B) (db : Db) {x : B × Db}
    → (throw_if c e >> m) db ≡ ok x
    → (c ≡ false) × (m db ≡ ok x)
unfolding throw_if ◌>>◌ ◌>>=◌ continue
throw_if-passed true e m db h = absurd (ground arith)
throw_if-passed false e m db h = (refl, h)

pub add_reservation-added :
    (env : Env) (n : Reservation) {B : Type 0} (m : Tx B) (db : Db)
    → (add_reservation env n >> m) db ≡ m (record db { reservations = n ∷ db.reservations })
unfolding add_reservation ◌>>◌ ◌>>=◌ continue
add_reservation-added env n m db = refl

pub same_state :
    {A : Type 0} {a b : A} {db db' : Db}
    → ◌≡◌ {A = Result (A × Db)} (ok (a, db)) (ok (b, db'))
    → db ≡ db'
same_state h = cc

module _ {ℓ} (P : Db → Type ℓ) where
  pub >>=-Keeps :
      {A B : Type 0} (m : Tx A) (f : A → Tx B)
      → Keeps P m
      → ((a : A) → Keeps P (f a))
      → Keeps P (m >>= f)
  unfolding ◌>>=◌
  >>=-Keeps m f p q db b db' h k =
      let (a, db1, e, rest) = continue-ok f (m db) k in q a db1 b db' (p db a db1 h e) rest

  pub >>-Keeps :
      {B : Type 0} (m : Tx (Unit {0})) (f : Tx B) → Keeps P m → Keeps P f → Keeps P (m >> f)
  unfolding ◌>>◌
  >>-Keeps m f p q = >>=-Keeps m (λ _. f) p (λ _. q)

  pub return-Keeps : {A : Type 0} (a : A) → Keeps P (return a)
  unfolding return
  return-Keeps a db b db' h k = subst P (same_state k) h

  pub throw_if-Keeps : (c : Bool) (e : Failure) → Keeps P (throw_if c e)
  unfolding throw_if
  throw_if-Keeps true e db a db' h k = absurd (ground arith)
  throw_if-Keeps false e db a db' h k = subst P (same_state k) h

  with_state-Keeps :
      {A : Type 0} (o : Option A) (e : Failure) (db : Db) (a : A) (db' : Db)
      → P db
      → with_state o e db ≡ ok (a, db')
      → P db'
  unfolding with_state
  with_state-Keeps none e db a db' h k = absurd (ground arith)
  with_state-Keeps (some b) e db a db' h k = subst P (same_state k) h

  pub lock_reservation-Keeps :
      (env : Env) (organisation id : String) → Keeps P (lock_reservation env organisation id)
  unfolding lock_reservation
  lock_reservation-Keeps env organisation id db a db' h k = with_state-Keeps _ _ db a db' h k

  pub holds-Keeps : (env : Env) (id : String) → Keeps P (holds env id)
  unfolding holds
  holds-Keeps env id db a db' h k = subst P (same_state k) h

  pub applicable_policies-Keeps :
      (env : Env) (r : Reservation) → Keeps P (applicable_policies env r)
  unfolding applicable_policies
  applicable_policies-Keeps env r db a db' h k =
      >>-Keeps _ _ (throw_if-Keeps _ _) (>>-Keeps _ _ (throw_if-Keeps _ _) (return-Keeps _)) db a
        db' h k

  pub each-Keeps :
      {A : Type 0} (f : A → Tx (Unit {0}))
      → ((a : A) → Keeps P (f a))
      → (xs : List A) → Keeps P (each f xs)
  unfolding each
  each-Keeps f q [] = return-Keeps tt
  each-Keeps f q (x ∷ xs) = >>-Keeps _ _ (q x) (each-Keeps f q xs)

-- What holds of the tables through every write of the commands holds through every command.
pub record Writes {ℓ} (env : Env) (P : Db → Type ℓ) : Type ℓ where
  pub entry : (e : Entry) → Keeps P (write_entry env e)
  pub status : (id : String) (s : ReservationStatus) → Keeps P (set_status env id s)
  pub revision : (id : String) → Keeps P (advance_hold_revision env id)
  pub reservation :
      (n : Reservation) (db : Db)
      → P db
      → any (clashes env n) db.reservations ≡ false
      → P (record db { reservations = n ∷ db.reservations })
  pub command :
      (row : CommandRow) (db : Db)
      → P db
      → find_command db row.idempotency_key ≡ none
      → P (record db { commands = row ∷ db.commands })

module _ {ℓ} (env : Env) (P : Db → Type ℓ) (w : Writes env P) where
  release_hold-Keeps : (c : Caller) (r : ReleaseStep) → Keeps P (release_hold env c r)
  unfolding release_hold
  release_hold-Keeps c r db a db' h k = elim (Bool-cases (eqb r.hold.reserved_minor 0)) [
    | inl t ↦ return-Keeps P tt db a db' h (rw t at k)
    | inr n ↦ w.entry _ db a db' h (rw n at k)
  ]

  reserve_entry-Keeps :
      (c : Caller) (step : String) (r : ReserveStep) → Keeps P (reserve_entry env c step r)
  unfolding reserve_entry
  reserve_entry-Keeps c step r = w.entry _

  each_budget-Keeps :
      (c : Caller) (step : String) (releases : List ReleaseStep) (reserves : List ReserveStep)
      (ids : List String)
      → Keeps P (each_budget env c step releases reserves ids)
  unfolding each_budget
  each_budget-Keeps c step releases reserves [] = return-Keeps P tt
  each_budget-Keeps c step releases reserves (id ∷ ids) =
      >>-Keeps P _ _
        (>>-Keeps P _ _ (each-Keeps P _ (release_hold-Keeps c) _)
          (each-Keeps P _ (reserve_entry-Keeps c step) _))
        (each_budget-Keeps c step releases reserves ids)

  in_policy_order-Keeps :
      (c : Caller) (step : String) (releases : List ReleaseStep) (reserves : List ReserveStep)
      → Keeps P (in_policy_order env c step releases reserves)
  unfolding in_policy_order
  in_policy_order-Keeps c step releases reserves = each_budget-Keeps c step releases reserves _

  -- The unique indexes are checked before the row is added.
  insert_reservation-Keeps :
      (c : SubmitCommand) (supersedes : Option String)
      → Keeps P (insert_reservation env c supersedes)
  unfolding insert_reservation
  insert_reservation-Keeps c supersedes db a db' h k =
      let (member, k1) = throw_if-passed _ _ _ db k in
      let (later, k2) = throw_if-passed _ _ _ db k1 in
      let (fresh, k3) = throw_if-passed _ _ _ db k2 in
      lock_reservation-Keeps P env _ _ _ a db' (w.reservation _ db h fresh)
        (rw add_reservation-added at k3)

  pub submit_body-Keeps : (c : SubmitCommand) → Keeps P (submit_body env c)
  unfolding submit_body
  submit_body-Keeps c = >>=-Keeps P _ _ (insert_reservation-Keeps c none) λ r.
      >>=-Keeps P _ _ (applicable_policies-Keeps P env r)
        λ policies. >>-Keeps P _ _ (in_policy_order-Keeps _ _ _ _) (return-Keeps P _)

  pub resubmit_body-Keeps : (c : SubmitCommand) (id : String) → Keeps P (resubmit_body env c id)
  unfolding resubmit_body
  resubmit_body-Keeps c id = >>=-Keeps P _ _ (lock_reservation-Keeps P env _ _) λ old.
      >>-Keeps P _ _ (throw_if-Keeps P _ _) (
        >>-Keeps P _ _ (throw_if-Keeps P _ _) (
          >>-Keeps P _ _ (throw_if-Keeps P _ _) (
            >>=-Keeps P _ _ (holds-Keeps P env _) λ hs. >>-Keeps P _ _ (w.status _ _) (
              >>=-Keeps P _ _ (insert_reservation-Keeps c _) λ r.
                >>=-Keeps P _ _ (applicable_policies-Keeps P env r)
                  λ policies. >>-Keeps P _ _ (in_policy_order-Keeps _ _ _ _) (return-Keeps P _)))))

  pub commit_body-Keeps :
      (c : CommitCommand) (mutation : Tx (Unit {0}))
      → Keeps P mutation
      → Keeps P (commit_body env c mutation)
  unfolding commit_body commit_entry
  commit_body-Keeps c mutation m = >>=-Keeps P _ _ (lock_reservation-Keeps P env _ _) λ r.
      >>-Keeps P _ _ (throw_if-Keeps P _ _) (
        >>-Keeps P _ _ (throw_if-Keeps P _ _) (
          >>=-Keeps P _ _ (applicable_policies-Keeps P env r) λ policies.
            >>=-Keeps P _ _ (holds-Keeps P env _) λ hs. >>-Keeps P _ _ (throw_if-Keeps P _ _) (
              >>-Keeps P _ _ (throw_if-Keeps P _ _) (
                >>-Keeps P _ _ (each-Keeps P _ (λ p. w.entry _) policies)
                  (>>-Keeps P _ _ (w.status _ _) (>>-Keeps P _ _ m (return-Keeps P _)))))))

  pub close_body-Keeps :
      (c : ReservationCommand) (reason : ReleaseReason) (s : ReservationStatus) (b : Bool)
      → Keeps P (close_body env c reason s b)
  unfolding close_body
  close_body-Keeps c reason s b = >>=-Keeps P _ _ (lock_reservation-Keeps P env _ _) λ r.
      >>-Keeps P _ _ (throw_if-Keeps P _ _) (
        >>-Keeps P _ _ (throw_if-Keeps P _ _) (
          >>=-Keeps P _ _ (holds-Keeps P env _) λ hs.
            >>-Keeps P _ _ (in_policy_order-Keeps _ _ _ _)
              (>>-Keeps P _ _ (w.status _ _) (return-Keeps P _))))

  advance_if-Keeps : (b : Bool) (id : String) → Keeps P (advance_if env b id)
  advance_if-Keeps true id = w.revision id
  advance_if-Keeps false id = return-Keeps P tt

  pub rollover_body-Keeps : (c : ReservationCommand) → Keeps P (rollover_body env c)
  unfolding rollover_body
  rollover_body-Keeps c = >>=-Keeps P _ _ (lock_reservation-Keeps P env _ _) λ r.
      >>-Keeps P _ _ (throw_if-Keeps P _ _) (
        >>=-Keeps P _ _ (applicable_policies-Keeps P env r) λ policies.
          >>=-Keeps P _ _ (holds-Keeps P env _) λ hs.
            >>-Keeps P _ _ (in_policy_order-Keeps _ _ _ _)
              (>>-Keeps P _ _ (advance_if-Keeps _ _) (return-Keeps P _)))
