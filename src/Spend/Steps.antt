-- ===== src/Spend/Steps.antt =====
-- baobab/b2b/spend-reservation-commands.ts: the commands, the entries they write in the order of the
-- budgets, and the new reservation. A `bigint` amount is a number: a negative one is refused before
-- it gets here, as 0 is.
use Prim.Native.Nat.{Ordering}
use Prim.Native.String.{compare}
use baobab_trade.Prelude.{
  ℕ, leb, eqb, String, Bool, false, not, ◌&&◌, ◌||◌, ◌==◌, Option, some, List, [], ◌∷◌, any, filter,
  if◌then◌else◌,
}
use baobab_trade.Spend.State.{
  Reservation, ReservationStatus, Hold, reserve, release, ReleaseReason, Member, ok, refused,
  conflict, database, is_active, check_violation, buyer_not_authorised,
}
use baobab_trade.Spend.Tx.{
  Tx, ◌>>◌, return, throw_if, Env, PolicyRow, Caller, write_entry, lock_reservation, started,
  not_ended,
}

pub record SubmitCommand : Type 0 where
  pub idempotency_key : String
  pub purchase_reference : String
  pub tenant_id : String
  pub organisation_id : String
  pub membership_id : String
  pub actor_principal_id : String
  pub market_key : String
  pub currency_code : String
  pub agreement_reference : Option String
  pub transaction_digest : String
  pub resource_version : ℕ
  pub amount_minor : ℕ
  pub expires_at : ℕ

pub record ReservationCommand : Type 0 where
  pub idempotency_key : String
  pub organisation_id : String
  pub reservation_id : String
  pub actor_principal_id : String

pub record CommitCommand : Type 0 where
  pub base : ReservationCommand
  pub hold_revision : ℕ
  pub transaction_digest : String
  pub resource_version : ℕ
  pub amount_minor : ℕ
  pub commitment_reference : String

-- One release and one reservation that inPolicyOrder writes.
pub record ReleaseStep : Type 0 where
  pub reservation_id : String
  pub hold : Hold
  pub reason : ReleaseReason

pub record ReserveStep : Type 0 where
  pub reservation_id : String
  pub policy : PolicyRow
  pub amount : ℕ

abbrev pub submit_caller : SubmitCommand → Caller
submit_caller c = record {
  idempotency_key = c.idempotency_key;
  actor_principal_id = c.actor_principal_id;
}

abbrev pub caller : ReservationCommand → Caller
caller c = record { idempotency_key = c.idempotency_key; actor_principal_id = c.actor_principal_id }

-- `[...new Set(ids)].sort(byPolicy)`.
abbrev pub insert_id : String → List String → List String
insert_id a [] = a ∷ []
insert_id a (b ∷ bs) =
    let rest = insert_id a bs in
    elim (compare a b) [ Ordering.lt ↦ a ∷ b ∷ bs | Ordering.eq ↦ b ∷ bs | Ordering.gt ↦ b ∷ rest ]

unfoldable pub policy_order : List ReleaseStep → List ReserveStep → List String
policy_order [] [] = []
policy_order [] (r ∷ rs) = insert_id r.policy.id (policy_order [] rs)
policy_order (r ∷ rs) qs = insert_id r.hold.budget_policy_id (policy_order rs qs)

-- `for (const x of xs) await f(x)`.
unfoldable pub each : {A : Type 0} → (A → Tx (Unit {0})) → List A → Tx (Unit {0})
each f [] = return tt
each f (x ∷ xs) = f x >> each f xs

module _ (env : Env) where
  unfoldable pub reserve_entry : Caller → String → ReserveStep → Tx (Unit {0})
  reserve_entry c step r = write_entry env (record {
    kind = reserve;
    reservation_id = r.reservation_id;
    budget_policy_id = r.policy.id;
    policy_revision = r.policy.revision;
    amount_minor = r.amount;
    idempotency_key = env.entry_key "RESERVE" c.idempotency_key r.policy.id step;
    actor_principal_id = c.actor_principal_id;
  })

  unfoldable pub release_hold : Caller → ReleaseStep → Tx (Unit {0})
  release_hold c r =
      if eqb r.hold.reserved_minor 0
      then return tt
      else write_entry env (record {
        kind = release r.reason (some r.hold.period_starts_at);
        reservation_id = r.reservation_id;
        budget_policy_id = r.hold.budget_policy_id;
        policy_revision = r.hold.policy_revision;
        amount_minor = r.hold.reserved_minor;
        idempotency_key =
            env.entry_key "RELEASE" c.idempotency_key r.hold.budget_policy_id
              (env.release_key r.reservation_id r.hold.period_starts_at);
        actor_principal_id = c.actor_principal_id;
      })

  -- Releases first within a budget, the budgets in one global order.
  unfoldable pub each_budget :
      Caller → String → List ReleaseStep → List ReserveStep → List String → Tx (Unit {0})
  each_budget c step releases reserves [] = return tt
  each_budget c step releases reserves (id ∷ ids) =
      each (release_hold c) (filter (λ r. r.hold.budget_policy_id == id) releases)
      >> each (reserve_entry c step) (filter (λ r. r.policy.id == id) reserves)
      >> each_budget c step releases reserves ids

  unfoldable pub in_policy_order :
      Caller → String → List ReleaseStep → List ReserveStep → Tx (Unit {0})
  in_policy_order c step releases reserves =
      each_budget c step releases reserves (policy_order releases reserves)

  abbrev pub is_member : SubmitCommand → Member → Bool
  is_member c m =
      m.id == c.membership_id
      && (m.organisation_id == c.organisation_id
          && (m.tenant_id == c.tenant_id
              && (m.active
                  && (not m.deleted
                      && (started env.now m.effective_from
                          && not_ended env.now m.effective_until)))))

  abbrev pub new_reservation : SubmitCommand → Option String → Reservation
  new_reservation c supersedes = record {
    id = env.reservation_id_for c.organisation_id c.idempotency_key;
    tenant_id = c.tenant_id;
    organisation_id = c.organisation_id;
    membership_id = c.membership_id;
    submitted_by_principal_id = c.actor_principal_id;
    market_key = c.market_key;
    currency_code = c.currency_code;
    agreement_reference = c.agreement_reference;
    transaction_digest = c.transaction_digest;
    resource_version = c.resource_version;
    amount_minor = c.amount_minor;
    purchase_reference = c.purchase_reference;
    supersedes = supersedes;
    status = ReservationStatus.active;
    expires_at = c.expires_at;
    hold_revision = 1;
    deleted = false;
  }

  -- The unique indexes: the primary key, one ACTIVE reservation for a purchase, and one for a
  -- version of a transaction.
  abbrev pub clashes : Reservation → Reservation → Bool
  clashes n r =
      r.id == n.id
      || (is_active r.status
          && not r.deleted
          && (r.organisation_id == n.organisation_id && r.purchase_reference == n.purchase_reference
              || r.membership_id == n.membership_id
                && (r.transaction_digest == n.transaction_digest
                    && eqb r.resource_version n.resource_version)))

  unfoldable pub add_reservation : Reservation → Tx (Unit {0})
  add_reservation n db = ok (tt, record db { reservations = n ∷ db.reservations })

  -- The checks of the row come before its unique indexes.
  unfoldable pub insert_reservation : SubmitCommand → Option String → Tx Reservation
  insert_reservation c supersedes db =
      let n = new_reservation c supersedes in
      (do
        throw_if (not (any (is_member c) db.members)) (refused buyer_not_authorised false)
        throw_if (leb n.expires_at env.now) (database check_violation)
        throw_if (any (clashes n) db.reservations) conflict
        add_reservation n
        lock_reservation env c.organisation_id n.id)
        db
