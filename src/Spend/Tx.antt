-- ===== src/Spend/Tx.antt =====
-- One database transaction of baobab/b2b/spend-reservation-commands.ts: a state of the tables that
-- a failure leaves behind.
use baobab_trade.Prelude.{
  ℕ, ◌+◌, leb, ltb, eqb, String, Bool, true, false, not, ◌&&◌, ◌||◌, ◌==◌, is_key, Option, none,
  some, List, [], ◌∷◌, find, filter, map, length, if◌then◌else◌,
}
use Prim.Native.Nat.{Ordering}
use Prim.Native.String.{compare}
use baobab_trade.Spend.State.{
  Db, Policy, Scope, PeriodKind, Reservation, ReservationStatus, Hold, Entry, Result, ok, fail,
  Failure, refused, database, is_active, is_active_policy, alter, terminal, buyer_not_authorised,
  spend_policy_not_configured, context_not_usable,
}
use baobab_trade.Spend.Ledger.{insert_entry}

abbrev pub Tx : Type 0 → Type 0
Tx A = Db → Result (A × Db)

-- What follows a step that succeeded.
unfoldable pub continue : {A B : Type 0} → (A → Tx B) → Result (A × Db) → Result (B × Db)
continue f (ok (a, db)) = f a db
continue f (fail e) = fail e

infixl 5 ◌>>=◌ ◌>>◌
unfoldable pub ◌>>=◌ : {A B : Type 0} → Tx A → (A → Tx B) → Tx B
◌>>=◌ m f db = continue f (m db)

unfoldable pub ◌>>◌ : {B : Type 0} → Tx (Unit {0}) → Tx B → Tx B
unfolding ◌>>=◌
m >> k = m >>= λ _. k

unfoldable pub return : {A : Type 0} → A → Tx A
return a db = ok (a, db)

unfoldable pub throw_if : Bool → Failure → Tx (Unit {0})
throw_if true e db = fail e
throw_if false e db = ok (tt, db)

unfoldable pub throw : {A : Type 0} → Failure → Tx A
throw e db = fail e

-- What the commands take from outside: the database's calendar, the digests of `node:crypto` (a
-- reservation's id, an entry's idempotency key) and the two clocks.
pub record Env : Type 0 where
  pub month : String → ℕ → ℕ × ℕ
  pub reservation_id_for : String → String → String
  pub entry_key : String → String → String → String → String
  pub release_key : String → ℕ → String
  pub now : ℕ
  pub app_now : ℕ

-- PolicyRow: a budget that applies, with the start of its current period.
pub record PolicyRow : Type 0 where
  pub id : String
  pub revision : ℕ
  pub scope : Scope
  pub period_starts_at : ℕ

abbrev pub started : ℕ → Option ℕ → Bool
started now none = true
started now (some from) = leb from now

abbrev pub not_ended : ℕ → Option ℕ → Bool
not_ended now none = true
not_ended now (some until) = ltb now until

-- The commands' identity: whose key and actor an entry carries.
pub record Caller : Type 0 where
  pub idempotency_key : String
  pub actor_principal_id : String

unfoldable pub with_unit : Result Db → Result (Unit {0} × Db)
with_unit (ok db) = ok (tt, db)
with_unit (fail e) = fail e

unfoldable pub with_state {ℓ} : {A : Type ℓ} → Option A → Failure → Db → Result (A × Db)
with_state none e db = fail e
with_state (some a) e db = ok (a, db)

module _ (env : Env) where
  unfoldable pub write_entry : Entry → Tx (Unit {0})
  write_entry e db = with_unit (insert_entry env.month env.now db e)

  abbrev pub reservation_is : String → String → Reservation → Bool
  reservation_is organisation id r =
      r.id == id && (r.organisation_id == organisation && not r.deleted)

  -- lockReservation: a foreign or unknown one is never disclosed.
  unfoldable pub lock_reservation : String → String → Tx Reservation
  lock_reservation organisation id db =
      with_state (find (reservation_is organisation id) db.reservations)
        (refused buyer_not_authorised false) db

  abbrev pub is_expired : Reservation → Bool
  is_expired r = leb r.expires_at env.now

  abbrev scope_applies : Reservation → Policy → Scope → Bool
  scope_applies r p Scope.membership = is_key p.membership_id r.membership_id
  scope_applies r p Scope.organisation = true
  scope_applies r p Scope.agreement = elim r.agreement_reference [
    | none ↦ false
    | some a ↦ is_key p.agreement_reference a
  ]

  unfoldable pub policy_applies : Reservation → Policy → Bool
  policy_applies r p =
      p.tenant_id == r.tenant_id
      && (p.organisation_id == r.organisation_id
          && (p.market_key == r.market_key
              && (p.currency_code == r.currency_code
                  && (is_active_policy p.status
                      && (not p.deleted
                          && (leb p.effective_from env.now
                              && (not_ended env.now p.effective_until
                                  && scope_applies r p p.scope)))))))

  abbrev pub period_start : Policy → PeriodKind → ℕ
  period_start p PeriodKind.calendar_month = (env.month p.timezone env.now).0
  period_start p PeriodKind.agreement_term = p.effective_from

  abbrev pub policy_row : Policy → PolicyRow
  policy_row p = record {
    id = p.id;
    revision = p.revision;
    scope = p.scope;
    period_starts_at = period_start p p.period_kind;
  }

  abbrev pub is_before : String → String → Bool
  is_before a b = elim (compare a b) [ Ordering.lt ↦ true | _ ↦ false ]

  abbrev pub insert_row : PolicyRow → List PolicyRow → List PolicyRow
  insert_row p [] = p ∷ []
  insert_row p (q ∷ qs) =
      let rest = insert_row p qs in if is_before q.id p.id then q ∷ rest else p ∷ q ∷ qs

  abbrev pub sort_rows : List PolicyRow → List PolicyRow
  sort_rows [] = []
  sort_rows (p ∷ ps) = insert_row p (sort_rows ps)

  abbrev in_scope : Scope → Scope → Bool
  in_scope Scope.membership Scope.membership = true
  in_scope Scope.organisation Scope.organisation = true
  in_scope Scope.agreement Scope.agreement = true
  in_scope _ _ = false

  abbrev pub count_scope : Scope → List PolicyRow → ℕ
  count_scope s ps = length (filter (λ p. in_scope s p.scope) ps)

  -- The budgets that apply now, by id; exactly one MEMBERSHIP budget among them.
  unfoldable pub applicable_policies : Reservation → Tx (List PolicyRow)
  applicable_policies r db =
      let policies = sort_rows (map policy_row (filter (policy_applies r) db.policies)) in
      let members = count_scope Scope.membership policies in
      (do
        throw_if (eqb members 0) (refused spend_policy_not_configured false)
        throw_if
            (ltb 1 members
              || ltb 1 (count_scope Scope.organisation policies)
              || ltb 1 (count_scope Scope.agreement policies))
            (refused context_not_usable false)
        return policies)
        db

  abbrev pub hold_before : Hold → Hold → Bool
  hold_before a b =
      is_before a.budget_policy_id b.budget_policy_id
      || (a.budget_policy_id == b.budget_policy_id && ltb a.period_starts_at b.period_starts_at)

  abbrev pub insert_hold : Hold → List Hold → List Hold
  insert_hold h [] = h ∷ []
  insert_hold h (k ∷ ks) =
      let rest = insert_hold h ks in if hold_before k h then k ∷ rest else h ∷ k ∷ ks

  abbrev pub sort_holds : List Hold → List Hold
  sort_holds [] = []
  sort_holds (h ∷ hs) = insert_hold h (sort_holds hs)

  -- The holds of a reservation, by budget and period.
  unfoldable pub holds : String → Tx (List Hold)
  holds id db = ok (sort_holds (filter (λ h. h.reservation_id == id) db.holds), db)

  abbrev pub is_current : PolicyRow → Hold → Bool
  is_current p h =
      h.budget_policy_id == p.id
      && (eqb h.policy_revision p.revision && eqb h.period_starts_at p.period_starts_at)

  abbrev pub current_hold : List Hold → PolicyRow → Option Hold
  current_hold hs p = find (is_current p) hs

  -- An update of one row, past the guard of the table: a closed reservation is terminal.
  unfoldable pub update_row :
      Option Reservation → String → (Reservation → Reservation) → Tx (Unit {0})
  update_row none id f db = ok (tt, db)
  update_row (some r) id f db =
      if is_active r.status
      then ok (tt, record db { reservations = alter (λ x. x.id == id) f db.reservations })
      else fail (database terminal)

  -- `update … set "status"`.
  unfoldable pub set_status : String → ReservationStatus → Tx (Unit {0})
  set_status id s db =
      update_row (find (λ r. r.id == id) db.reservations) id (λ x. record x { status = s }) db

  -- `update … set "hold_revision" = "hold_revision" + 1`.
  unfoldable pub advance_hold_revision : String → Tx (Unit {0})
  advance_hold_revision id db =
      update_row (find (λ r. r.id == id) db.reservations) id
        (λ x. record x { hold_revision = x.hold_revision + 1 }) db
