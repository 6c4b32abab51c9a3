-- ===== src/Spend/Ledger.antt =====
-- modules/b2b/migrations/Migration20261022150000.ts: the trigger b2b_spend_ledger_entry_apply.
-- `month` is the database's calendar: the start and the end, in a time zone, of the month of an
-- instant.
use baobab_trade.Prelude.{
  ℕ, ◌+◌, ◌-◌, ltb, leb, eqb, String, Bool, false, not, ◌&&◌, ◌||◌, ◌==◌, opt_eq, Option, none,
  some, List, ◌∷◌, any, if◌then◌else◌,
}
use baobab_trade.Spend.State.{
  Policy, Scope, PeriodKind, Reservation, Balance, Hold, Entry, EntryKind, reserve, commit, release,
  Db, DbError, database, Result, ok, ◌>>=◌, ◌>>◌, fail_if, or_fail, alter, find_policy,
  find_reservation, is_hold, find_hold, is_active, is_active_policy, put_balance, unknown_row,
  outside_this_budget, no_hold_to_release, release_exceeds_reserved, outside_budget_period,
  reservation_not_active, not_in_effect_at_revision, insufficient_capacity, expired_or_closed,
  budget_changed, commit_exceeds_reserved, check_violation, unique_violation,
}

abbrev pub raise_if : Bool → DbError → Result (Unit {0})
raise_if c e = fail_if c (database e)

-- `<>` on a value that may be null: a null comparison does not raise.
abbrev differs : Option String → String → Bool
differs none k = false
differs (some a) k = not (a == k)

abbrev outside_scope : Scope → Policy → Reservation → Bool
outside_scope Scope.membership p r = differs p.membership_id r.membership_id
outside_scope Scope.agreement p r = not (opt_eq p.agreement_reference r.agreement_reference)
outside_scope Scope.organisation p r = false

-- The reservation and the policy do not describe the same purchase scope.
unfoldable pub is_outside : Policy → Reservation → Bool
is_outside p r =
    not (p.tenant_id == r.tenant_id)
    || not (p.organisation_id == r.organisation_id)
    || not (p.market_key == r.market_key)
    || not (p.currency_code == r.currency_code)
    || outside_scope p.scope p r

abbrev pub balance_or_zero : Option Balance → Balance
balance_or_zero none = record { committed_minor = 0; reserved_minor = 0 }
balance_or_zero (some b) = b

-- `insert … on conflict do nothing`, then `select`: the row of the hold, made if it is missing.
unfoldable pub ensure_hold : Db → String → String → ℕ → ℕ → Hold × List Hold
ensure_hold db reservation policy revision start = elim (find_hold db reservation policy start) [
  | some h ↦ (h, db.holds)
  | none ↦
      let h : Hold = record {
        reservation_id = reservation;
        budget_policy_id = policy;
        policy_revision = revision;
        period_starts_at = start;
        reserved_minor = 0;
        committed_minor = 0;
      } in
      (h, h ∷ db.holds)
]

-- The two updates of one entry: the balance and the hold take the same amounts, and the tables'
-- checks refuse a negative balance.
unfoldable pub settle : Db → List Hold → Entry → ℕ → (Hold → Hold) → Balance → Db
settle db holds e start f b' = record db {
  balances = put_balance db.balances e.budget_policy_id start b';
  holds = alter (is_hold e.reservation_id e.budget_policy_id start) f holds;
}

abbrev pub add_reserved : ℕ → Hold → Hold
add_reserved n h = record h { reserved_minor = h.reserved_minor + n }

abbrev pub drop_reserved : ℕ → Hold → Hold
drop_reserved n h = record h { reserved_minor = h.reserved_minor - n }

abbrev pub commit_reserved : ℕ → Hold → Hold
commit_reserved n h = record h {
  reserved_minor = h.reserved_minor - n;
  committed_minor = h.committed_minor + n;
}

abbrev pub refresh : ℕ → Hold → Hold
refresh revision h =
    if eqb h.reserved_minor 0 && (eqb h.committed_minor 0 && not (eqb h.policy_revision revision))
    then record h { policy_revision = revision }
    else h

abbrev pub ended : ℕ → Option ℕ → Bool
ended now none = false
ended now (some until) = leb until now

unfoldable pub not_in_effect : ℕ → Policy → Entry → Hold → Bool
not_in_effect now p e h =
    not (is_active_policy p.status)
    || ltb now p.effective_from
    || ended now p.effective_until
    || not (eqb e.policy_revision p.revision)
    || not (eqb h.policy_revision p.revision)

-- RESERVE: the only entry that takes capacity.
unfoldable pub apply_reserve :
    ℕ → Db → Entry → Policy → Reservation → ℕ → Balance → Hold → List Hold → Result Db
apply_reserve now db e p r start b h holds = do
  raise_if (not (is_active r.status) || leb r.expires_at now) reservation_not_active
  raise_if (not_in_effect now p e (refresh p.revision h)) not_in_effect_at_revision
  raise_if (ltb p.limit_minor (e.amount_minor + b.committed_minor + b.reserved_minor))
      insufficient_capacity
  ok (
      settle db holds e start (λ x. add_reserved e.amount_minor (refresh p.revision x))
        (record b { reserved_minor = b.reserved_minor + e.amount_minor }))

-- COMMIT: reserved becomes committed.
unfoldable pub apply_commit :
    ℕ → Db → Entry → Policy → Reservation → ℕ → Balance → Hold → List Hold → Result Db
apply_commit now db e p r start b h holds = do
  raise_if (not (is_active r.status) || leb r.expires_at now) expired_or_closed
  raise_if
      (not (is_active_policy p.status)
        || not (eqb e.policy_revision p.revision)
        || not (eqb h.policy_revision p.revision))
      budget_changed
  raise_if (ltb h.reserved_minor e.amount_minor) commit_exceeds_reserved
  raise_if (ltb b.reserved_minor e.amount_minor) check_violation
  ok (
      settle db holds e start (commit_reserved e.amount_minor) (record b {
        reserved_minor = b.reserved_minor - e.amount_minor;
        committed_minor = b.committed_minor + e.amount_minor;
      }))

-- RELEASE: reserved capacity is returned.
unfoldable pub apply_release : Db → Entry → ℕ → Balance → Hold → List Hold → Result Db
apply_release db e start b h holds = do
  raise_if (ltb h.reserved_minor e.amount_minor) release_exceeds_reserved
  raise_if (ltb b.reserved_minor e.amount_minor) check_violation
  ok (
      settle db holds e start (drop_reserved e.amount_minor)
        (record b { reserved_minor = b.reserved_minor - e.amount_minor }))

module _ (month : String → ℕ → ℕ × ℕ) where
  -- The period of an entry, from the database's clock; an agreement's term needs its end.
  unfoldable pub period_of : ℕ → Policy → PeriodKind → Result (ℕ × ℕ)
  period_of now p PeriodKind.calendar_month = ok (month p.timezone now)
  period_of now p PeriodKind.agreement_term = do
    end ← or_fail p.effective_until (database check_violation)
    ok (p.effective_from, end)

  unfoldable pub apply_kind :
      ℕ → Db → Entry → Policy → Reservation → ℕ → Balance → Hold × List Hold → EntryKind → Result Db
  apply_kind now db e p r start b (h, holds) reserve = apply_reserve now db e p r start b h holds
  apply_kind now db e p r start b (h, holds) (commit reference) =
      apply_commit now db e p r start b h holds
  apply_kind now db e p r start b (h, holds) (release reason at) =
      apply_release db e start b h holds

  -- An entry of the current period.
  unfoldable pub apply_current : ℕ → Db → Entry → Policy → Reservation → Result Db
  apply_current now db e p r = do
    period ← period_of now p p.period_kind
    raise_if (ltb now period.0 || leb period.1 now) outside_budget_period
    apply_kind now db e p r period.0 (balance_or_zero (db.balances e.budget_policy_id period.0))
        (ensure_hold db e.reservation_id e.budget_policy_id p.revision period.0) e.kind

  -- A RELEASE of an earlier hold, by its period.
  unfoldable pub apply_earlier : Db → Entry → ℕ → Result Db
  apply_earlier db e start = do
    h ←
        or_fail (find_hold db e.reservation_id e.budget_policy_id start)
          (database no_hold_to_release)
    b ← or_fail (db.balances e.budget_policy_id start) (database no_hold_to_release)
    apply_release db e start b h db.holds

  unfoldable pub dispatch : ℕ → Db → Entry → Policy → Reservation → EntryKind → Result Db
  dispatch now db e p r (release reason (some start)) = apply_earlier db e start
  dispatch now db e p r (release reason none) = apply_current now db e p r
  dispatch now db e p r reserve = apply_current now db e p r
  dispatch now db e p r (commit reference) = apply_current now db e p r

  -- The trigger, then the checks of the inserted row.
  unfoldable pub insert_entry : ℕ → Db → Entry → Result Db
  insert_entry now db e = do
    p ← or_fail (find_policy db e.budget_policy_id) (database unknown_row)
    r ← or_fail (find_reservation db e.reservation_id) (database unknown_row)
    raise_if (is_outside p r) outside_this_budget
    db' ← dispatch now db e p r e.kind
    raise_if (eqb e.amount_minor 0) check_violation
    raise_if (any (λ x. x.idempotency_key == e.idempotency_key) db.entries) unique_violation
    ok (record db' { entries = e ∷ db.entries })
