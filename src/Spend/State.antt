-- ===== src/Spend/State.antt =====
-- The tables of the spend ledger, modules/b2b/migrations/Migration20261022150000.ts and
-- Migration20261022180000.ts, with the result types of baobab/b2b/spend-reservation-commands.ts.
-- An instant is a number of milliseconds; an amount is a number, as the tables' checks demand.
use baobab_trade.Prelude.{
  ℕ, eqb, String, Bool, true, false, ◌&&◌, ◌==◌, Option, none, some, List, [], ◌∷◌, find,
  if◌then◌else◌,
}

pub data PolicyStatus : Type 0 where
  active suspended retired : PolicyStatus

pub data Scope : Type 0 where
  membership agreement organisation : Scope

pub data PeriodKind : Type 0 where
  calendar_month agreement_term : PeriodKind

-- A row of b2b_spend_budget_policy.
pub record Policy : Type 0 where
  pub id : String
  pub revision : ℕ
  pub status : PolicyStatus
  pub scope : Scope
  pub tenant_id : String
  pub organisation_id : String
  pub membership_id : Option String
  pub agreement_reference : Option String
  pub market_key : String
  pub currency_code : String
  pub period_kind : PeriodKind
  pub timezone : String
  pub limit_minor : ℕ
  pub effective_from : ℕ
  pub effective_until : Option ℕ
  pub deleted : Bool

pub data ReservationStatus : Type 0 where
  active committed released expired : ReservationStatus

-- A row of b2b_spend_reservation.
pub record Reservation : Type 0 where
  pub id : String
  pub tenant_id : String
  pub organisation_id : String
  pub membership_id : String
  pub submitted_by_principal_id : String
  pub market_key : String
  pub currency_code : String
  pub agreement_reference : Option String
  pub transaction_digest : String
  pub resource_version : ℕ
  pub amount_minor : ℕ
  pub purchase_reference : String
  pub supersedes : Option String
  pub status : ReservationStatus
  pub expires_at : ℕ
  pub hold_revision : ℕ
  pub deleted : Bool

-- A row of b2b_spend_budget_balance, under its policy and the start of its period.
pub record Balance : Type 0 where
  pub committed_minor : ℕ
  pub reserved_minor : ℕ

-- A row of b2b_spend_reservation_hold.
pub record Hold : Type 0 where
  pub reservation_id : String
  pub budget_policy_id : String
  pub policy_revision : ℕ
  pub period_starts_at : ℕ
  pub reserved_minor : ℕ
  pub committed_minor : ℕ

pub data ReleaseReason : Type 0 where
  rejected cancelled expired amount_reduced period_rollover policy_revised : ReleaseReason

-- What an entry does; a RELEASE may name the period of an earlier hold.
pub data EntryKind : Type 0 where
  reserve : EntryKind
  commit : String → EntryKind
  release : ReleaseReason → Option ℕ → EntryKind

-- A row of b2b_spend_ledger_entry, as it is inserted.
pub record Entry : Type 0 where
  pub kind : EntryKind
  pub reservation_id : String
  pub budget_policy_id : String
  pub policy_revision : ℕ
  pub amount_minor : ℕ
  pub idempotency_key : String
  pub actor_principal_id : String

-- A membership joined with its Organisation's tenant.
pub record Member : Type 0 where
  pub id : String
  pub organisation_id : String
  pub tenant_id : String
  pub active : Bool
  pub effective_from : Option ℕ
  pub effective_until : Option ℕ
  pub deleted : Bool

pub data CommandKind : Type 0 where
  submits resubmits commits releases expires rollovers : CommandKind

-- What a command returns, and the record keeps.
pub record CommandResult : Type 0 where
  pub reservation_id : String
  pub status : ReservationStatus
  pub hold_revision : ℕ
  pub approval_revalidation_required : Option Bool

-- A row of b2b_spend_command.
pub record CommandRow : Type 0 where
  pub idempotency_key : String
  pub command_kind : CommandKind
  pub organisation_id : String
  pub request_digest : String
  pub result : CommandResult

pub record Db : Type 0 where
  pub members : List Member
  pub policies : List Policy
  pub reservations : List Reservation
  pub balances : String → ℕ → Option Balance
  pub holds : List Hold
  pub entries : List Entry
  pub commands : List CommandRow

-- What the database raises, each constructor one message of the triggers or a constraint.
pub data DbError : Type 0 where
  unknown_row outside_this_budget no_hold_to_release release_exceeds_reserved : DbError
  outside_budget_period reservation_not_active not_in_effect_at_revision : DbError
  insufficient_capacity expired_or_closed budget_changed commit_exceeds_reserved : DbError
  terminal immutable_purchase check_violation unique_violation : DbError

pub data SpendRefusal : Type 0 where
  buyer_not_authorised spend_policy_not_configured spend_limit_exceeded : SpendRefusal
  transaction_changed context_not_usable source_unavailable : SpendRefusal

-- What is thrown inside a transaction: `Refused` (with its detail ROLLOVER_REQUIRED or not),
-- `Conflict`, or an error of the database.
pub data Failure : Type 0 where
  refused : SpendRefusal → Bool → Failure
  conflict : Failure
  database : DbError → Failure

pub data Result {ℓ} (A : Type ℓ) : Type ℓ where
  ok : A → Result A
  fail : Failure → Result A

infixl 5 ◌>>=◌
unfoldable pub ◌>>=◌ {ℓ κ} : {A : Type ℓ} {B : Type κ} → Result A → (A → Result B) → Result B
ok a >>= f = f a
fail e >>= f = fail e

infixl 5 ◌>>◌
unfoldable pub ◌>>◌ {ℓ} : {B : Type ℓ} → Result (Unit {0}) → Result B → Result B
ok u >> k = k
fail e >> k = fail e

-- `raise exception` or `throw` under a condition.
unfoldable pub fail_if : Bool → Failure → Result (Unit {0})
fail_if true e = fail e
fail_if false e = ok tt

unfoldable pub or_fail {ℓ} : {A : Type ℓ} → Option A → Failure → Result A
or_fail none e = fail e
or_fail (some a) e = ok a

-- Overwrites the first row that passes the test: the keys of the tables are unique.
unfoldable pub alter {ℓ} : {A : Type ℓ} → (A → Bool) → (A → A) → List A → List A
alter p f [] = []
alter p f (x ∷ xs) = let rest = alter p f xs in if p x then f x ∷ xs else x ∷ rest

abbrev pub find_policy : Db → String → Option Policy
find_policy db id = find (λ p. p.id == id) db.policies

abbrev pub find_reservation : Db → String → Option Reservation
find_reservation db id = find (λ r. r.id == id) db.reservations

abbrev pub is_hold : String → String → ℕ → Hold → Bool
is_hold reservation policy start h =
    h.reservation_id == reservation
    && (h.budget_policy_id == policy && eqb h.period_starts_at start)

abbrev pub find_hold : Db → String → String → ℕ → Option Hold
find_hold db reservation policy start = find (is_hold reservation policy start) db.holds

abbrev pub is_active : ReservationStatus → Bool
is_active ReservationStatus.active = true
is_active _ = false

abbrev pub is_active_policy : PolicyStatus → Bool
is_active_policy PolicyStatus.active = true
is_active_policy _ = false

abbrev pub put_balance :
    (String → ℕ → Option Balance) → String → ℕ → Balance → String → ℕ → Option Balance
put_balance bs policy start b p s = if policy == p && eqb start s then some b else bs p s
