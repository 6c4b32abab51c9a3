-- ===== src/Spend/Run.antt =====
-- baobab/b2b/spend-reservation-commands.ts: the six commands, their checks of form, and `run`, one
-- transaction under an idempotency key.
use baobab_trade.Prelude.{
  ℕ, ◌+◌, leb, ltb, eqb, String, Bool, true, false, not, ◌&&◌, ◌||◌, ◌==◌, Option, none, some, List,
  [], ◌∷◌, find, all, length, if◌then◌else◌, codes, is_upper, is_digit, is_alphanumeric,
  is_key_char, has_text, units, is_run, between,
}
use baobab_trade.Spend.State.{
  Db, ReservationStatus, ReleaseReason, CommandKind, submits, resubmits, commits, releases, expires,
  rollovers, CommandResult, CommandRow, DbError, SpendRefusal, Failure, Result, ok, fail,
  spend_limit_exceeded, context_not_usable, source_unavailable,
}
use baobab_trade.Spend.Tx.{Tx, return, Env}
use baobab_trade.Spend.Steps.{SubmitCommand, ReservationCommand, CommitCommand}
use baobab_trade.Spend.Commands.{submit_body, resubmit_body, commit_body, close_body, rollover_body}

pub data ClosingReason : Type 0 where
  rejected cancelled : ClosingReason

-- A command with its kind, as `requestDigest` reads it. An atomic commit carries the marker of its
-- mutation, and differs from a commit of capacity alone.
pub data Request : Type 0 where
  submit : SubmitCommand → Request
  resubmit : SubmitCommand → String → Request
  commit : CommitCommand → Request
  commit_atomic : CommitCommand → Request
  release : ReservationCommand → ClosingReason → Request
  expire : ReservationCommand → Request
  rollover : ReservationCommand → Request

pub data Outcome : Type 0 where
  applied : CommandResult → Outcome
  replayed : CommandResult → Outcome
  refused : SpendRefusal → Bool → Outcome
  conflicted : Outcome
  type_error : Outcome

unfoldable pub kind_of : Request → CommandKind
kind_of (submit c) = submits
kind_of (resubmit c s) = resubmits
kind_of (commit c) = commits
kind_of (commit_atomic c) = commits
kind_of (release c r) = releases
kind_of (expire c) = expires
kind_of (rollover c) = rollovers

unfoldable pub key_of : Request → String
key_of (submit c) = c.idempotency_key
key_of (resubmit c s) = c.idempotency_key
key_of (commit c) = c.base.idempotency_key
key_of (commit_atomic c) = c.base.idempotency_key
key_of (release c r) = c.idempotency_key
key_of (expire c) = c.idempotency_key
key_of (rollover c) = c.idempotency_key

unfoldable pub organisation_of : Request → String
organisation_of (submit c) = c.organisation_id
organisation_of (resubmit c s) = c.organisation_id
organisation_of (commit c) = c.base.organisation_id
organisation_of (commit_atomic c) = c.base.organisation_id
organisation_of (release c r) = c.organisation_id
organisation_of (expire c) = c.organisation_id
organisation_of (rollover c) = c.organisation_id

-- refusalFor: the ledger's messages, as closed reasons.
unfoldable pub refusal_for : DbError → SpendRefusal
refusal_for DbError.insufficient_capacity = spend_limit_exceeded
refusal_for DbError.not_in_effect_at_revision = context_not_usable
refusal_for DbError.budget_changed = context_not_usable
refusal_for DbError.reservation_not_active = context_not_usable
refusal_for DbError.expired_or_closed = context_not_usable
refusal_for DbError.outside_this_budget = context_not_usable
refusal_for DbError.outside_budget_period = context_not_usable
refusal_for DbError.terminal = context_not_usable
refusal_for DbError.immutable_purchase = context_not_usable
refusal_for _ = source_unavailable

unfoldable pub outcome_of : Failure → Outcome
unfolding refusal_for
outcome_of (Failure.refused r detail) = refused r detail
outcome_of Failure.conflict = conflicted
outcome_of (Failure.database e) = refused (refusal_for e) false

abbrev pub max_hold_ms : ℕ
max_hold_ms = 2592000000

abbrev pub max_safe_integer : ℕ
max_safe_integer = 9007199254740991

abbrev is_hex : ℕ → Bool
is_hex c = is_digit c || between b'a' b'f' c

-- A text that is a fixed prefix and a run of a class.
abbrev after_prefix : List ℕ → List ℕ → Option (List ℕ)
after_prefix [] cs = some cs
after_prefix (p ∷ ps) [] = none
after_prefix (p ∷ ps) (c ∷ cs) = if eqb p c then after_prefix ps cs else none

abbrev is_prefixed : String → (ℕ → Bool) → ℕ → ℕ → String → Bool
is_prefixed prefix p lo hi s = elim (after_prefix (codes prefix) (codes s)) [
  | none ↦ false
  | some cs ↦ all p cs && between lo hi (length cs)
]

unfoldable pub is_command_key : String → Bool
is_command_key = is_run is_key_char 16 128

unfoldable pub is_digest : String → Bool
is_digest = is_prefixed "sha256:" is_hex 64 64

unfoldable pub is_currency : String → Bool
is_currency = is_run is_upper 3 3

unfoldable pub is_reservation_id : String → Bool
is_reservation_id = is_prefixed "b2bres_" is_alphanumeric 6 64

abbrev is_set : String → Bool
is_set s = not (s == "")

-- assertSubmit.
unfoldable pub is_submit_form : ℕ → SubmitCommand → Bool
unfolding is_command_key is_digest is_currency
is_submit_form now c =
    is_command_key c.idempotency_key
    && (has_text c.purchase_reference
        && (leb (units (codes c.purchase_reference)) 200
            && (is_set c.tenant_id
                && (is_set c.organisation_id
                    && (is_set c.membership_id
                        && (is_set c.actor_principal_id
                            && (is_set c.market_key
                                && (is_currency c.currency_code
                                    && (is_digest c.transaction_digest
                                        && (between 1 max_safe_integer c.resource_version
                                            && (ltb 0 c.amount_minor
                                                && (ltb now c.expires_at
                                                    && leb c.expires_at
                                                        (now + max_hold_ms)))))))))))))

-- assertReservationCommand.
unfoldable pub is_reservation_form : ReservationCommand → Bool
unfolding is_command_key is_reservation_id
is_reservation_form c =
    is_command_key c.idempotency_key
    && (is_set c.organisation_id
        && (is_reservation_id c.reservation_id && is_set c.actor_principal_id))

unfoldable pub is_commit_form : CommitCommand → Bool
unfolding is_reservation_form is_digest
is_commit_form c =
    is_reservation_form c.base
    && (is_digest c.transaction_digest
        && (is_set c.commitment_reference && between 1 max_safe_integer c.hold_revision))

unfoldable pub is_form : ℕ → Request → Bool
unfolding is_submit_form is_reservation_form is_commit_form
is_form now (submit c) = is_submit_form now c
is_form now (resubmit c s) = is_submit_form now c
is_form now (commit c) = is_commit_form c
is_form now (commit_atomic c) = is_commit_form c
is_form now (release c r) = is_reservation_form c
is_form now (expire c) = is_reservation_form c
is_form now (rollover c) = is_reservation_form c

abbrev pub same_kind : CommandKind → CommandKind → Bool
same_kind submits submits = true
same_kind resubmits resubmits = true
same_kind commits commits = true
same_kind releases releases = true
same_kind expires expires = true
same_kind rollovers rollovers = true
same_kind _ _ = false

abbrev closing : ClosingReason → ReleaseReason
closing rejected = ReleaseReason.rejected
closing cancelled = ReleaseReason.cancelled

abbrev pub find_command : Db → String → Option CommandRow
find_command db key = find (λ r. r.idempotency_key == key) db.commands

module _ (digest : Request → String) where
  abbrev pub command_row : Request → CommandResult → CommandRow
  command_row r result = record {
    idempotency_key = key_of r;
    command_kind = kind_of r;
    organisation_id = organisation_of r;
    request_digest = digest r;
    result = result;
  }

  -- The answer to a key that is recorded already.
  unfoldable pub replay : Request → CommandRow → Outcome
  replay r row =
      if same_kind row.command_kind (kind_of r)
        && (row.organisation_id == organisation_of r && row.request_digest == digest r)
      then replayed row.result
      else conflicted

  -- The record is written last, under its unique index; a failure rolls everything back.
  unfoldable pub record_command :
      Request → Db → CommandResult → Db → Option CommandRow → Outcome × Db
  record_command r db result db' none =
      (applied result, record db' { commands = command_row r result ∷ db'.commands })
  record_command r db result db' (some row) =
      (outcome_of (Failure.database DbError.unique_violation), db)

  unfoldable pub settle_command : Request → Db → Result (CommandResult × Db) → Outcome × Db
  settle_command r db (ok (result, db')) =
      record_command r db result db' (find_command db' (key_of r))
  settle_command r db (fail e) = (outcome_of e, db)

  unfoldable pub run_row : Request → Tx CommandResult → Db → Option CommandRow → Outcome × Db
  run_row r body db (some row) = (replay r row, db)
  run_row r body db none = settle_command r db (body db)

  -- `run`; `connected` says whether the pool gave a connection.
  unfoldable pub run : Bool → Request → Tx CommandResult → Db → Outcome × Db
  run false r body db = (refused source_unavailable false, db)
  run true r body db = run_row r body db (find_command db (key_of r))

  module _ (env : Env) (mutation : CommitCommand → Tx (Unit {0})) where
    unfoldable pub body_of : Request → Tx CommandResult
    body_of (submit c) = submit_body env c
    body_of (resubmit c s) = resubmit_body env c s
    body_of (commit c) = commit_body env c (return tt)
    body_of (commit_atomic c) = commit_body env c (mutation c)
    body_of (release c r) = close_body env c (closing r) ReservationStatus.released false
    body_of (expire c) = close_body env c ReleaseReason.expired ReservationStatus.expired true
    body_of (rollover c) = rollover_body env c

    -- One call of a command of the class.
    unfoldable pub execute : Bool → Request → Db → Outcome × Db
    execute connected r db =
        let answer = run connected r (body_of r) db in
        if is_form env.app_now r then answer else (type_error, db)
