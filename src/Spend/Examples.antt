-- ===== src/Spend/Examples.antt =====
-- Runs of the spend commands, with the theorems about them.
use baobab_trade.Prelude.{length, filter, ◌≤◌, ◌+◌, eq_iff, ◌≡◌, refl, true, List, [], ◌∷◌, arith}
use baobab_trade.Spend.State.{
  Db, Policy, PolicyStatus, Scope, PeriodKind, Reservation, ReservationStatus, Balance, Hold, Entry,
  reserve, commit, Member, CommandResult, Result, ok, fail, alter, put_balance, fail_if, or_fail,
  ◌>>=◌, ◌>>◌,
}
use baobab_trade.Spend.Tx.{Tx, Env, return}
use baobab_trade.Spend.Steps.{SubmitCommand, ReservationCommand, CommitCommand}
use baobab_trade.Spend.Commands.{commit_body}
use baobab_trade.Spend.Run.{Request, Outcome, applied, replayed, conflicted, execute, is_form}
use baobab_trade.Spend.Sums.{sum}
use baobab_trade.Spend.Ledger.{insert_entry}
use baobab_trade.Spend.Capacity.{IsSound, insert_entry-IsSound}
use baobab_trade.Spend.Keeps.{return-Keeps}
use baobab_trade.Spend.Serve.{Call, serve}
use baobab_trade.Spend.Books.{serve-IsSound}
use baobab_trade.Spend.Replay.{applied-IsReplayed, key_reused-IsConflict}
use baobab_trade.Spend.Closed.{IsClosed, serve-IsClosed}
use baobab_trade.Spend.Committing.{IsFunded, commit_body-IsFunded}
use baobab_trade.Spend.Consistent.{balance_at}
use baobab_trade.Spend.Alone.{is_open, IsDistinct, serve-Alone}
use baobab_trade.Spend.Room.{HasRoom, insert_entry-Takes}
use baobab_trade.Spend.Fixtures.{
  reservation, budget, env, purchase, empty_db, reserved_db, reserve_entry, funded_db, commitment,
  closed, committed_db, outcome, digest, no_mutation, call,
}

empty_db-IsSound : IsSound empty_db
unfolding sum
empty_db-IsSound = record { books = λ p s. (refl, refl); within = λ id p s h. omega arith }

reserved_db-IsSound : IsSound reserved_db
unfolding sum
reserved_db-IsSound = record { books = λ p s. (refl, refl); within = λ id p s h. omega arith }

reserve_entry-Inserts : insert_entry env.month env.now reserved_db reserve_entry ≡ ok funded_db
unfolding baobab_trade.Spend.Ledger.insert_entry baobab_trade.Spend.Ledger.is_outside
    baobab_trade.Spend.Ledger.dispatch baobab_trade.Spend.Ledger.apply_current
    baobab_trade.Spend.Ledger.period_of baobab_trade.Spend.Ledger.apply_kind
    baobab_trade.Spend.Ledger.apply_reserve baobab_trade.Spend.Ledger.apply_commit
    baobab_trade.Spend.Ledger.apply_release baobab_trade.Spend.Ledger.apply_earlier
    baobab_trade.Spend.Ledger.not_in_effect baobab_trade.Spend.Ledger.ensure_hold
    baobab_trade.Spend.Ledger.settle baobab_trade.Spend.State.◌>>=◌ baobab_trade.Spend.State.◌>>◌
    baobab_trade.Spend.State.or_fail baobab_trade.Spend.State.fail_if baobab_trade.Spend.State.alter
reserve_entry-Inserts = refl

commitment-Commits :
    commit_body env commitment (return tt) funded_db
    ≡ ok (outcome ReservationStatus.committed, committed_db)
unfolding baobab_trade.Spend.Commands.commit_body baobab_trade.Spend.Commands.is_fully_held
    baobab_trade.Spend.Commands.is_stale baobab_trade.Spend.Steps.each
    baobab_trade.Spend.Commands.commit_entry baobab_trade.Spend.Tx.◌>>=◌ baobab_trade.Spend.Tx.◌>>◌
    baobab_trade.Spend.Tx.continue baobab_trade.Spend.Tx.lock_reservation
    baobab_trade.Spend.Tx.with_state baobab_trade.Spend.Tx.throw_if
    baobab_trade.Spend.Tx.applicable_policies baobab_trade.Spend.Tx.policy_applies
    baobab_trade.Spend.Tx.return baobab_trade.Spend.Tx.holds baobab_trade.Spend.Tx.write_entry
    baobab_trade.Spend.Tx.with_unit baobab_trade.Spend.Tx.set_status
    baobab_trade.Spend.Tx.update_row baobab_trade.Spend.Ledger.insert_entry
    baobab_trade.Spend.Ledger.is_outside baobab_trade.Spend.Ledger.dispatch
    baobab_trade.Spend.Ledger.apply_current baobab_trade.Spend.Ledger.period_of
    baobab_trade.Spend.Ledger.apply_kind baobab_trade.Spend.Ledger.apply_reserve
    baobab_trade.Spend.Ledger.apply_commit baobab_trade.Spend.Ledger.apply_release
    baobab_trade.Spend.Ledger.apply_earlier baobab_trade.Spend.Ledger.not_in_effect
    baobab_trade.Spend.Ledger.ensure_hold baobab_trade.Spend.Ledger.settle
    baobab_trade.Spend.State.◌>>=◌ baobab_trade.Spend.State.◌>>◌ baobab_trade.Spend.State.or_fail
    baobab_trade.Spend.State.fail_if baobab_trade.Spend.State.alter
commitment-Commits = refl

submit-IsApplied :
    (execute digest env no_mutation true (Request.submit purchase) empty_db).0
    ≡ applied (outcome ReservationStatus.active)
unfolding baobab_trade.Spend.Run.execute baobab_trade.Spend.Run.is_form
    baobab_trade.Spend.Run.is_submit_form baobab_trade.Spend.Run.is_command_key
    baobab_trade.Spend.Run.is_digest baobab_trade.Spend.Run.is_currency baobab_trade.Spend.Run.run
    baobab_trade.Spend.Run.run_row baobab_trade.Spend.Run.settle_command
    baobab_trade.Spend.Run.record_command baobab_trade.Spend.Run.replay
    baobab_trade.Spend.Run.body_of baobab_trade.Spend.Run.key_of baobab_trade.Spend.Run.kind_of
    baobab_trade.Spend.Run.organisation_of baobab_trade.Spend.Run.outcome_of
    baobab_trade.Spend.Commands.submit_body baobab_trade.Spend.Steps.insert_reservation
    baobab_trade.Spend.Steps.add_reservation baobab_trade.Spend.Steps.in_policy_order
    baobab_trade.Spend.Steps.each_budget baobab_trade.Spend.Steps.policy_order
    baobab_trade.Spend.Steps.reserve_entry baobab_trade.Spend.Steps.release_hold
    baobab_trade.Spend.Commands.commit_body baobab_trade.Spend.Commands.is_fully_held
    baobab_trade.Spend.Commands.is_stale baobab_trade.Spend.Steps.each
    baobab_trade.Spend.Commands.commit_entry baobab_trade.Spend.Tx.◌>>=◌ baobab_trade.Spend.Tx.◌>>◌
    baobab_trade.Spend.Tx.continue baobab_trade.Spend.Tx.lock_reservation
    baobab_trade.Spend.Tx.with_state baobab_trade.Spend.Tx.throw_if
    baobab_trade.Spend.Tx.applicable_policies baobab_trade.Spend.Tx.policy_applies
    baobab_trade.Spend.Tx.return baobab_trade.Spend.Tx.holds baobab_trade.Spend.Tx.write_entry
    baobab_trade.Spend.Tx.with_unit baobab_trade.Spend.Tx.set_status
    baobab_trade.Spend.Tx.update_row baobab_trade.Spend.Ledger.insert_entry
    baobab_trade.Spend.Ledger.is_outside baobab_trade.Spend.Ledger.dispatch
    baobab_trade.Spend.Ledger.apply_current baobab_trade.Spend.Ledger.period_of
    baobab_trade.Spend.Ledger.apply_kind baobab_trade.Spend.Ledger.apply_reserve
    baobab_trade.Spend.Ledger.apply_commit baobab_trade.Spend.Ledger.apply_release
    baobab_trade.Spend.Ledger.apply_earlier baobab_trade.Spend.Ledger.not_in_effect
    baobab_trade.Spend.Ledger.ensure_hold baobab_trade.Spend.Ledger.settle
    baobab_trade.Spend.State.◌>>=◌ baobab_trade.Spend.State.◌>>◌ baobab_trade.Spend.State.or_fail
    baobab_trade.Spend.State.fail_if baobab_trade.Spend.State.alter
submit-IsApplied = refl

submit-IsForm : is_form env.app_now (Request.submit purchase) ≡ true
unfolding baobab_trade.Spend.Run.is_form baobab_trade.Spend.Run.is_submit_form
    baobab_trade.Spend.Run.is_command_key baobab_trade.Spend.Run.is_digest
    baobab_trade.Spend.Run.is_currency
submit-IsForm = refl

abbrev submitted : Db
submitted = (execute digest env no_mutation true (Request.submit purchase) empty_db).1

abbrev history : List Call
history = call (Request.submit purchase) ∷ call (Request.commit commitment) ∷ []

abbrev other_purchase : SubmitCommand
other_purchase = record purchase { purchase_reference = "cart-2" }

other-IsForm : is_form env.app_now (Request.submit other_purchase) ≡ true
unfolding baobab_trade.Spend.Run.is_form baobab_trade.Spend.Run.is_submit_form
    baobab_trade.Spend.Run.is_command_key baobab_trade.Spend.Run.is_digest
    baobab_trade.Spend.Run.is_currency
other-IsForm = refl

same_key :
    baobab_trade.Spend.Run.key_of (Request.submit other_purchase)
    ≡ baobab_trade.Spend.Run.key_of (Request.submit purchase)
unfolding baobab_trade.Spend.Run.key_of
same_key = refl

other_digest : ¬ (digest (Request.submit other_purchase) ≡ digest (Request.submit purchase))
other_digest h = ground (arith, eq_iff "cart-2" "cart-1")

closed-IsClosed : IsClosed "b2bres_abc123" closed committed_db
closed-IsClosed = (refl, refl)

serve-IsSound_example : IsSound (serve digest history empty_db)
serve-IsSound_example =
    serve-IsSound digest history empty_db
      ((λ k. return-Keeps IsSound tt), ((λ k. return-Keeps IsSound tt), tt)) empty_db-IsSound

insert_entry-IsSound_example : IsSound funded_db
insert_entry-IsSound_example =
    insert_entry-IsSound env.month env.now reserved_db reserve_entry reserved_db-IsSound funded_db
      reserve_entry-Inserts

commit_body-IsFunded_example : (r : Reservation) × IsFunded env funded_db commitment r
commit_body-IsFunded_example =
    commit_body-IsFunded env commitment (return tt) funded_db (outcome ReservationStatus.committed)
      committed_db commitment-Commits

applied-IsReplayed_example :
    execute digest env no_mutation true
      (Request.submit purchase)
      (serve digest (call (Request.commit commitment) ∷ []) submitted)
    ≡ (
      replayed (outcome ReservationStatus.active),
      serve digest (call (Request.commit commitment) ∷ []) submitted,
    )
applied-IsReplayed_example =
    applied-IsReplayed digest (call (Request.submit purchase)) empty_db
      (outcome ReservationStatus.active) submit-IsApplied (call (Request.commit commitment) ∷ [])
      ((λ k. return-Keeps _ tt), tt) (call (Request.submit purchase)) refl submit-IsForm refl

key_reused-IsConflict_example :
    execute digest env no_mutation true
      (Request.submit other_purchase)
      (serve digest (call (Request.commit commitment) ∷ []) submitted)
    ≡ (conflicted, serve digest (call (Request.commit commitment) ∷ []) submitted)
key_reused-IsConflict_example =
    key_reused-IsConflict digest (call (Request.submit purchase)) empty_db
      (outcome ReservationStatus.active) submit-IsApplied (call (Request.commit commitment) ∷ [])
      ((λ k. return-Keeps _ tt), tt) (call (Request.submit other_purchase)) refl other-IsForm
      same_key other_digest

serve-IsClosed_example :
    IsClosed "b2bres_abc123" closed
      (serve digest (call (Request.commit commitment) ∷ []) committed_db)
serve-IsClosed_example =
    serve-IsClosed digest "b2bres_abc123" closed (call (Request.commit commitment) ∷ [])
      committed_db ((λ k. return-Keeps _ tt), tt) closed-IsClosed

reserve_entry-HasRoom :
    HasRoom env.month env.now reserved_db reserve_entry budget reservation 0 1000
unfolding baobab_trade.Spend.Ledger.is_outside baobab_trade.Spend.Ledger.period_of
    baobab_trade.Spend.Ledger.ensure_hold
reserve_entry-HasRoom = record {
  kind = refl;
  policy = refl;
  row = refl;
  inside = refl;
  period = refl;
  begun = omega arith;
  unended = omega arith;
  active = refl;
  unexpired = omega arith;
  in_force = refl;
  effective = omega arith;
  lasting = refl;
  revision = refl;
  hold = refl;
  positive = omega arith;
  room = omega arith;
  fresh = refl;
}

insert_entry-Takes_example :
    (db' : Db) × (insert_entry env.month env.now reserved_db reserve_entry ≡ ok db')
    × ((balance_at db' "p1" 0).reserved_minor
        ≡ (balance_at reserved_db "p1" 0).reserved_minor + 400)
    × ((balance_at db' "p1" 0).committed_minor ≡ (balance_at reserved_db "p1" 0).committed_minor)
insert_entry-Takes_example =
    insert_entry-Takes env.month env.now reserved_db reserve_entry budget reservation 0 1000
      reserve_entry-HasRoom

serve-Alone_example :
    length (filter (is_open "org1" "cart-1") (serve digest history empty_db).reservations) ≤ 1
serve-Alone_example =
    serve-Alone env digest history empty_db "org1" "cart-1"
      ((λ k. return-Keeps (IsDistinct env) tt), ((λ k. return-Keeps (IsDistinct env) tt), tt)) tt
