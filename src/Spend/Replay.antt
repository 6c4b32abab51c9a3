-- ===== src/Spend/Replay.antt =====
-- baobab/b2b/spend-reservation-commands.ts: `run` under its idempotency keys.
use baobab_trade.Prelude.{
  ◌≡◌, refl, sym, ◌∙◌, ap, String, Bool, true, false, ◌==◌, Option, none, some, List, ◌∷◌, find,
  All, Bool-cases, inl, inr, arith, ==_refl, eq_of_==,
}
use baobab_trade.Spend.State.{
  Db, CommandRow, CommandResult, CommandKind, Result, ok, fail, Failure, refused, conflict,
  database, submits, resubmits, commits, releases, expires, rollovers,
}
use baobab_trade.Spend.Tx.{Tx, Env, write_entry, set_status, advance_hold_revision}
use baobab_trade.Spend.Steps.{CommitCommand}
use baobab_trade.Spend.Run.{
  Request, Outcome, applied, replayed, conflicted, execute, find_command, key_of, kind_of,
  organisation_of, command_row, replay, run, run_row, settle_command, record_command, is_form,
  same_kind, outcome_of,
}
use baobab_trade.Spend.Keeps.{Keeps, Writes}
use baobab_trade.Spend.Books.{update_row-ok, with_unit-ok}
use baobab_trade.Spend.Frame.{insert_entry-SameRows}
use baobab_trade.Spend.Serve.{Call, serve, serve-Keeps}

-- The key is recorded with this row.
abbrev pub IsRecorded : String → CommandRow → Db → Type 0
IsRecorded key row db = find_command db key ≡ some row

-- A row with a fresh key comes before no row of another key.
recorded_before :
    (key : String) (row new : CommandRow) (db : Db)
    → IsRecorded key row db
    → find_command db new.idempotency_key ≡ none
    → find (λ r. r.idempotency_key == key) (new ∷ db.commands) ≡ some row
recorded_before key row new db h fresh = elim (Bool-cases (new.idempotency_key == key)) [
  | inl t ↦
      let same : new.idempotency_key ≡ key = eq_of_== _ _ t in absurd (clash h (rw same at fresh))
  | inr n ↦ rw n h
]
  where
    clash : {o : Option CommandRow} → o ≡ some row → o ≡ none → ⊥
    clash p q = ground arith

IsRecorded-Writes : (env : Env) (key : String) (row : CommandRow) → Writes env (IsRecorded key row)
unfolding write_entry set_status advance_hold_revision
IsRecorded-Writes env key row = record {
  entry = λ e db a db' h k.
      let s = insert_entry-SameRows env.month env.now db e (with_unit-ok _ a db' k) in
      rw s.commands h;
  status =
      λ id s db a db' h k. update_row-ok env (IsRecorded key row) _ _ _ db a db' h (λ r e t. h) k;
  revision =
      λ id db a db' h k. update_row-ok env (IsRecorded key row) _ _ _ db a db' h (λ r e t. h) k;
  reservation = λ n db h fresh. h;
  command = λ new db h fresh. recorded_before key row new db h fresh;
}

same_kind_refl : (k : CommandKind) → same_kind k k ≡ true
same_kind_refl submits = refl
same_kind_refl resubmits = refl
same_kind_refl commits = refl
same_kind_refl releases = refl
same_kind_refl expires = refl
same_kind_refl rollovers = refl

failure-NotApplied : (e : Failure) {result : CommandResult} → outcome_of e ≡ applied result → ⊥
unfolding outcome_of
failure-NotApplied (refused r d) h = ground arith
failure-NotApplied conflict h = ground arith
failure-NotApplied (database e) h = ground arith

module _ (digest : Request → String) where
  -- The same command finds its own record.
  replay_own :
      (r : Request) (result : CommandResult)
      → replay digest r (command_row digest r result) ≡ replayed result
  unfolding replay
  replay_own r result =
      rw (same_kind_refl (kind_of r))
        (rw (==_refl (organisation_of r)) (rw (==_refl (digest r)) refl))

  replay_other :
      (r : Request) (row : CommandRow)
      → ¬ (digest r ≡ row.request_digest)
      → replay digest r row ≡ conflicted
  unfolding replay
  replay_other r row other = elim (Bool-cases (row.request_digest == digest r)) [
    | inl t ↦ absurd (other (sym (eq_of_== _ _ t)))
    | inr n ↦ rw n (ground arith)
  ]

  run_recorded :
      (r : Request) (body : Tx CommandResult) (db : Db) (row : CommandRow)
      → IsRecorded (key_of r) row db
      → run digest true r body db ≡ (replay digest r row, db)
  unfolding run run_row
  run_recorded r body db row h = rw h refl

  pub execute_recorded :
      (env : Env) (mutation : CommitCommand → Tx (Unit {0})) (r : Request) (db : Db)
      (row : CommandRow)
      → IsRecorded (key_of r) row db
      → is_form env.app_now r ≡ true
      → execute digest env mutation true r db ≡ (replay digest r row, db)
  unfolding execute
  execute_recorded env mutation r db row h t = rw t (run_recorded r _ db row h)

  execute_answers :
      (env : Env) (mutation : CommitCommand → Tx (Unit {0})) (r : Request) (db : Db)
      (row : CommandRow)
      → IsRecorded (key_of r) row db
      → is_form env.app_now r ≡ true
      → {o : Outcome} → replay digest r row ≡ o
      → execute digest env mutation true r db ≡ (o, db)
  execute_answers env mutation r db row h t e =
      execute_recorded env mutation r db row h t ∙ ap (λ o. (o, db)) e

  record_command_applied :
      (r : Request) (db : Db) (a : CommandResult) (db' : Db) (o : Option CommandRow)
      {result : CommandResult}
      → (record_command digest r db a db' o).0 ≡ applied result
      → IsRecorded (key_of r) (command_row digest r result) ((record_command digest r db a db' o).1)
  unfolding record_command outcome_of
  record_command_applied r db a db' none {result} h =
      let same : a ≡ result = cc in rw same (rw (==_refl (key_of r)) refl)
  record_command_applied r db a db' (some row) h = absurd (ground arith)

  settle_command_applied :
      (r : Request) (db : Db) (o : Result (CommandResult × Db)) {result : CommandResult}
      → (settle_command digest r db o).0 ≡ applied result
      → IsRecorded (key_of r) (command_row digest r result) ((settle_command digest r db o).1)
  unfolding settle_command
  settle_command_applied r db (ok (a, db')) h = record_command_applied r db a db' _ h
  settle_command_applied r db (fail e) h = absurd (failure-NotApplied e h)

  run_row_applied :
      (r : Request) (body : Tx CommandResult) (db : Db) (o : Option CommandRow)
      {result : CommandResult}
      → (run_row digest r body db o).0 ≡ applied result
      → IsRecorded (key_of r) (command_row digest r result) ((run_row digest r body db o).1)
  unfolding run_row replay
  run_row_applied r body db (some row) h = absurd (ground arith)
  run_row_applied r body db none h = settle_command_applied r db (body db) h

  run_applied :
      (connected : Bool) (r : Request) (body : Tx CommandResult) (db : Db) {result : CommandResult}
      → (run digest connected r body db).0 ≡ applied result
      → IsRecorded (key_of r) (command_row digest r result) ((run digest connected r body db).1)
  unfolding run
  run_applied false r body db h = absurd (ground arith)
  run_applied true r body db h = run_row_applied r body db _ h

  pub execute_applied :
      (env : Env) (mutation : CommitCommand → Tx (Unit {0})) (connected : Bool) (r : Request)
      (db : Db) {result : CommandResult}
      → (execute digest env mutation connected r db).0 ≡ applied result
      → IsRecorded
          (key_of r)
          (command_row digest r result)
          ((execute digest env mutation connected r db).1)
  unfolding execute
  execute_applied env mutation connected r db h = elim (Bool-cases (is_form env.app_now r)) [
    | inl t ↦ rw t (run_applied connected r _ db (rw t at h))
    | inr n ↦ absurd (ground (arith, rw n at h))
  ]

-- What each mutation of a history keeps: the record under a key.
abbrev pub KeepRecord : String → CommandRow → List Call → Type 0
KeepRecord key row = All (λ c. (k : CommitCommand) → Keeps (IsRecorded key row) (c.mutation k))

serve-IsRecorded :
    (digest : Request → String) (key : String) (row : CommandRow) (cs : List Call) (db : Db)
    → KeepRecord key row cs
    → IsRecorded key row db
    → IsRecorded key row (serve digest cs db)
serve-IsRecorded digest key row cs db ms h =
    serve-Keeps digest (IsRecorded key row) (λ env. IsRecorded-Writes env key row) cs db ms h

module _ (digest : Request → String) (c : Call) (db : Db) (result : CommandResult)
    (h : (execute digest c.env c.mutation c.connected c.request db).0 ≡ applied result)
    (cs : List Call) (ms : KeepRecord (key_of c.request) (command_row digest c.request result) cs)
    (d : Call) (connected : d.connected ≡ true)
    (formed : is_form d.env.app_now d.request ≡ true) where
  -- Where a command was applied: after any later history of calls, the same command over a
  -- connection gives back that result and changes nothing, where it is still in form and the
  -- mutations of the history keep its record.
  pub applied-IsReplayed :
      d.request ≡ c.request
      → execute digest d.env d.mutation d.connected d.request
          (serve digest cs (execute digest c.env c.mutation c.connected c.request db).1)
        ≡ (
          replayed result,
          serve digest cs (execute digest c.env c.mutation c.connected c.request db).1,
        )
  applied-IsReplayed same =
      let kept =
        serve-IsRecorded digest _ _ cs _ ms
          (execute_applied digest c.env c.mutation c.connected c.request db h) in
      rw connected (
        rw same (
          execute_answers digest d.env d.mutation c.request _ _ kept (rw same at formed)
            (replay_own digest c.request result)))

  -- Where a command was applied: after any later history of calls, another command under its key,
  -- over a connection and in form, is a conflict and changes nothing, where the digests tell the
  -- two apart and the mutations of the history keep the record.
  pub key_reused-IsConflict :
      key_of d.request ≡ key_of c.request
      → ¬ (digest d.request ≡ digest c.request)
      → execute digest d.env d.mutation d.connected d.request
          (serve digest cs (execute digest c.env c.mutation c.connected c.request db).1)
        ≡ (conflicted, serve digest cs (execute digest c.env c.mutation c.connected c.request db).1)
  key_reused-IsConflict same other =
      let row = command_row digest c.request result in
      let after = serve digest cs (execute digest c.env c.mutation c.connected c.request db).1 in
      let kept : IsRecorded (key_of c.request) row after =
        serve-IsRecorded digest _ _ cs _ ms
          (execute_applied digest c.env c.mutation c.connected c.request db h) in
      let own : IsRecorded (key_of d.request) row after = rw same kept in
      rw connected (
        execute_answers digest d.env d.mutation d.request after row own formed
          (replay_other digest d.request row other))
