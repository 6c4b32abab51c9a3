-- ===== src/Spend/Serve.antt =====
-- baobab/b2b/spend-reservation-commands.ts: a history of calls of the commands, and what a whole
-- call keeps.
use baobab_trade.Prelude.{
  ◌≡◌, refl, String, Bool, true, false, Option, none, some, List, [], ◌∷◌, All, Bool-cases, inl,
  inr,
}
use baobab_trade.Spend.State.{Db, CommandRow, CommandResult, Result, ok, fail}
use baobab_trade.Spend.Tx.{Tx, Env}
use baobab_trade.Spend.Steps.{CommitCommand}
use baobab_trade.Spend.Run.{
  Request, submit, resubmit, commit, commit_atomic, release, expire, rollover, body_of,
  record_command, run, run_row, settle_command, execute, find_command, key_of, is_form,
}
use baobab_trade.Spend.Keeps.{
  Keeps, Writes, return-Keeps, submit_body-Keeps, resubmit_body-Keeps, commit_body-Keeps,
  close_body-Keeps, rollover_body-Keeps,
}

-- One call: its clocks and digests, the mutation of an atomic commit, the connection, the command.
pub record Call : Type 0 where
  pub env : Env
  pub mutation : CommitCommand → Tx (Unit {0})
  pub connected : Bool
  pub request : Request

module _ (digest : Request → String) where
  -- The tables after a history of calls.
  unfoldable pub serve : List Call → Db → Db
  serve [] db = db
  serve (c ∷ cs) db = serve cs ((execute digest c.env c.mutation c.connected c.request db).1)

module _ {ℓ} (digest : Request → String) (P : Db → Type ℓ) where
  module _ (env : Env) (w : Writes env P) (mutation : CommitCommand → Tx (Unit {0}))
      (m : (c : CommitCommand) → Keeps P (mutation c)) where
    body_of-Keeps : (r : Request) → Keeps P (body_of digest env mutation r)
    unfolding body_of
    body_of-Keeps (submit c) = submit_body-Keeps env P w c
    body_of-Keeps (resubmit c s) = resubmit_body-Keeps env P w c s
    body_of-Keeps (commit c) = commit_body-Keeps env P w c _ (return-Keeps P tt)
    body_of-Keeps (commit_atomic c) = commit_body-Keeps env P w c _ (m c)
    body_of-Keeps (release c r) = close_body-Keeps env P w c _ _ _
    body_of-Keeps (expire c) = close_body-Keeps env P w c _ _ _
    body_of-Keeps (rollover c) = rollover_body-Keeps env P w c

    record_command-Keeps :
        (r : Request) (db : Db) (a : CommandResult) (db' : Db) (o : Option CommandRow)
        → P db
        → P db'
        → find_command db' (key_of r) ≡ o
        → P ((record_command digest r db a db' o).1)
    unfolding record_command
    record_command-Keeps r db a db' none h h' e = w.command _ db' h' e
    record_command-Keeps r db a db' (some row) h h' e = h

    settle_command-Keeps :
        (r : Request) (db : Db) (o : Result (CommandResult × Db))
        → P db
        → ((a : CommandResult) (db' : Db) → o ≡ ok (a, db') → P db')
        → P ((settle_command digest r db o).1)
    unfolding settle_command
    settle_command-Keeps r db (ok (a, db')) h k =
        record_command-Keeps r db a db' _ h (k a db' refl) refl
    settle_command-Keeps r db (fail e) h k = h

    run_row-Keeps :
        (r : Request) (body : Tx CommandResult) (db : Db) (o : Option CommandRow)
        → Keeps P body
        → P db
        → P ((run_row digest r body db o).1)
    unfolding run_row
    run_row-Keeps r body db (some row) k h = h
    run_row-Keeps r body db none k h =
        settle_command-Keeps r db (body db) h λ a db' e. k db a db' h e

    run-Keeps :
        (connected : Bool) (r : Request) (body : Tx CommandResult) (db : Db)
        → Keeps P body
        → P db
        → P ((run digest connected r body db).1)
    unfolding run
    run-Keeps false r body db k h = h
    run-Keeps true r body db k h = run_row-Keeps r body db _ k h

    pub execute-Keeps :
        (connected : Bool) (r : Request) (db : Db)
        → P db
        → P ((execute digest env mutation connected r db).1)
    unfolding execute
    execute-Keeps connected r db h = elim (Bool-cases (is_form env.app_now r)) [
      | inl t ↦ rw t (run-Keeps connected r _ db (body_of-Keeps r) h)
      | inr n ↦ rw n h
    ]

  -- What every write keeps, and every mutation of a history, holds after the history.
  pub serve-Keeps :
      ((env : Env) → Writes env P)
      → (cs : List Call) (db : Db) → All (λ c. (k : CommitCommand) → Keeps P (c.mutation k)) cs
      → P db
      → P (serve digest cs db)
  unfolding serve
  serve-Keeps w [] db ms h = h
  serve-Keeps w (c ∷ cs) db (m, ms) h =
      serve-Keeps w cs _ ms (execute-Keeps c.env (w c.env) c.mutation m c.connected c.request db h)
