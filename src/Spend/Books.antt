-- ===== src/Spend/Books.antt =====
-- baobab/b2b/spend-reservation-commands.ts over the ledger of
-- modules/b2b/migrations/Migration20261022150000.ts: the books and the limits through the commands.
use baobab_trade.Prelude.{
  ◌==◌, ◌≡◌, refl, subst, String, true, Option, none, some, List, All, Bool-cases, inl, inr, arith,
}
use baobab_trade.Spend.State.{Db, Reservation, Result, ok, fail, is_active, alter}
use baobab_trade.Spend.Tx.{
  Env, update_row, with_unit, write_entry, set_status, advance_hold_revision,
}
use baobab_trade.Spend.Capacity.{IsSound, insert_entry-IsSound}
use baobab_trade.Spend.Steps.{CommitCommand}
use baobab_trade.Spend.Run.{Request}
use baobab_trade.Spend.Keeps.{Keeps, Writes, same_state}
use baobab_trade.Spend.Serve.{Call, serve, serve-Keeps}

-- An update of a reservation passes its guard, or there is no such row.
pub update_row-ok {ℓ} :
    (env : Env) (P : Db → Type ℓ) (o : Option Reservation) (id : String)
    (f : Reservation → Reservation) (db : Db) (a : Unit {0}) (db' : Db)
    → P db
    → ((r : Reservation)
        → o ≡ some r
        → is_active r.status ≡ true
        → P (record db { reservations = alter (λ x. x.id == id) f db.reservations }))
    → update_row env o id f db ≡ ok (a, db')
    → P db'
unfolding update_row
update_row-ok env P none id f db a db' h k e = subst P (same_state e) h
update_row-ok env P (some r) id f db a db' h k e = elim (Bool-cases (is_active r.status)) [
  | inl t ↦ subst P (same_state (rw t at e)) (k r refl t)
  | inr n ↦ absurd (ground (arith, rw n at e))
]

pub with_unit-ok :
    (r : Result Db) (a : Unit {0}) (db' : Db) → with_unit r ≡ ok (a, db') → r ≡ ok db'
unfolding with_unit
with_unit-ok (ok db) a db' e = ground arith
with_unit-ok (fail f) a db' e = absurd (ground arith)

IsSound-Writes : (env : Env) → Writes env IsSound
unfolding write_entry set_status advance_hold_revision
IsSound-Writes env = record {
  entry =
      λ e db a db' h k. insert_entry-IsSound env.month env.now db e h db' (with_unit-ok _ a db' k);
  status = λ id s db a db' h k.
      update_row-ok env IsSound _ _ _ db a db' h
        (λ r e t. record { books = h.books; within = h.within }) k;
  revision = λ id db a db' h k.
      update_row-ok env IsSound _ _ _ db a db' h
        (λ r e t. record { books = h.books; within = h.within }) k;
  reservation = λ n db h fresh. record { books = h.books; within = h.within };
  command = λ row db h fresh. record { books = h.books; within = h.within };
}

-- Through any history of calls of the commands, each with its own clock, from tables where the
-- books balance and no budget is beyond its limit: they still do, whatever each command answered,
-- where the mutations of atomic commits keep this.
pub serve-IsSound :
    (digest : Request → String) (cs : List Call) (db : Db)
    → All (λ c. (k : CommitCommand) → Keeps IsSound (c.mutation k)) cs
    → IsSound db
    → IsSound (serve digest cs db)
serve-IsSound digest cs db ms h = serve-Keeps digest IsSound IsSound-Writes cs db ms h
