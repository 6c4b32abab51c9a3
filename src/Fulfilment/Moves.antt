-- ===== src/Fulfilment/Moves.antt =====
-- What a transition over baobab/fulfilment/record-adapter.ts does to the stored fulfilments, and what
-- the same call answers when it is sent again.
use baobab_trade.Prelude.{
  ◌≡◌, refl, sym, ap, ◌∙◌, String, true, false, Option, none, some, inl, inr, Bool-cases, arith,
  ◌==◌, if◌then◌else◌, not, ◌||◌, ==_refl, ◌⊎◌, eq_of_==, subst,
}
use baobab_trade.Fulfilment.Port.{
  FulfilmentStatus, FulfilmentSnapshot, FulfilmentEvidence, Result, ok, throws, throw_if,
  transitions, transition, check_transition, moved, reused_for_another,
}
use baobab_trade.Fulfilment.Delivered.{check_transition-ok}
use baobab_trade.Fulfilment.Adapter.{
  StoredFulfilment, StoredTransition, Bridge, Write, wrote, violation, failure, eq_status,
  raced_with, updated, raced_note, recorded, replay_or_move, move_stored, move_by, asked, move,
  adapter, snapshot,
}

-- What the service of the bridge documents of its reads and writes.
pub record IsBridge (b : Bridge) : Type 0 where
  pub note_keeps :
      (db : b.Db) (t : StoredTransition) (id : String)
      → b.fulfilment_of (b.create_transition db t).1 id ≡ b.fulfilment_of db id
  pub note_found :
      (db : b.Db) (t n : StoredTransition) (db' : b.Db)
      → b.create_transition db t ≡ (wrote n, db')
      → b.transition_of db' t.fulfilment_id t.idempotency_key ≡ some t
  pub update_notes :
      (db : b.Db) (id : String) (s : FulfilmentStatus) (e : FulfilmentEvidence) (i k : String)
      → b.transition_of (b.update_fulfilment db id s e).1 i k ≡ b.transition_of db i k
  pub update_found :
      (db : b.Db) (id : String) (s : FulfilmentStatus) (e : FulfilmentEvidence)
      (r : StoredFulfilment) (db' : b.Db) (j : String)
      → b.update_fulfilment db id s e ≡ (wrote r, db')
      → (r.status ≡ s)
        × (b.fulfilment_of db' j ≡ (if id == j then some r else b.fulfilment_of db j))
  pub update_fails :
      (db : b.Db) (id : String) (s : FulfilmentStatus) (e : FulfilmentEvidence)
      (w : Write StoredFulfilment) (db' : b.Db) (j : String)
      → b.update_fulfilment db id s e ≡ (w, db')
      → (w ≡ violation) ⊎ (w ≡ failure)
      → b.fulfilment_of db' j ≡ b.fulfilment_of db j

eq_status-eq : (s t : FulfilmentStatus) → eq_status s t ≡ true → s ≡ t
unfolding eq_status
eq_status-eq s t h = ground arith

eq_status_refl : (s : FulfilmentStatus) → eq_status s s ≡ true
unfolding eq_status
eq_status_refl s = ground arith

-- No transition of the table stays where it is.
move_differs : (s t : FulfilmentStatus) → transitions s t ≡ true → eq_status s t ≡ false
unfolding transitions eq_status
move_differs s t h = ground arith

module _ (b : Bridge) (laws : IsBridge b) where
  -- The status of every stored fulfilment stays, or moves along one transition.
  pub Follows : b.Db → b.Db → Type 0
  Follows db db' =
      (id : String) (r : StoredFulfilment)
      → b.fulfilment_of db id ≡ some r
      → (r' : StoredFulfilment) × (b.fulfilment_of db' id ≡ some r')
        × ((r'.status ≡ r.status) ⊎ (transitions r.status r'.status ≡ true))

  unmoved :
      {db db' : b.Db}
      → ((id : String) → b.fulfilment_of db' id ≡ b.fulfilment_of db id)
      → Follows db db'
  unfolding Follows
  unmoved same id r at = (r, same id ∙ at, inl refl)

  updated-Follows :
      (db : b.Db) (t : StoredTransition) (old : StoredFulfilment)
      → b.fulfilment_of db t.fulfilment_id ≡ some old
      → old.status ≡ t.from_status
      → transitions t.from_status t.to_status ≡ true
      → (w : Write StoredFulfilment × b.Db)
      → b.update_fulfilment db t.fulfilment_id t.to_status t.evidence ≡ w
      → Follows db (updated b w).1
  unfolding updated Follows
  updated-Follows db t old at from allowed (violation, db') e id r stored =
      unmoved (λ id. laws.update_fails db _ _ _ violation db' id e (inl refl)) id r stored
  updated-Follows db t old at from allowed (failure, db') e id r stored =
      unmoved (λ id. laws.update_fails db _ _ _ failure db' id e (inr refl)) id r stored
  updated-Follows db t old at from allowed (wrote new, db') e id r stored =
      let (st, there) = laws.update_found db _ _ _ new db' id e in
      elim (Bool-cases (t.fulfilment_id == id)) [
        | inr other ↦ (r, there ∙ rw other stored, inl refl)
        | inl same ↦ (new, there ∙ rw same refl, inr (edge id r st stored (eq_of_== _ _ same)))
      ]
    where
      edge :
          (id : String) (r : StoredFulfilment)
          → new.status ≡ t.to_status
          → b.fulfilment_of db id ≡ some r
          → t.fulfilment_id ≡ id
          → transitions r.status new.status ≡ true
      edge id r st stored same =
          let e1 : some old ≡ some r = sym at ∙ ap (λ x. b.fulfilment_of db x) same ∙ stored in
          let e2 : old ≡ r = cc in
          let e3 : t.from_status ≡ r.status = sym from ∙ ap (λ x. x.status) e2 in
          subst (λ s. transitions s new.status ≡ true) e3
            (ap (λ s. transitions t.from_status s) st ∙ allowed)

  noted_at :
      (db : b.Db) (t : StoredTransition) (w : Write StoredTransition) (db' : b.Db)
      → b.create_transition db t ≡ (w, db')
      → (id : String) → b.fulfilment_of db' id ≡ b.fulfilment_of db id
  noted_at db t w db' e id = ap (λ x. b.fulfilment_of x.1 id) (sym e) ∙ laws.note_keeps db t id

  raced_same : (db : b.Db) (o : Option FulfilmentSnapshot) → (raced_with b db o).1 ≡ db
  unfolding raced_with
  raced_same db none = refl
  raced_same db (some s) = refl

  raced_note_same :
      (db : b.Db) (t : StoredTransition) (o : Option StoredTransition)
      → (raced_note b db t o).1 ≡ db
  unfolding raced_note
  raced_note_same db t none = refl
  raced_note_same db t (some u) =
      elim (Bool-cases
        (not (eq_status u.from_status t.from_status) || not (eq_status u.to_status t.to_status))) [
          | inl e ↦ rw e refl
          | inr e ↦ rw e (raced_same db _)
        ]

  recorded-Follows :
      (db : b.Db) (t : StoredTransition) (old : StoredFulfilment)
      → b.fulfilment_of db t.fulfilment_id ≡ some old
      → old.status ≡ t.from_status
      → transitions t.from_status t.to_status ≡ true
      → (w : Write StoredTransition × b.Db) → b.create_transition db t ≡ w
      → Follows db (recorded b t w).1
  unfolding recorded Follows
  recorded-Follows db t old at from allowed (wrote n, db') e id r stored =
      updated-Follows db' t old (noted_at db t _ db' e t.fulfilment_id ∙ at) from allowed _ refl id
        r (noted_at db t _ db' e id ∙ stored)
  recorded-Follows db t old at from allowed (failure, db') e id r stored =
      unmoved (noted_at db t _ db' e) id r stored
  recorded-Follows db t old at from allowed (violation, db') e id r stored =
      unmoved
        (λ id. ap (λ x. b.fulfilment_of x id) (raced_note_same db' t _) ∙ noted_at db t _ db' e id)
        id r stored

  stored_Follows :
      (db : b.Db) (t : StoredTransition)
      → transitions t.from_status t.to_status ≡ true
      → (prior : Option StoredTransition) (o : Option StoredFulfilment)
      → b.fulfilment_of db t.fulfilment_id ≡ o
      → Follows db (move_stored b db t prior o).1
  unfolding move_stored replay_or_move
  stored_Follows db t allowed none none at = unmoved (λ id. refl)
  stored_Follows db t allowed (some u) none at = unmoved (λ id. refl)
  stored_Follows db t allowed (some u) (some r) at = unmoved (λ id. refl)
  stored_Follows db t allowed none (some r) at =
      elim (Bool-cases (eq_status r.status t.from_status)) [
        | inr other ↦ rw other (unmoved (λ id. refl))
        | inl same ↦ rw same (recorded-Follows db t r at (eq_status-eq _ _ same) allowed _ refl)
      ]

  checked_Follows :
      (db : b.Db) (current : FulfilmentSnapshot) (to : FulfilmentStatus) (key : String)
      (evidence : FulfilmentEvidence) (v : Result FulfilmentStatus)
      → check_transition current.status to evidence ≡ v
      → Follows db (moved (adapter b) db current key evidence v).1
  unfolding moved move move_by
  checked_Follows db current to key evidence (throws x) e = unmoved (λ id. refl)
  checked_Follows db current to key evidence (ok s) e =
      let (allowed, same, _, _) = check_transition-ok current.status to evidence e in
      stored_Follows db (asked b current s key evidence)
        (ap (λ x. transitions current.status x) same ∙ allowed) _ _ refl

  -- Whatever snapshot, also a stale one, a transition is asked of, the status of every stored
  -- fulfilment stays, or moves along one transition of the table.
  pub transition-Follows :
      (db : b.Db) (current : FulfilmentSnapshot) (to : FulfilmentStatus) (key : String)
      (evidence : FulfilmentEvidence)
      → Follows db (transition (adapter b) db current to key evidence).1
  unfolding transition
  transition-Follows db current to key evidence = checked_Follows db current to key evidence _ refl

  -- An update that is written leaves the note and the row that a later call finds.
  replay_found :
      (db : b.Db) (current : FulfilmentSnapshot) (to : FulfilmentStatus) (key : String)
      (evidence : FulfilmentEvidence) (n : StoredTransition) (r : StoredFulfilment) (db1 db2 : b.Db)
      → b.create_transition db (asked b current to key evidence) ≡ (wrote n, db1)
      → b.update_fulfilment db1 current.id to evidence ≡ (wrote r, db2)
      → (b.transition_of db2 current.id key ≡ some (asked b current to key evidence))
        × (b.fulfilment_of db2 current.id ≡ some r)
        × (r.status ≡ to)
  replay_found db current to key evidence n r db1 db2 noted written =
      let (st, there) = laws.update_found db1 current.id to evidence r db2 current.id written in
      (
        ap (λ x. b.transition_of x.1 current.id key) (sym written)
            ∙ laws.update_notes db1 current.id to evidence current.id key
            ∙ laws.note_found db (asked b current to key evidence) n db1 noted,
        there ∙ rw (==_refl current.id) refl,
        st,
      )

  -- A transition of the stored status that passes the checks, whose key is free and whose note and
  -- update are written, is answered with the updated row; the very same call sent again is refused as
  -- another transition under the key, and changes nothing.
  pub replayed-IsRefused :
      (db : b.Db) {db1 db2 : b.Db} (current : FulfilmentSnapshot) (to : FulfilmentStatus)
      (key : String) (evidence : FulfilmentEvidence) {n : StoredTransition}
      (old r : StoredFulfilment)
      → check_transition current.status to evidence ≡ ok to
      → b.transition_of db current.id key ≡ none
      → b.fulfilment_of db current.id ≡ some old
      → old.status ≡ current.status
      → b.create_transition db (asked b current to key evidence) ≡ (wrote n, db1)
      → b.update_fulfilment db1 current.id to evidence ≡ (wrote r, db2)
      → (transition (adapter b) db current to key evidence ≡ (ok (snapshot r), db2))
        × (transition (adapter b) db2 current to key evidence ≡ (throws reused_for_another, db2))
  unfolding transition moved move move_by move_stored replay_or_move recorded updated throw_if
  replayed-IsRefused db {db1} {db2} current to key evidence old r valid free at from noted written =
      let (allowed, _, _, _) = check_transition-ok current.status to evidence valid in
      let same : eq_status old.status current.status ≡ true =
        ap (λ s. eq_status s current.status) from ∙ eq_status_refl current.status in
      let (kept, there, st) = replay_found db current to key evidence _ r db1 db2 noted written in
      let differs : eq_status current.status r.status ≡ false =
        ap (λ s. eq_status current.status s) st ∙ move_differs current.status to allowed in
      (rw (valid, free, at, same, noted, written) refl, rw (valid, kept, there, differs) refl)
