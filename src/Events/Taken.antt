-- ===== src/Events/Taken.antt =====
-- What an answered `enqueue` of baobab/events/outbox.ts leaves under its key, and what the key answers
-- later.
use baobab_trade.Prelude.{
  ◌≡◌, refl, sym, ap, ◌∙◌, String, true, false, ◌==◌, Option, none, some, inl, inr, Bool-cases,
  arith, eq_of_==, if◌then◌else◌, not,
}
use baobab_trade.Events.Outbox.{OutboxRecord, RetryPolicy, Store, Updated, updated, fails}
use baobab_trade.Events.Kept.{IsStore}
use baobab_trade.Events.Enqueue.{
  Reading, Enqueued, ok, throws, collision, answer_existing, settle_insert, create_answer, create,
  enqueue_answer, enqueue_keyed, enqueue,
}
use baobab_trade.Events.Histories.{History, history-Kept}

module _ {Event : Type 0} (reading : Reading Event) (s : Store Event) (laws : IsStore s) where
  -- What an enqueue that is answered leaves under its key.
  record Taken (db : s.Db) (e : Event) (id : String) : Type 0 where
    key : String
    read : reading.idempotency_key e ≡ some key
    full : (key == "") ≡ false
    row : OutboxRecord Event
    at : s.by_key db key ≡ some row
    same_id : row.id ≡ id
    same_event : reading.fingerprint row.envelope ≡ reading.fingerprint e

  existing_Taken :
      (db : s.Db) (e : Event) (key : String) (row : OutboxRecord Event) {r : OutboxRecord Event}
      {db' : s.Db}
      → reading.idempotency_key e ≡ some key
      → (key == "") ≡ false
      → s.by_key db key ≡ some row
      → ◌≡◌ {A = Enqueued Event × s.Db} (answer_existing reading s e row, db) (ok r, db')
      → Taken db' e r.id
  unfolding answer_existing
  existing_Taken db e key row {r} {db'} read full at h =
      elim (Bool-cases (reading.fingerprint row.envelope == reading.fingerprint e)) [
        | inl same ↦
            let q : ok row ≡ ok r = ap (λ x. x.0) (rw same at h) in
            let q' : row ≡ r = cc in
            record {
              key = key;
              read = read;
              full = full;
              row = row;
              at = ap (λ x. s.by_key x key) (sym (ap (λ x. x.1) h)) ∙ at;
              same_id = ap (λ x. x.id) q';
              same_event = eq_of_== _ _ same;
            }
        | inr other ↦
            absurd (let q : throws collision ≡ ok r = ap (λ x. x.0) (rw other at h) in ground arith)
      ]

  inserted_Taken :
      (db : s.Db) (e : Event) (key : String) (w : Updated Event × s.Db) {r : OutboxRecord Event}
      {db' : s.Db}
      → reading.idempotency_key e ≡ some key
      → (key == "") ≡ false
      → s.insert db e key ≡ w
      → settle_insert reading s w ≡ (ok r, db')
      → Taken db' e r.id
  unfolding settle_insert
  inserted_Taken db e key (fails c, d) read full i h =
      absurd (let q : throws _ ≡ ok _ = ap (λ x. x.0) h in ground arith)
  inserted_Taken db e key (updated row, d) {r} read full i h =
      let q : ok row ≡ ok r = ap (λ x. x.0) h in
      let q' : row ≡ r = cc in
      let (there, same) = laws.insert_found db e key row d i in
      record {
        key = key;
        read = read;
        full = full;
        row = row;
        at = ap (λ x. s.by_key x key) (sym (ap (λ x. x.1) h)) ∙ there;
        same_id = ap (λ x. x.id) q';
        same_event = ap (λ x. reading.fingerprint x) same;
      }

  created_Taken :
      (db : s.Db) (e : Event) (key : String) (o : Option (OutboxRecord Event))
      {r : OutboxRecord Event} {db' : s.Db}
      → reading.idempotency_key e ≡ some key
      → (key == "") ≡ false
      → s.by_key db key ≡ o
      → create_answer reading s db e key o ≡ (ok r, db')
      → Taken db' e r.id
  unfolding create_answer
  created_Taken db e key none read full at h = inserted_Taken db e key _ read full refl h
  created_Taken db e key (some row) read full at h = existing_Taken db e key row read full at h

  answered_Taken :
      (db : s.Db) (e : Event) (key : String) (o : Option (OutboxRecord Event))
      {r : OutboxRecord Event} {db' : s.Db}
      → reading.idempotency_key e ≡ some key
      → (key == "") ≡ false
      → s.by_key db key ≡ o
      → enqueue_answer reading s db e key o ≡ (ok r, db')
      → Taken db' e r.id
  unfolding enqueue_answer create
  answered_Taken db e key none read full at h = created_Taken db e key _ read full refl h
  answered_Taken db e key (some row) read full at h = existing_Taken db e key row read full at h

  keyed_Taken :
      (db : s.Db) (e : Event) (k : Option String) {r : OutboxRecord Event} {db' : s.Db}
      → reading.idempotency_key e ≡ k
      → enqueue_keyed reading s db e k ≡ (ok r, db')
      → Taken db' e r.id
  unfolding enqueue_keyed
  keyed_Taken db e none read h = absurd (let q : throws _ ≡ ok _ = ap (λ x. x.0) h in ground arith)
  keyed_Taken db e (some key) read h = elim (Bool-cases (key == "")) [
    | inl empty ↦ absurd (let q : throws _ ≡ ok _ = ap (λ x. x.0) (rw empty at h) in ground arith)
    | inr full ↦ answered_Taken db e key _ read full refl (rw full at h)
  ]

  enqueued_Taken :
      (db : s.Db) (e : Event) {r : OutboxRecord Event} {db' : s.Db}
      → enqueue reading s db e ≡ (ok r, db')
      → Taken db' e r.id
  unfolding enqueue
  enqueued_Taken db e h = elim (Bool-cases (reading.is_valid e)) [
    | inl valid ↦ keyed_Taken db e _ refl (rw valid at h)
    | inr other ↦ absurd (let q : throws _ ≡ ok _ = ap (λ x. x.0) (rw other at h) in ground arith)
  ]

  -- The answer to a valid event whose key is taken.
  taken_answer :
      (db : s.Db) (e : Event) (key : String) (row : OutboxRecord Event)
      → reading.is_valid e ≡ true
      → reading.idempotency_key e ≡ some key
      → (key == "") ≡ false
      → s.by_key db key ≡ some row
      → enqueue reading s db e ≡ (answer_existing reading s e row, db)
  unfolding enqueue enqueue_keyed enqueue_answer
  taken_answer db e key row valid read full at = rw (valid, read, full, at) refl

  -- After an event was enqueued and any later history, a valid event under the same key is answered
  -- with the record of that id where it has the same fingerprint, and is a collision where it has
  -- another; nothing is changed or added.
  pub enqueued-IsAnswered :
      (policy : RetryPolicy) (db : s.Db) {db' db2 : s.Db} (e e' : Event) {r : OutboxRecord Event}
      → enqueue reading s db e ≡ (ok r, db')
      → History reading s policy db' db2
      → reading.is_valid e' ≡ true
      → reading.idempotency_key e' ≡ reading.idempotency_key e
      → (r' : OutboxRecord Event) × (r'.id ≡ r.id)
        × (enqueue reading s db2 e' ≡ (
          if not (reading.fingerprint e == reading.fingerprint e') then throws collision else ok r',
          db2,
        ))
  unfolding answer_existing
  enqueued-IsAnswered policy db {db2 = db2} e e' h later valid key =
      let t = enqueued_Taken db e h in
      let (row, at, same, kept) =
        (history-Kept reading s policy laws later).keyed t.key t.row t.at in
      let print : reading.fingerprint row.envelope ≡ reading.fingerprint e =
        ap (λ x. reading.fingerprint x) kept ∙ t.same_event in
      (
        row,
        same ∙ t.same_id,
        taken_answer db2 e' t.key row valid (key ∙ t.read) t.full at ∙ rw print refl,
      )
