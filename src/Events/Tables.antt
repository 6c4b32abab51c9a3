-- ===== src/Events/Tables.antt =====
-- The outbox in a list of records keeps the documented behaviour of the service, IsStore.
use baobab_trade.Prelude.{
  ◌≡◌, refl, sym, ap, ◌∙◌, String, Bool, true, false, Option, none, some, inl, inr, arith, ◌==◌,
  if◌then◌else◌, Bool-cases, ==_refl, eq_of_==, List, [], ◌∷◌, ◌++◌, find, find-mem,
}
use baobab_trade.Events.Outbox.{
  updated, fails, Change, claims, marks_published, marks_retry, marks_dead_letter, apply,
}
use baobab_trade.Events.Kept.{IsStore}
use baobab_trade.Events.Rows.{
  Message, Row, new_row, row_of, row_under, set_rows, update_rows, insert_row, list_store,
}

apply-id :
    (ch : Change) (r : Row)
    → ((apply ch r).id ≡ r.id)
      × ((apply ch r).idempotency_key ≡ r.idempotency_key)
      × ((apply ch r).envelope ≡ r.envelope)
unfolding apply
apply-id (claims a l) r = (refl, refl, refl)
apply-id (marks_published t) r = (refl, refl, refl)
apply-id (marks_retry t c) r = (refl, refl, refl)
apply-id (marks_dead_letter c) r = (refl, refl, refl)

-- The row at the head, changed or not.
abbrev changed : String → Change → Row → Row
changed id ch r = if r.id == id then apply ch r else r

changed_lem :
    (id : String) (ch : Change) (r : Row)
    → ((changed id ch r).id ≡ r.id)
      × ((changed id ch r).idempotency_key ≡ r.idempotency_key)
      × ((changed id ch r).envelope ≡ r.envelope)
changed_lem id ch r = elim (Bool-cases (r.id == id)) [
  | inl e ↦ rw e (apply-id ch r)
  | inr e ↦ rw e (refl, refl, refl)
]

find_same :
    (id : String) (ch : Change) (rows : List Row) (r : Row)
    → row_of rows id ≡ some r
    → row_of (set_rows id ch rows) id ≡ some (apply ch r)
unfolding set_rows
find_same id ch [] r h = absurd (ground arith)
find_same id ch (x ∷ rows) r h = elim (Bool-cases (x.id == id)) [
  | inl e ↦
      let q : some x ≡ some r = rw e at h in
      let q' : x ≡ r = cc in
      let kept : ((apply ch x).id == id) ≡ true = ap (λ i. i == id) ((apply-id ch x).0) ∙ e in
      rw (e, kept) (ap (λ y. some (apply ch y)) q')
  | inr e ↦ rw (e, e) (find_same id ch rows r (rw e at h))
]

find_other :
    (id j : String) (ch : Change) (rows : List Row)
    → (id == j) ≡ false
    → row_of (set_rows id ch rows) j ≡ row_of rows j
unfolding set_rows
find_other id j ch [] n = refl
find_other id j ch (x ∷ rows) n = elim (Bool-cases (x.id == id)) [
  | inl e ↦
      let away : (x.id == j) ≡ false = rw (eq_of_== _ _ e) n in
      let kept : ((apply ch x).id == j) ≡ false = ap (λ i. i == j) ((apply-id ch x).0) ∙ away in
      rw (e, kept, away) (find_other id j ch rows n)
  | inr e ↦ elim (Bool-cases (x.id == j)) [
    | inl f ↦ rw (e, f) refl
    | inr f ↦ rw (e, f) (find_other id j ch rows n)
  ]
]

find_under :
    (id : String) (ch : Change) (rows : List Row) (k : String) (r : Row)
    → row_under rows k ≡ some r
    → (r' : Row) × (row_under (set_rows id ch rows) k ≡ some r')
      × (r'.id ≡ r.id)
      × (r'.envelope ≡ r.envelope)
unfolding set_rows
find_under id ch [] k r h = absurd (ground arith)
find_under id ch (x ∷ rows) k r h =
    let (i, key, v) = changed_lem id ch x in
    elim (Bool-cases (x.idempotency_key == k)) [
      | inl e ↦
          let q : some x ≡ some r = rw e at h in
          let q' : x ≡ r = cc in
          let kept : ((changed id ch x).idempotency_key == k) ≡ true = ap (λ y. y == k) key ∙ e in
          (changed id ch x, rw kept refl, i ∙ ap (λ y. y.id) q', v ∙ ap (λ y. y.envelope) q')
      | inr e ↦
          let kept : ((changed id ch x).idempotency_key == k) ≡ false = ap (λ y. y == k) key ∙ e in
          let (r', there, j, w) = find_under id ch rows k r (rw e at h) in (r', rw kept there, j, w)
    ]

module _ (p : Row → Bool) (more : List Row) where
  find-append : (rows : List Row) (r : Row) → find p rows ≡ some r → find p (rows ++ more) ≡ some r
  find-append [] r h = absurd (ground arith)
  find-append (x ∷ rows) r h = elim (Bool-cases (p x)) [
    | inl e ↦ rw e (rw e at h)
    | inr e ↦ rw e (find-append rows r (rw e at h))
  ]

  find-append_none : (rows : List Row) → find p rows ≡ none → find p (rows ++ more) ≡ find p more
  find-append_none [] h = refl
  find-append_none (x ∷ rows) h = elim (Bool-cases (p x)) [
    | inl e ↦ absurd (let q : some x ≡ none = rw e at h in ground arith)
    | inr e ↦ rw e (find-append_none rows (rw e at h))
  ]

module _ (rows : List Row) (id : String) (ch : Change) where
  update_done :
      (o : Option Row) (r' : Row) (rows' : List Row)
      → row_of rows id ≡ o
      → update_rows rows id ch o ≡ (updated r', rows')
      → (r : Row) × (row_of rows id ≡ some r) × (r' ≡ apply ch r)
  unfolding update_rows
  update_done none r' rows' at h =
      absurd (let q : fails _ ≡ updated r' = ap (λ x. x.0) h in ground arith)
  update_done (some r) r' rows' at h =
      let q : updated (apply ch r) ≡ updated r' = ap (λ x. x.0) h in (r, at, cc)

  update_found :
      (o : Option Row) (r' : Row) (rows' : List Row) (j : String)
      → row_of rows id ≡ o
      → update_rows rows id ch o ≡ (updated r', rows')
      → row_of rows' j ≡ (if id == j then some r' else row_of rows j)
  unfolding update_rows
  update_found none r' rows' j at h =
      absurd (let q : fails _ ≡ updated r' = ap (λ x. x.0) h in ground arith)
  update_found (some r) r' rows' j at h =
      let q : updated (apply ch r) ≡ updated r' = ap (λ x. x.0) h in
      let q' : apply ch r ≡ r' = cc in
      let here = ap (λ x. row_of x.1 j) (sym h) in
      elim (Bool-cases (id == j)) [
        | inl e ↦
            let same : row_of (set_rows id ch rows) j ≡ some (apply ch r) =
              ap (λ i. row_of (set_rows id ch rows) i) (sym (eq_of_== _ _ e))
              ∙ find_same id ch rows r at in
            here ∙ same ∙ rw e (ap some q')
        | inr e ↦ here ∙ find_other id j ch rows e ∙ rw e refl
      ]

  update_fails :
      (o : Option Row) (code : String) (rows' : List Row) (j : String)
      → update_rows rows id ch o ≡ (fails code, rows')
      → row_of rows' j ≡ row_of rows j
  unfolding update_rows
  update_fails none code rows' j h = ap (λ x. row_of x.1 j) (sym h)
  update_fails (some r) code rows' j h =
      absurd (let q : updated _ ≡ fails code = ap (λ x. x.0) h in ground arith)

  update_keys :
      (o : Option Row) (k : String) (r : Row)
      → row_under rows k ≡ some r
      → (r' : Row) × (row_under (update_rows rows id ch o).1 k ≡ some r')
        × (r'.id ≡ r.id)
        × (r'.envelope ≡ r.envelope)
  unfolding update_rows
  update_keys none k r at = (r, at, refl, refl)
  update_keys (some old) k r at = find_under id ch rows k r at

module _ (rows : List Row) (e : Message) (key : String) where
  insert_keeps :
      (o : Option Row) (p : Row → Bool) (r : Row)
      → find p rows ≡ some r
      → find p (insert_row rows e key o).1 ≡ some r
  unfolding insert_row
  insert_keeps none p r at = find-append p _ rows r at
  insert_keeps (some old) p r at = at

  insert_found :
      (o : Option Row) (r : Row) (rows' : List Row)
      → row_under rows key ≡ o
      → insert_row rows e key o ≡ (updated r, rows')
      → (row_under rows' key ≡ some r) × (r.envelope ≡ e)
  unfolding insert_row
  insert_found (some old) r rows' at h =
      absurd (let q : fails _ ≡ updated r = ap (λ x. x.0) h in ground arith)
  insert_found none r rows' at h =
      let q : updated (new_row e key) ≡ updated r = ap (λ x. x.0) h in
      let q' : new_row e key ≡ r = cc in
      let last : row_under (new_row e key ∷ []) key ≡ some (new_row e key) =
        rw (==_refl key) refl in
      (
        ap (λ x. row_under x.1 key) (sym h) ∙ find-append_none _ _ rows at ∙ last ∙ ap some q',
        ap (λ x. x.envelope) (sym q'),
      )

pub list_store-IsStore : IsStore list_store
list_store-IsStore = record {
  record_id = λ rows id r at. eq_of_== _ _ ((find-mem (λ x. x.id == id) rows at).1);
  update_done = λ rows id ch r' rows' h. update_done rows id ch _ r' rows' refl h;
  update_found = λ rows id ch r' rows' j h. update_found rows id ch _ r' rows' j refl h;
  update_fails = λ rows id ch code rows' j h. update_fails rows id ch _ code rows' j h;
  update_keys = λ rows id ch k r at. update_keys rows id ch _ k r at;
  insert_keeps = λ rows e k j r at. insert_keeps rows e k _ _ r at;
  insert_keys = λ rows e k j r at. insert_keeps rows e k _ _ r at;
  insert_found = λ rows e k r rows' h. insert_found rows e k _ r rows' refl h;
}

pub list_store_updates :
    (rows : List Row) (id : String) (ch : Change) (r : Row)
    → row_of rows id ≡ some r
    → (rows' : List Row) × (list_store.update rows id ch ≡ (updated (apply ch r), rows'))
unfolding update_rows
list_store_updates rows id ch r at = (set_rows id ch rows, rw at refl)
