-- ===== src/Orders/Final.antt =====
-- The headline properties of the classification of a resource in
-- baobab/orders/native-commitment-classification.ts over histories of calls of the store.
use baobab_trade.Prelude.{
  ℕ, ◌≡◌, refl, sym, ap, ◌∙◌, Bool, true, false, ◌==◌, Option, none, some, List, [], ◌∷◌, filter,
  find, inl, inr, ◌⊎◌, Bool-cases, arith, mem-filter, filter-mem, find-mem, ==_refl,
}
use baobab_trade.Orders.Provenance.{WireFields, NewClassification, Classification}
use baobab_trade.Orders.Store.{
  is_active, is_of, same_commitment, Table, quarantine, Stored, created, existing, changed,
  store_fails, inserted, answer_active, answer_rows, classify_row,
}
use baobab_trade.Orders.Answers.{created-Answers, existing-Answers}
use baobab_trade.Orders.Retired.{
  Attempt, attempt, serve, serve-Fixed, mem-quarantine, quarantine-HasRows, of_same, not_empty,
}
use baobab_trade.Orders.Once.{
  find-none, of_w, quarantined_off, Standing, Retired, Repeats, Standing-Repeats, created_Standing,
}

module _ (w : WireFields) (c : Classification) where
  quarantined_Retired :
      (row : NewClassification) (t : Table) (d : Classification)
      → ((d : Classification) → is_of row.wire d ≡ true → is_of w d ≡ true)
      → find (λ d. is_active d.status) (filter (is_of row.wire) t) ≡ some d
      → Standing w c t
      → Retired w c (quarantine d.wire.classification_id t)
  quarantined_Retired row t d from f h =
      let (m, act) = find-mem (λ d. is_active d.status) (filter (is_of row.wire) t) f in
      let (there, of) = filter-mem (is_of row.wire) t m in
      let is_c : d ≡ c = h.only d there (from d of) act in
      record {
        rows = quarantine-HasRows w d.wire.classification_id t h.rows;
        only = λ x n of_x act_x.
            let x_is_c : x ≡ c =
              h.only x (mem-quarantine d.wire.classification_id t x n act_x) of_x act_x in
            let ids : (x.wire.classification_id == d.wire.classification_id) ≡ true =
              ap (λ y. y.wire.classification_id == d.wire.classification_id) (x_is_c ∙ sym is_c)
              ∙ ==_refl d.wire.classification_id in
            clash act_x (quarantined_off d.wire.classification_id t x n ids);
      }
    where
      clash : {p : Bool} → p ≡ true → p ≡ false → ⊥
      clash x y = ground arith

  -- A contradicting answer leaves no active row of the resource.
  answer_Retired :
      (row : NewClassification) (t : Table) (o : Option Classification)
      → ((d : Classification) → is_of w d ≡ true → is_of row.wire d ≡ true)
      → ((d : Classification) → is_of row.wire d ≡ true → is_of w d ≡ true)
      → find (λ d. is_active d.status) (filter (is_of row.wire) t) ≡ o
      → (answer_active row t o).0 ≡ changed
      → Standing w c t
      → Retired w c (answer_active row t o).1
  unfolding answer_active
  answer_Retired row t none to from f e h = record {
    rows = h.rows;
    only = λ d m of act. clash act (find-none _ _ f (mem-filter (is_of row.wire) t m (to d of)));
  }
    where
      clash : {p : Bool} → p ≡ true → p ≡ false → ⊥
      clash x y = ground arith
  answer_Retired row t (some d) to from f e h =
      elim (Bool-cases (same_commitment d.wire row.wire)) [
        | inl same ↦ absurd (let q : existing d ≡ changed = rw same at e in ground arith)
        | inr other ↦ rw other (quarantined_Retired row t d from f h)
      ]

  rows_Retired :
      (row : NewClassification) (now : ℕ) (t : Table) (rows : List Classification)
      → ((d : Classification) → is_of w d ≡ true → is_of row.wire d ≡ true)
      → ((d : Classification) → is_of row.wire d ≡ true → is_of w d ≡ true)
      → filter (is_of row.wire) t ≡ rows
      → (answer_rows row now t rows).0 ≡ changed
      → Standing w c t
      → Retired w c (answer_rows row now t rows).1
  unfolding answer_rows
  rows_Retired row now t [] to from e f h = absurd (let q : created _ ≡ changed = f in ground arith)
  rows_Retired row now t (d ∷ ds) to from e f h =
      answer_Retired row t _ to from (ap (λ x. find (λ d. is_active d.status) x) e) f h

  changed-Retired :
      (a : Attempt) (t : Table)
      → is_of w (inserted a.row a.now) ≡ true
      → (attempt a t).0 ≡ changed
      → Standing w c t
      → Retired w c (attempt a t).1
  unfolding classify_row
  changed-Retired a t same f h = elim (Bool-cases a.refused) [
    | inl e ↦ absurd (let q : store_fails ≡ changed = rw e at f in ground arith)
    | inr e ↦ rw e (
        rows_Retired a.row a.now t _ (λ d of. of_same a.row a.now w d same of)
          (λ d of. of_w a w d same of) refl (rw e at f) h)
  ]

  Retired-answer :
      (a : Attempt) (t : Table) (r : Stored × Table)
      → is_of w (inserted a.row a.now) ≡ true
      → Retired w c t
      → attempt a t ≡ r
      → ((attempt a t).0 ≡ changed) ⊎ ((attempt a t).0 ≡ store_fails)
  Retired-answer a t (changed, t') same h e = inl (ap (λ x. x.0) e)
  Retired-answer a t (store_fails, t') same h e = inr (ap (λ x. x.0) e)
  Retired-answer a t (created d, t') same h e =
      let (_, _, empty) = created-Answers a.row a.now t a.refused e in
      let (d0, m0, of0) = h.rows in
      absurd (not_empty a.row.wire t (d0, m0, of_same a.row a.now w d0 same of0) empty)
  Retired-answer a t (existing d, t') same h e =
      let (ans, last, there) = existing-Answers a.row a.now t a.refused e in
      absurd (h.only d there (of_w a w d same ans.of_resource) (ap is_active ans.in_force))

module _ (first : Attempt) (t : Table) (c : Classification) {t1 : Table}
    (first_is_new : attempt first t ≡ (created c, t1)) where
  -- Once a resource is classified, every later call about it, after any history of calls, is answered
  -- with that very classification, which it agrees with, or as a contradiction, or the database
  -- refuses it and nothing is changed; it is never classified anew.
  pub classified-Once :
      (history : List Attempt) (a : Attempt)
      → is_of first.row.wire (inserted a.row a.now) ≡ true
      → Repeats first.row.wire c a (serve history t1)
  classified-Once history a same =
      let standing =
        serve-Fixed first.row.wire (λ d. d ≡ c) history t1
          (created_Standing first.row.wire c first t refl first_is_new) in
      Standing-Repeats first.row.wire c a (serve history t1) _ same standing refl

  -- Once a later call about the resource was answered as a contradiction, every further call about
  -- it, after any history of calls, is answered so too, or the database refuses it.
  pub changed-IsFinal :
      (history : List Attempt) (a : Attempt) (history' : List Attempt) (a' : Attempt)
      → is_of first.row.wire (inserted a.row a.now) ≡ true
      → (attempt a (serve history t1)).0 ≡ changed
      → is_of first.row.wire (inserted a'.row a'.now) ≡ true
      → let t2 = (attempt a (serve history t1)).1 in
        ((attempt a' (serve history' t2)).0 ≡ changed)
        ⊎ ((attempt a' (serve history' t2)).0 ≡ store_fails)
  changed-IsFinal history a history' a' same contradicts same' =
      let w = first.row.wire in
      let standing =
        serve-Fixed w (λ d. d ≡ c) history t1 (created_Standing w c first t refl first_is_new) in
      let retired = changed-Retired w c a (serve history t1) same contradicts standing in
      let t3 = serve history' (attempt a (serve history t1)).1 in
      Retired-answer w c a' t3 _ same' (serve-Fixed w (λ d. ⊥) history' _ retired) refl
