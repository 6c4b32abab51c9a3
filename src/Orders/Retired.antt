-- ===== src/Orders/Retired.antt =====
-- A classification of baobab/orders/native-commitment-classification.ts never changes: what the store
-- answers for a resource after it was classified, over any history of classifications.
use baobab_trade.Prelude.{
  ℕ, ◌≡◌, refl, sym, ap, ◌∙◌, String, Bool, true, false, ◌==◌, ◌&&◌, Option, none, some, List, [],
  ◌∷◌, filter, inl, inr, ◌⊎◌, Bool-cases, arith, subst, mem-filter, Memᴰ, and_true, eq_of_==,
  ==_refl,
}
use baobab_trade.Orders.Provenance.{WireFields, NewClassification, Classification}
use baobab_trade.Orders.Store.{
  is_active, is_of, same_commitment, Table, quarantine_row, quarantine, Stored, inserted,
  answer_active, answer_rows, classify_row,
}
use baobab_trade.Orders.Answers.{eq_type-eq, eq_type_refl}

quarantined_row :
    (id : String) (c : Classification)
    → (quarantine_row id c ≡ c) ⊎ (is_active (quarantine_row id c).status ≡ false)
unfolding quarantine_row
quarantined_row id c = elim (Bool-cases (c.wire.classification_id == id && is_active c.status)) [
  | inl e ↦ inr (rw e refl)
  | inr e ↦ inl (rw e refl)
]

quarantined_of :
    (w : WireFields) (id : String) (c : Classification) → is_of w (quarantine_row id c) ≡ is_of w c
unfolding quarantine_row is_of
quarantined_of w id c = elim (Bool-cases (c.wire.classification_id == id && is_active c.status)) [
  | inl e ↦ rw e refl
  | inr e ↦ rw e refl
]

-- An active row after a quarantine was there before it.
pub mem-quarantine :
    (id : String) (t : Table) (d : Classification)
    → Memᴰ d (quarantine id t)
    → is_active d.status ≡ true
    → Memᴰ d t
unfolding quarantine
mem-quarantine id [] d m a = elim m [ ]
mem-quarantine id (c ∷ t) d (Memᴰ.head e) a = elim (quarantined_row id c) [
  | inl same ↦ Memᴰ.head (e ∙ same)
  | inr off ↦ absurd (clash (ap (λ x. is_active x.status) e) a off)
]
  where
    clash : {p q : Bool} → p ≡ q → p ≡ true → q ≡ false → ⊥
    clash x y z = ground arith
mem-quarantine id (c ∷ t) d (Memᴰ.tail m) a = Memᴰ.tail (mem-quarantine id t d m a)

-- Two resources that share a row are one.
pub of_same :
    (row : NewClassification) (now : ℕ) (w : WireFields) (d : Classification)
    → is_of w (inserted row now) ≡ true
    → is_of w d ≡ true
    → is_of row.wire d ≡ true
unfolding is_of inserted
of_same row now w d e f =
    let (t1, i1) = and_true _ _ e in
    let (t2, i2) = and_true _ _ f in
    let types : d.wire.resource_type ≡ row.wire.resource_type =
      eq_type-eq _ _ t2 ∙ sym (eq_type-eq _ _ t1) in
    let ids : d.wire.resource_id ≡ row.wire.resource_id = eq_of_== _ _ i2 ∙ sym (eq_of_== _ _ i1) in
    rw (types, ids, eq_type_refl row.wire.resource_type, ==_refl row.wire.resource_id) refl

-- Some row of the table is of the resource.
abbrev pub HasRows : WireFields → Table → Type 0
HasRows w t = (d : Classification) × Memᴰ d t × (is_of w d ≡ true)

pub quarantine-HasRows :
    (w : WireFields) (id : String) (t : Table) → HasRows w t → HasRows w (quarantine id t)
unfolding quarantine
quarantine-HasRows w id [] (d, m, of) = elim m [ ]
quarantine-HasRows w id (c ∷ t) (d, Memᴰ.head e, of) =
    (quarantine_row id c, Memᴰ.head refl, quarantined_of w id c ∙ ap (λ x. is_of w x) (sym e) ∙ of)
quarantine-HasRows w id (c ∷ t) (d, Memᴰ.tail m, of) =
    let (d', m', of') = quarantine-HasRows w id t (d, m, of) in (d', Memᴰ.tail m', of')

pub not_empty : (w : WireFields) (t : Table) → HasRows w t → ¬ (filter (is_of w) t ≡ [])
not_empty w t (d, m, of) e = gone (subst (λ x. Memᴰ d x) e (mem-filter (is_of w) t m of))
  where
    gone : {d : Classification} → Memᴰ d [] → ⊥
    gone m = elim m [ ]

-- One call: a new classification, at a time, that the database may refuse.
pub record Attempt : Type 0 where
  pub row : NewClassification
  pub now : ℕ
  pub refused : Bool

abbrev pub attempt : Attempt → Table → Stored × Table
attempt a t = classify_row a.refused a.row a.now t

unfoldable pub serve : List Attempt → Table → Table
serve [] t = t
serve (a ∷ later) t = serve later (attempt a t).1

module _ (w : WireFields) (P : Classification → Type 0) where
  -- The resource has rows, and its active rows are of this kind.
  pub record Fixed (t : Table) : Type 0 where
    pub rows : HasRows w t
    pub only : (d : Classification) → Memᴰ d t → is_of w d ≡ true → is_active d.status ≡ true → P d

  pub quarantine-Fixed : (id : String) (t : Table) → Fixed t → Fixed (quarantine id t)
  quarantine-Fixed id t h = record {
    rows = quarantine-HasRows w id t h.rows;
    only = λ d m of act. h.only d (mem-quarantine id t d m act) of act;
  }

  active_Fixed :
      (row : NewClassification) (t : Table) (o : Option Classification)
      → Fixed t
      → Fixed (answer_active row t o).1
  unfolding answer_active
  active_Fixed row t none h = h
  active_Fixed row t (some c) h = elim (Bool-cases (same_commitment c.wire row.wire)) [
    | inl same ↦ rw same h
    | inr other ↦ rw other (quarantine-Fixed c.wire.classification_id t h)
  ]

  -- A new row is of another resource.
  inserted-Fixed :
      (row : NewClassification) (now : ℕ) (t : Table)
      → filter (is_of row.wire) t ≡ []
      → Fixed t
      → Fixed (inserted row now ∷ t)
  inserted-Fixed row now t empty h =
      let (d0, m0, of0) = h.rows in
      record { rows = (d0, Memᴰ.tail m0, of0); only = λ d m of act. other_row d m of act }
    where
      not_here : is_of w (inserted row now) ≡ true → ⊥
      not_here e =
          let (d0, m0, of0) = h.rows in
          not_empty row.wire t (d0, m0, of_same row now w d0 e of0) empty

      other_row :
          (d : Classification)
          → Memᴰ d (inserted row now ∷ t)
          → is_of w d ≡ true
          → is_active d.status ≡ true
          → P d
      other_row d (Memᴰ.head e) of act = absurd (not_here (ap (λ x. is_of w x) (sym e) ∙ of))
      other_row d (Memᴰ.tail m) of act = h.only d m of act

  rows_Fixed :
      (row : NewClassification) (now : ℕ) (t : Table) (rows : List Classification)
      → filter (is_of row.wire) t ≡ rows
      → Fixed t
      → Fixed (answer_rows row now t rows).1
  unfolding answer_rows
  rows_Fixed row now t [] e h = inserted-Fixed row now t e h
  rows_Fixed row now t (c ∷ cs) e h = active_Fixed row t _ h

  pub attempt-Fixed : (a : Attempt) (t : Table) → Fixed t → Fixed (attempt a t).1
  unfolding classify_row
  attempt-Fixed a t h = elim (Bool-cases a.refused) [
    | inl e ↦ rw e h
    | inr e ↦ rw e (rows_Fixed a.row a.now t _ refl h)
  ]

  pub serve-Fixed : (later : List Attempt) (t : Table) → Fixed t → Fixed (serve later t)
  unfolding serve
  serve-Fixed [] t h = h
  serve-Fixed (a ∷ later) t h = serve-Fixed later _ (attempt-Fixed a t h)
