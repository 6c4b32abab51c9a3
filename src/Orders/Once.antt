-- ===== src/Orders/Once.antt =====
-- A resource of baobab/orders/native-commitment-classification.ts is classified once; an answer that
-- contradicts it retires the resource for good.
use baobab_trade.Prelude.{
  ℕ, ◌≡◌, refl, sym, ap, ◌∙◌, String, Bool, true, false, ◌==◌, ◌&&◌, Option, none, some, List, [],
  ◌∷◌, find, inl, inr, Bool-cases, arith, subst, Memᴰ, ==_refl, eq_of_==, and_true,
}
use baobab_trade.Orders.Provenance.{WireFields, NewClassification, Classification}
use baobab_trade.Orders.Store.{
  is_active, is_of, same_commitment, Table, quarantine_row, quarantine, Stored, created, existing,
  changed, store_fails, inserted, answer_active, answer_rows, classify_row,
}
use baobab_trade.Orders.Answers.{
  Agrees, created-Answers, existing-Answers, eq_type-eq, eq_type_refl,
}
use baobab_trade.Orders.Retired.{Attempt, attempt, Fixed, not_empty, of_same}

pub find-none {ℓ} :
    {A : Type ℓ} (p : A → Bool) (xs : List A) {x : A} → find p xs ≡ none → Memᴰ x xs → p x ≡ false
find-none p [] h m = elim m [ ]
find-none {A = A} p (y ∷ xs) h m = elim (Bool-cases (p y)) [
  | inl e ↦ absurd (let q : some y ≡ none = rw e at h in ground arith)
  | inr e ↦ step m (find-none p xs (rw e at h)) e
]
  where
    step : {x : A} → Memᴰ x (y ∷ xs) → (Memᴰ x xs → p x ≡ false) → p y ≡ false → p x ≡ false
    step (Memᴰ.head q) k e = ap p q ∙ e
    step (Memᴰ.tail n) k e = k n

quarantined_row_off :
    (id : String) (c : Classification)
    → ((quarantine_row id c).wire.classification_id == id) ≡ true
    → is_active (quarantine_row id c).status ≡ false
unfolding quarantine_row
quarantined_row_off id c h =
    elim (Bool-cases (c.wire.classification_id == id && is_active c.status)) [
      | inl e ↦ rw e refl
      | inr e ↦ rw e (idle (c.wire.classification_id == id) (is_active c.status) (rw e at h) e)
    ]
  where
    idle : (x y : Bool) → x ≡ true → (x && y) ≡ false → y ≡ false
    idle x y p q = ground arith

-- After a quarantine no row of the id is active.
pub quarantined_off :
    (id : String) (t : Table) (d : Classification)
    → Memᴰ d (quarantine id t)
    → (d.wire.classification_id == id) ≡ true
    → is_active d.status ≡ false
unfolding quarantine
quarantined_off id [] d m e = elim m [ ]
quarantined_off id (c ∷ t) d (Memᴰ.tail m) e = quarantined_off id t d m e
quarantined_off id (c ∷ t) d (Memᴰ.head q) e =
    off c (ap (λ x. x.wire.classification_id == id) (sym q) ∙ e) q
  where
    off :
        (c : Classification)
        → ((quarantine_row id c).wire.classification_id == id) ≡ true
        → d ≡ quarantine_row id c
        → is_active d.status ≡ false
    off c e q = ap (λ x. is_active x.status) q ∙ quarantined_row_off id c e

pub of_w :
    (a : Attempt) (w : WireFields) (d : Classification)
    → is_of w (inserted a.row a.now) ≡ true
    → is_of a.row.wire d ≡ true
    → is_of w d ≡ true
unfolding is_of inserted
of_w a w d e f =
    let (t1, i1) = and_true _ _ e in
    let (t2, i2) = and_true _ _ f in
    let types : d.wire.resource_type ≡ w.resource_type = eq_type-eq _ _ t2 ∙ eq_type-eq _ _ t1 in
    let ids : d.wire.resource_id ≡ w.resource_id = eq_of_== _ _ i2 ∙ eq_of_== _ _ i1 in
    rw (types, ids, eq_type_refl w.resource_type, ==_refl w.resource_id) refl

active_known :
    (row : NewClassification) (t : Table) (o : Option Classification) {t' : Table}
    → ¬ (answer_active row t o ≡ (store_fails, t'))
unfolding answer_active
active_known row t none h = let q : changed ≡ store_fails = ap (λ x. x.0) h in ground arith
active_known row t (some d) h = elim (Bool-cases (same_commitment d.wire row.wire)) [
  | inl e ↦ let q : existing d ≡ store_fails = ap (λ x. x.0) (rw e at h) in ground arith
  | inr e ↦ let q : changed ≡ store_fails = ap (λ x. x.0) (rw e at h) in ground arith
]

pub rows_known :
    (row : NewClassification) (now : ℕ) (t : Table) (rows : List Classification) {t' : Table}
    → ¬ (answer_rows row now t rows ≡ (store_fails, t'))
unfolding answer_rows
rows_known row now t [] h =
    let q : created (inserted row now) ≡ store_fails = ap (λ x. x.0) h in ground arith
rows_known row now t (c ∷ cs) h = active_known row t _ h

failed_same : (a : Attempt) (t : Table) {t' : Table} → attempt a t ≡ (store_fails, t') → t' ≡ t
unfolding classify_row
failed_same a t h = elim (Bool-cases a.refused) [
  | inl e ↦ sym (ap (λ x. x.1) (rw e at h))
  | inr e ↦ absurd (rows_known _ _ _ _ (rw e at h))
]

module _ (w : WireFields) (c : Classification) where
  -- The resource of the first classification, with that one as its only active row.
  abbrev pub Standing : Table → Type 0
  Standing = Fixed w (λ d. d ≡ c)

  -- No row of the resource is active any more.
  abbrev pub Retired : Table → Type 0
  Retired = Fixed w (λ d. ⊥)

  -- What a call about the resource answers once it is classified.
  pub data Repeats (a : Attempt) (t : Table) : Type 0 where
    again : attempt a t ≡ (existing c, t) → Agrees c.wire a.row.wire → Repeats a t
    contradicted : (attempt a t).0 ≡ changed → Repeats a t
    unavailable : attempt a t ≡ (store_fails, t) → Repeats a t

  same_resource :
      (a : Attempt) (d : Classification)
      → is_of w (inserted a.row a.now) ≡ true
      → is_of a.row.wire d ≡ true
      → is_of w d ≡ true
  same_resource a d e f = of_w a w d e f

  pub Standing-Repeats :
      (a : Attempt) (t : Table) (r : Stored × Table)
      → is_of w (inserted a.row a.now) ≡ true
      → Standing t
      → attempt a t ≡ r
      → Repeats a t
  Standing-Repeats a t (changed, t') same h e = contradicted (ap (λ x. x.0) e)
  Standing-Repeats a t (store_fails, t') same h e =
      unavailable (e ∙ ap (λ x. (store_fails, x)) (failed_same a t e))
  Standing-Repeats a t (created d, t') same h e =
      let (_, _, empty) = created-Answers a.row a.now t a.refused e in
      let (d0, m0, of0) = h.rows in
      absurd (not_empty a.row.wire t (d0, m0, of_same a.row a.now w d0 same of0) empty)
  Standing-Repeats a t (existing d, t') same h e =
      let (ans, last, there) = existing-Answers a.row a.now t a.refused e in
      let is_c : d ≡ c =
        h.only d there (same_resource a d same ans.of_resource) (ap is_active ans.in_force) in
      again (e ∙ ap (λ x. (existing x, t')) is_c ∙ ap (λ x. (existing c, x)) last)
        (subst (λ x. Agrees x.wire a.row.wire) is_c ans.agrees)

  pub created_Standing :
      (first : Attempt) (t : Table) {t' : Table}
      → w ≡ first.row.wire
      → attempt first t ≡ (created c, t')
      → Standing t'
  created_Standing first t {t'} is_w e =
      let (ans, last, empty) = created-Answers first.row first.now t first.refused e in
      let of : is_of w c ≡ true = ap (λ x. is_of x c) is_w ∙ ans.of_resource in
      subst Standing (sym last) (record {
        rows = (c, Memᴰ.head refl, of);
        only = λ d m of_d act.
            elim_head d m
              (λ n. not_empty first.row.wire t (d, n, ap (λ x. is_of x d) (sym is_w) ∙ of_d) empty);
      })
    where
      elim_head : {t : Table} (d : Classification) → Memᴰ d (c ∷ t) → (Memᴰ d t → ⊥) → d ≡ c
      elim_head d (Memᴰ.head q) k = q
      elim_head d (Memᴰ.tail n) k = absurd (k n)
