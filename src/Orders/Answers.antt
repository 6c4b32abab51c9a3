-- ===== src/Orders/Answers.antt =====
-- What the store of baobab/orders/native-commitment-classification.ts answers: a classification that is
-- active, of the resource, and says what the new one says.
use baobab_trade.Prelude.{
  ℕ, ◌≡◌, refl, sym, ap, ◌∙◌, Bool, true, false, Option, none, some, List, [], ◌∷◌, filter, find,
  inl, inr, Bool-cases, arith, eq_of_==, ==_refl, eqb→eq, opt_eq-eq, and_true, find-mem, filter-mem,
  Memᴰ, subst,
}
use baobab_trade.Orders.Provenance.{
  CommerceModel, BuyerModel, WireFields, NewClassification, Classification, Status, active,
  ResourceType,
}
use baobab_trade.Orders.Store.{
  eq_type, eq_commerce, eq_buyer, is_active, is_of, same_commitment, Table, created, existing,
  changed, store_fails, inserted, answer_active, answer_rows, classify_row,
}

-- What two classifications of one commitment share.
pub record Agrees (c r : WireFields) : Type 0 where
  pub same_estate : c.digital_estate_id ≡ r.digital_estate_id
  pub same_tenant : c.tenant_id ≡ r.tenant_id
  pub same_market : c.market_id ≡ r.market_id
  pub same_model : c.commerce_model ≡ r.commerce_model
  pub same_profile : c.commerce_profile_id ≡ r.commerce_profile_id
  pub same_binding : c.binding_id ≡ r.binding_id
  pub same_version : c.binding_version ≡ r.binding_version
  pub same_account : c.buyer_account_model ≡ r.buyer_account_model
  pub same_organisation : c.buyer_organisation_id ≡ r.buyer_organisation_id
  pub same_consumer : c.consumer_reference ≡ r.consumer_reference

pub Agrees-refl : (w : WireFields) → Agrees w w
Agrees-refl w = record {
  same_estate = refl;
  same_tenant = refl;
  same_market = refl;
  same_model = refl;
  same_profile = refl;
  same_binding = refl;
  same_version = refl;
  same_account = refl;
  same_organisation = refl;
  same_consumer = refl;
}

eq_commerce-eq : (a b : CommerceModel) → eq_commerce a b ≡ true → a ≡ b
eq_commerce-eq a b h = ground arith

eq_buyer-eq : (a b : BuyerModel) → eq_buyer a b ≡ true → a ≡ b
eq_buyer-eq a b h = ground arith

pub eq_type-eq : (a b : ResourceType) → eq_type a b ≡ true → a ≡ b
eq_type-eq a b h = ground arith

pub eq_type_refl : (a : ResourceType) → eq_type a a ≡ true
eq_type_refl a = ground arith

pub same_commitment-Agrees : (c r : WireFields) → same_commitment c r ≡ true → Agrees c r
unfolding same_commitment
same_commitment-Agrees c r h =
    let (h1, k1) = and_true _ _ h in
    let (h2, k2) = and_true _ _ h1 in
    let (h3, k3) = and_true _ _ h2 in
    let (h4, k4) = and_true _ _ h3 in
    let (h5, k5) = and_true _ _ h4 in
    let (h6, k6) = and_true _ _ h5 in
    let (h7, k7) = and_true _ _ h6 in
    let (h8, k8) = and_true _ _ h7 in
    let (h9, k9) = and_true _ _ h8 in
    record {
      same_estate = eq_of_== _ _ h9;
      same_tenant = eq_of_== _ _ k9;
      same_market = eq_of_== _ _ k8;
      same_model = eq_commerce-eq _ _ k7;
      same_profile = eq_of_== _ _ k6;
      same_binding = eq_of_== _ _ k5;
      same_version = eqb→eq _ _ k4;
      same_account = eq_buyer-eq _ _ k3;
      same_organisation = opt_eq-eq _ _ k2;
      same_consumer = opt_eq-eq _ _ k1;
    }

pub is_of_refl : (row : NewClassification) (now : ℕ) → is_of row.wire (inserted row now) ≡ true
unfolding is_of inserted
is_of_refl row now = rw (eq_type_refl row.wire.resource_type, ==_refl row.wire.resource_id) refl

-- An answered classification.
pub record Answers (row : NewClassification) (c : Classification) : Type 0 where
  pub in_force : c.status ≡ active
  pub of_resource : is_of row.wire c ≡ true
  pub agrees : Agrees c.wire row.wire

is_active-eq : (s : Status) → is_active s ≡ true → s ≡ active
is_active-eq s h = ground arith

inserted-Answers : (row : NewClassification) (now : ℕ) → Answers row (inserted row now)
unfolding inserted
inserted-Answers row now = record {
  in_force = refl;
  of_resource = is_of_refl row now;
  agrees = Agrees-refl row.wire;
}

module _ (row : NewClassification) (now : ℕ) (t : Table) where
  -- The row that is found among those of the resource, if it is the answer.
  found-Answers :
      (o : Option Classification) {c : Classification} {t' : Table}
      → find (λ d. is_active d.status) (filter (is_of row.wire) t) ≡ o
      → answer_active row t o ≡ (existing c, t')
      → Answers row c × (t' ≡ t) × Memᴰ c t
  unfolding answer_active
  found-Answers none f h = absurd (let q : changed ≡ existing _ = ap (λ x. x.0) h in ground arith)
  found-Answers (some d) {c} f h = elim (Bool-cases (same_commitment d.wire row.wire)) [
    | inr other ↦
        absurd (let q : changed ≡ existing c = ap (λ x. x.0) (rw other at h) in ground arith)
    | inl same ↦
        let q : existing d ≡ existing c = ap (λ x. x.0) (rw same at h) in
        let q' : d ≡ c = cc in
        let last = ap (λ x. x.1) (rw same at h) in
        let (m, act) = find-mem (λ d. is_active d.status) (filter (is_of row.wire) t) f in
        let (there, of) = filter-mem (is_of row.wire) t m in
        (
          record {
            in_force = is_active-eq _ (ap (λ x. is_active x.status) (sym q') ∙ act);
            of_resource = ap (λ x. is_of row.wire x) (sym q') ∙ of;
            agrees =
                same_commitment-Agrees _ _
                  (ap (λ x. same_commitment x.wire row.wire) (sym q') ∙ same);
          },
          sym last,
          subst (λ x. Memᴰ x t) q' there,
        )
  ]

  not_created :
      (o : Option Classification) {c : Classification} {t' : Table}
      → ¬ (answer_active row t o ≡ (created c, t'))
  unfolding answer_active
  not_created none {c} h = let q : changed ≡ created c = ap (λ x. x.0) h in ground arith
  not_created (some d) {c} h = elim (Bool-cases (same_commitment d.wire row.wire)) [
    | inr other ↦ let q : changed ≡ created c = ap (λ x. x.0) (rw other at h) in ground arith
    | inl same ↦ let q : existing d ≡ created c = ap (λ x. x.0) (rw same at h) in ground arith
  ]

  rows_existing :
      (rows : List Classification) {c : Classification} {t' : Table}
      → filter (is_of row.wire) t ≡ rows
      → answer_rows row now t rows ≡ (existing c, t')
      → Answers row c × (t' ≡ t) × Memᴰ c t
  unfolding answer_rows
  rows_existing [] {c} e h =
      absurd (let q : created _ ≡ existing c = ap (λ x. x.0) h in ground arith)
  rows_existing (d ∷ ds) e h = found-Answers _ (ap (λ x. find (λ d. is_active d.status) x) e) h

  rows_created :
      (rows : List Classification) {c : Classification} {t' : Table}
      → filter (is_of row.wire) t ≡ rows
      → answer_rows row now t rows ≡ (created c, t')
      → (inserted row now ≡ c) × (t' ≡ c ∷ t) × (filter (is_of row.wire) t ≡ [])
  unfolding answer_rows
  rows_created (d ∷ ds) e h = absurd (not_created _ h)
  rows_created [] {c} e h =
      let q : created (inserted row now) ≡ created c = ap (λ x. x.0) h in
      let q' : inserted row now ≡ c = cc in (q', sym (ap (λ x. x.1) h) ∙ ap (λ x. x ∷ t) q', e)

  pub existing-Answers :
      (b : Bool) {c : Classification} {t' : Table}
      → classify_row b row now t ≡ (existing c, t')
      → Answers row c × (t' ≡ t) × Memᴰ c t
  unfolding classify_row
  existing-Answers true {c} h =
      absurd (let q : store_fails ≡ existing c = ap (λ x. x.0) h in ground arith)
  existing-Answers false h = rows_existing _ refl h

  pub created-Answers :
      (b : Bool) {c : Classification} {t' : Table}
      → classify_row b row now t ≡ (created c, t')
      → Answers row c × (t' ≡ c ∷ t) × (filter (is_of row.wire) t ≡ [])
  unfolding classify_row
  created-Answers true {c} h =
      absurd (let q : store_fails ≡ created c = ap (λ x. x.0) h in ground arith)
  created-Answers false h =
      let (q, last, empty) = rows_created _ refl h in
      (answered q (inserted-Answers row now), last, empty)
    where
      agreed : {x y : Classification} → x ≡ y → Agrees x.wire row.wire → Agrees y.wire row.wire
      agreed e k = rw (← e) k

      answered : {x y : Classification} → x ≡ y → Answers row x → Answers row y
      answered e k = record {
        in_force = ap (λ x. x.status) (sym e) ∙ k.in_force;
        of_resource = ap (λ x. is_of row.wire x) (sym e) ∙ k.of_resource;
        agrees = agreed e k.agrees;
      }
