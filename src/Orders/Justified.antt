-- ===== src/Orders/Justified.antt =====
-- What a commitment that `classifyNativeCommitment` of
-- baobab/orders/native-commitment-classification.ts classifies has shown.
use baobab_trade.Prelude.{
  ◌<◌, ◌≡◌, refl, ap, and_true, String, Bool, true, false, not, ◌==◌, ◌||◌, Option, none, some,
  has_text, inl, inr, ◌⊎◌, arith, eq_of_==, ltb→lt, or_false, subst,
}
use baobab_trade.Orders.Provenance.{
  ClassificationRefusal, CommerceModel, b2b, b2c, BuyerModel, buyer_organisation, consumer,
  EstateProvenance, ProvenStatement, proven, Buyer, BuyerContext, organisation, individual,
  model_of, ClassifyRequest, Attestation, Resolution, attested, failed, NewClassification,
  Classification, active, AssignmentOperation,
}
use baobab_trade.Orders.Store.{
  Table, Stored, created, existing, changed, store_fails, classify_row, is_of,
}
use baobab_trade.Orders.Answers.{Answers, existing-Answers, created-Answers, eq_type-eq}
use baobab_trade.Orders.Classify.{
  Outcome, classified, refused, Dependencies, is_later, buyer_refusal, model_refusal,
  new_classification, refuse_if, refuse_by, outcome_of, store_row, with_resolution, with_profiles,
  with_estate, with_market, classify_native_commitment, names_binding,
}
use baobab_trade.Orders.Evidence.{
  holds_of_not, same_text, NamesBinding, names_binding-NamesBinding, EndsAfter, is_later-EndsAfter,
  Proves, proven-Proves, other_market_of, other_operation_of, NamesBuyer, names_buyer,
}

refuse_if-classified :
    (b : Bool) (r : ClassificationRefusal) (t : Table) (k : Outcome × Table) {c : Classification}
    {t' : Table}
    → refuse_if b r t k ≡ (classified c, t')
    → (b ≡ false) × (k ≡ (classified c, t'))
unfolding refuse_if
refuse_if-classified true r t k h =
    absurd (let q : refused r ≡ classified _ = ap (λ x. x.0) h in ground arith)
refuse_if-classified false r t k h = (refl, h)

refuse_by-classified :
    (o : Option ClassificationRefusal) (t : Table) (k : Outcome × Table) {c : Classification}
    {t' : Table}
    → refuse_by o t k ≡ (classified c, t')
    → (o ≡ none) × (k ≡ (classified c, t'))
unfolding refuse_by
refuse_by-classified (some r) t k h =
    absurd (let q : refused r ≡ classified _ = ap (λ x. x.0) h in ground arith)
refuse_by-classified none t k h = (refl, h)

-- An Organisation with the estate's own context, or a consumer who is named.
pub data IsKnown (deps : Dependencies) (estate : ProvenStatement) : Buyer → Type 0 where
  known :
      (c : BuyerContext)
      → c.digital_estate_id ≡ estate.digital_estate_id
      → c.tenant_id ≡ estate.tenant_id
      → c.engine_instance_id ≡ deps.engine_instance_id
      → NamesBinding estate c.evidence_references
      → EndsAfter deps.now c.expires_at
      → IsKnown deps estate (organisation c)
  named : (r : String) → has_text r ≡ true → IsKnown deps estate (individual r)

buyer_refusal-IsKnown :
    (deps : Dependencies) (estate : ProvenStatement) (b : Buyer)
    → buyer_refusal deps estate b ≡ none
    → IsKnown deps estate b
unfolding buyer_refusal
buyer_refusal-IsKnown deps estate (organisation c) h =
    let e : (not (c.digital_estate_id == estate.digital_estate_id)
          || not (c.tenant_id == estate.tenant_id)
          || not (c.engine_instance_id == deps.engine_instance_id)
          || not (names_binding estate c.evidence_references)
          || not (is_later c.expires_at deps.now))
        ≡ false =
      ground arith in
    let (e1, k1) = or_false _ _ e in
    let (e2, k2) = or_false _ _ e1 in
    let (e3, k3) = or_false _ _ e2 in
    let (e4, k4) = or_false _ _ e3 in
    known c (same_text _ _ e4) (same_text _ _ k4) (same_text _ _ k3)
      (names_binding-NamesBinding estate _ (holds_of_not _ k2))
      (is_later-EndsAfter _ _ (holds_of_not _ k1))
buyer_refusal-IsKnown deps estate (individual r) h = named r (ground arith)

-- B2B is for Organisations, and B2C for consumers.
abbrev pub Suits : CommerceModel → BuyerModel → Type 0
Suits m b = ((m ≡ b2b) × (b ≡ buyer_organisation)) ⊎ ((m ≡ b2c) × (b ≡ consumer))

model_refusal-Suits : (m : CommerceModel) (b : BuyerModel) → model_refusal m b ≡ none → Suits m b
unfolding model_refusal
model_refusal-Suits b2b buyer_organisation h = inl (refl, refl)
model_refusal-Suits b2c consumer h = inr (refl, refl)
model_refusal-Suits b2b consumer h = absurd (ground arith)
model_refusal-Suits b2c buyer_organisation h = absurd (ground arith)

module _ (deps : Dependencies) (q : ClassifyRequest) where
  abbrev pub estate_of : ProvenStatement
  estate_of = proven deps.show q.estate

  -- What the request has shown, for the Market and the attestation that it was answered with.
  pub record IsEntitled (market : String) (a : Attestation) : Type 0 where
    pub own_type : q.attribution.subject_type ≡ q.resource_type
    pub own_resource : q.attribution.subject_id ≡ q.resource_id
    pub own_engine : q.attribution.engine_instance_id ≡ deps.engine_instance_id
    pub own_context : q.seller_context_id ≡ q.attribution.context_id
    pub in_market : q.seller_market_id ≡ some market
    pub estate_engine : estate_of.engine_instance_id ≡ deps.engine_instance_id
    pub estate_tenant : estate_of.tenant_id ≡ q.attribution.tenant_id
    pub estate_proof : Proves q.estate estate_of
    pub estate_market : (m : String) → estate_of.market_id ≡ some m → m ≡ market
    pub estate_operation :
        (o : AssignmentOperation) → estate_of.operation ≡ some o → q.operation ≡ some o
    pub estate_current : deps.now < estate_of.expires_at
    pub buyer_known : IsKnown deps estate_of q.buyer
    pub profile :
        (resolve : String → String → EstateProvenance → String → Resolution) × (deps.profiles
          ≡ some resolve)
        × (resolve estate_of.digital_estate_id market estate_of.provenance q.correlation_id
            ≡ attested a)
    pub profile_tenant : a.tenant_id ≡ estate_of.tenant_id
    pub suits : Suits a.commerce_model (model_of q.buyer)

  -- What the classification in force says: the resource, the estate, the tenant, the Market, the
  -- profile with its commerce model, the binding of the attribution, and the buyer.
  pub record Says (market : String) (a : Attestation) (c : Classification) : Type 0 where
    pub in_force : c.status ≡ active
    pub of_type : c.wire.resource_type ≡ q.resource_type
    pub of_resource : c.wire.resource_id ≡ q.resource_id
    pub of_estate : c.wire.digital_estate_id ≡ estate_of.digital_estate_id
    pub of_tenant : c.wire.tenant_id ≡ a.tenant_id
    pub of_market : c.wire.market_id ≡ market
    pub of_model : c.wire.commerce_model ≡ a.commerce_model
    pub of_profile : c.wire.commerce_profile_id ≡ a.commerce_profile_id
    pub of_binding : c.wire.binding_id ≡ q.attribution.binding_id
    pub of_version : c.wire.binding_version ≡ q.attribution.binding_version
    pub of_buyer : NamesBuyer q.buyer c.wire

  Answers-Says :
      (market : String) (a : Attestation) (c : Classification)
      → Answers (new_classification deps q estate_of market a) c
      → Says market a c
  unfolding new_classification is_of
  Answers-Says market a c h =
      let (of_type, of_id) = and_true _ _ h.of_resource in
      record {
        in_force = h.in_force;
        of_type = eq_type-eq _ _ of_type;
        of_resource = eq_of_== _ _ of_id;
        of_estate = h.agrees.same_estate;
        of_tenant = h.agrees.same_tenant;
        of_market = h.agrees.same_market;
        of_model = h.agrees.same_model;
        of_profile = h.agrees.same_profile;
        of_binding = h.agrees.same_binding;
        of_version = h.agrees.same_version;
        of_buyer =
            names_buyer q.buyer c.wire h.agrees.same_account h.agrees.same_organisation
              h.agrees.same_consumer;
      }

  stored_Answers :
      (t : Table) (row : NewClassification) (s : Stored × Table) {c : Classification} {t' : Table}
      → classify_row (deps.database_refuses row t) row deps.now t ≡ s
      → outcome_of s ≡ (classified c, t')
      → Answers row c
  unfolding outcome_of
  stored_Answers t row (created d, t1) e h =
      let k : classified d ≡ classified _ = ap (λ x. x.0) h in
      let same : d ≡ _ = cc in
      subst (λ x. Answers row x) same ((created-Answers row deps.now t _ e).0)
  stored_Answers t row (existing d, t1) e h =
      let k : classified d ≡ classified _ = ap (λ x. x.0) h in
      let same : d ≡ _ = cc in
      subst (λ x. Answers row x) same ((existing-Answers row deps.now t _ e).0)
  stored_Answers t row (changed, t1) e h =
      absurd (let k : refused _ ≡ classified _ = ap (λ x. x.0) h in ground arith)
  stored_Answers t row (store_fails, t1) e h =
      absurd (let k : refused _ ≡ classified _ = ap (λ x. x.0) h in ground arith)

  -- What the Control Plane's answer adds.
  abbrev Attests : Classification → String → Resolution → Type 0
  Attests c market r =
      (a : Attestation) × (r ≡ attested a)
      × (a.tenant_id ≡ estate_of.tenant_id)
      × Suits a.commerce_model (model_of q.buyer)
      × Says market a c

  module _ (t : Table) {c : Classification} {t' : Table} where
    resolved :
        (market : String) (r : Resolution)
        → with_resolution deps q t estate_of market r ≡ (classified c, t')
        → Attests c market r
    unfolding with_resolution store_row
    resolved market (failed code) h =
        absurd (let k : refused _ ≡ classified _ = ap (λ x. x.0) h in ground arith)
    resolved market (attested a) h =
        let (_, h1) = refuse_if-classified _ _ _ _ h in
        let (tenant, h2) = refuse_if-classified _ _ _ _ h1 in
        let (suits, h3) = refuse_by-classified _ _ _ h2 in
        let (_, h4) = refuse_if-classified _ _ _ _ h3 in
        (
          a,
          refl,
          same_text _ _ tenant,
          model_refusal-Suits _ _ suits,
          Answers-Says market a _
              (stored_Answers t (new_classification deps q estate_of market a) _ refl h4),
        )

    profiled :
        (market : String) (o : Option (String → String → EstateProvenance → String → Resolution))
        → with_profiles deps q t estate_of market o ≡ (classified c, t')
        → (resolve : String → String → EstateProvenance → String → Resolution) × (o ≡ some resolve)
          × Attests c market
              (resolve estate_of.digital_estate_id market estate_of.provenance q.correlation_id)
    unfolding with_profiles
    profiled market none h =
        absurd (let k : refused _ ≡ classified _ = ap (λ x. x.0) h in ground arith)
    profiled market (some resolve) h = (resolve, refl, resolved market _ h)

    marketed :
        (o : Option String)
        → with_market deps q t o ≡ (classified c, t')
        → (market : String) × (o ≡ some market)
          × (with_estate deps q t market estate_of ≡ (classified c, t'))
    unfolding with_market
    marketed none h = absurd (let k : refused _ ≡ classified _ = ap (λ x. x.0) h in ground arith)
    marketed (some market) h = let (_, k) = refuse_if-classified _ _ _ _ h in (market, refl, k)

    -- A commitment that is classified is of the type, the resource, the seller context and the engine
    -- of its attribution; its estate is proven, current, of the same tenant, and not limited to
    -- another Market or operation; its buyer is known for that estate and suits the commerce model
    -- that the Control Plane attests; and the classification in force is of this resource, estate,
    -- tenant, Market, model, profile, binding and buyer.
    pub classified-IsEntitled :
        classify_native_commitment deps q t ≡ (classified c, t')
        → (market : String) × (a : Attestation) × IsEntitled market a × Says market a c
    unfolding classify_native_commitment with_estate
    classified-IsEntitled h =
        let (own, h1) = refuse_if-classified _ _ _ _ h in
        let (market, in_market, h2) = marketed q.seller_market_id h1 in
        let (proof, h3) = refuse_if-classified _ _ _ _ h2 in
        let (buyer, h4) = refuse_by-classified _ _ _ h3 in
        let (resolve, there, attests) = profiled market deps.profiles h4 in
        let (a, answered, tenant, suits, says) = attests in
        let (o1, own_context) = or_false _ _ own in
        let (o2, own_engine) = or_false _ _ o1 in
        let (o3, own_resource) = or_false _ _ o2 in
        let (o4, own_type) = or_false _ _ o3 in
        let (p1, current) = or_false _ _ proof in
        let (p2, operation) = or_false _ _ p1 in
        let (p3, other_market) = or_false _ _ p2 in
        let (p4, tenant_same) = or_false _ _ p3 in
        (
          market,
          a,
          record {
            own_type = eq_type-eq _ _ (holds_of_not _ own_type);
            own_resource = same_text _ _ own_resource;
            own_engine = same_text _ _ own_engine;
            own_context = same_text _ _ own_context;
            in_market = in_market;
            estate_engine = same_text _ _ p4;
            estate_tenant = same_text _ _ tenant_same;
            estate_proof = proven-Proves deps.show q.estate;
            estate_market = λ m e. other_market_of _ market m other_market e;
            estate_operation = λ o e. other_operation_of _ _ o operation e;
            estate_current = ltb→lt _ _ (holds_of_not _ current);
            buyer_known = buyer_refusal-IsKnown deps estate_of q.buyer buyer;
            profile = (resolve, there, answered);
            profile_tenant = tenant;
            suits = suits;
          },
          says,
        )
