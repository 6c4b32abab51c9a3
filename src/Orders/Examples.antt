-- ===== src/Orders/Examples.antt =====
-- A cart of an Organisation that is classified, and the theorems about it.
use baobab_trade.Prelude.{
  ℕ, Option, if◌then◌else◌, ◌==◌, ◌≡◌, refl, String, true, false, none, some, [], ◌∷◌, ◌⊎◌,
}
use baobab_trade.Orders.Provenance.{
  cart, b2b, client_binding, organisation, individual, attested, ClassifyRequest, Attestation,
  NewClassification, Classification, proven,
}
use baobab_trade.Orders.Store.{Table, created, changed, store_fails, is_of, inserted}
use baobab_trade.Orders.Classify.{
  Dependencies, classified, classify_native_commitment, new_classification,
}
use baobab_trade.Orders.Retired.{Attempt, attempt, serve}
use baobab_trade.Orders.Once.{Repeats}
use baobab_trade.Orders.Final.{classified-Once, changed-IsFinal}
use baobab_trade.Orders.Binding.{
  BindingScope, GovernedActor, BindingProposal, BindingApproval, propose, approve,
  assert_binding_approval, assert_binding_proposal, assert_actor, assert_scope, is_proposed,
  is_approved, parse_binding_timestamp, is_binding_text, days_in,
}
use baobab_trade.Orders.Separation.{MayAct, IsTimely, approval-IsSeparated}
use baobab_trade.Orders.Justified.{IsEntitled, Says, classified-IsEntitled, estate_of}

abbrev attestation : Attestation
attestation = record {
  attestation_id = "at1";
  commerce_profile_id = "profile1";
  profile_revision = 1;
  tenant_id = "tenant1";
  commerce_model = b2b;
}

abbrev deps : Dependencies
deps = record {
  engine_instance_id = "engine1";
  profiles = some (λ estate market provenance correlation. attested attestation);
  observes = λ a. true;
  conforms = λ row now. true;
  database_refuses = λ row t. false;
  show = λ n. "1";
  now = 100;
  new_id = "id1";
}

abbrev request : ClassifyRequest
request = record {
  resource_type = cart;
  resource_id = "cart_1";
  attribution = record {
    attribution_id = "attr1";
    subject_type = cart;
    subject_id = "cart_1";
    tenant_id = "tenant1";
    engine_instance_id = "engine1";
    binding_id = "binding1";
    binding_version = 3;
    context_id = "context1";
  };
  seller_context_id = "context1";
  seller_market_id = some "zuribeans_ug";
  estate = client_binding (record {
    binding_id = "estate1";
    revision = 1;
    digital_estate_id = "estate:zuribeans-b2b";
    tenant_id = "tenant1";
    engine_instance_id = "engine1";
    expires_at = 200;
  });
  operation = none;
  buyer = organisation (record {
    context_id = "buyer1";
    digital_estate_id = "estate:zuribeans-b2b";
    tenant_id = "tenant1";
    engine_instance_id = "engine1";
    buyer_organisation_id = "org1";
    buyer_membership_id = "member1";
    evidence_references = "cp-estate-binding:estate1@r1" ∷ [];
    expires_at = some 150;
  });
  correlation_id = "c1";
}

abbrev row : NewClassification
row = new_classification deps request (estate_of deps request) "zuribeans_ug" attestation

abbrev cart_classification : Classification
cart_classification = inserted row 100

classified_run :
    classify_native_commitment deps request []
    ≡ (classified cart_classification, cart_classification ∷ [])
unfolding classify_native_commitment baobab_trade.Orders.Classify.refuse_if
    baobab_trade.Orders.Classify.is_resource baobab_trade.Orders.Classify.with_market
    baobab_trade.Orders.Classify.is_market baobab_trade.Orders.Classify.with_estate proven
    baobab_trade.Orders.Classify.refuse_by baobab_trade.Orders.Classify.buyer_refusal
    baobab_trade.Orders.Classify.with_profiles baobab_trade.Orders.Classify.with_resolution
    baobab_trade.Orders.Classify.model_refusal baobab_trade.Orders.Classify.store_row
    baobab_trade.Orders.Classify.outcome_of baobab_trade.Orders.Store.classify_row is_of
    baobab_trade.Orders.Store.answer_rows inserted new_classification
classified_run = refl

classified-IsEntitled_example :
    (market : String) × (a : Attestation) × IsEntitled deps request market a
    × Says deps request market a cart_classification
classified-IsEntitled_example = classified-IsEntitled deps request [] classified_run

abbrev first_attempt : Attempt
first_attempt = record { row = row; now = 100; refused = false }

first_run : attempt first_attempt [] ≡ (created cart_classification, cart_classification ∷ [])
unfolding baobab_trade.Orders.Store.classify_row baobab_trade.Orders.Store.answer_rows
first_run = refl

own_resource : is_of first_attempt.row.wire (inserted first_attempt.row first_attempt.now) ≡ true
unfolding is_of inserted new_classification
own_resource = refl

classified-Once_example :
    Repeats row.wire cart_classification first_attempt
      (serve (first_attempt ∷ []) (cart_classification ∷ []))
classified-Once_example =
    classified-Once first_attempt [] cart_classification first_run (first_attempt ∷ [])
      first_attempt own_resource

-- The same cart for a consumer.
abbrev other_row : NewClassification
other_row =
    new_classification deps (record request { buyer = individual "x" }) (estate_of deps request)
      "zuribeans_ug" attestation

abbrev other_attempt : Attempt
other_attempt = record { row = other_row; now = 110; refused = false }

other_resource : is_of first_attempt.row.wire (inserted other_attempt.row other_attempt.now) ≡ true
unfolding is_of inserted new_classification
other_resource = refl

contradicts : (attempt other_attempt (serve [] (cart_classification ∷ []))).0 ≡ changed
unfolding serve baobab_trade.Orders.Store.classify_row is_of inserted new_classification
    baobab_trade.Orders.Store.answer_rows baobab_trade.Orders.Store.answer_active
    baobab_trade.Orders.Store.same_commitment proven
contradicts = refl

changed-IsFinal_example :
    let t2 = (attempt other_attempt (serve [] (cart_classification ∷ []))).1 in
    ((attempt first_attempt (serve [] t2)).0 ≡ changed)
    ⊎ ((attempt first_attempt (serve [] t2)).0 ≡ store_fails)
changed-IsFinal_example =
    changed-IsFinal first_attempt [] cart_classification first_run [] other_attempt [] first_attempt
      other_resource contradicts own_resource

-- The instants of the three timestamps, in milliseconds.
abbrev parse_of : String → Option ℕ
parse_of s =
    if s == "2026-01-01T08:00:00Z"
    then some 1767254400000
    else (if s == "2026-01-01T11:00:00.5+03:00"
        then some 1767254400500
        else (if s == "2026-02-28T08:00:00Z" then some 1772265600000 else none))

abbrev scope : BindingScope
scope = record {
  cart_id = "cart_1";
  tenant_id = "tenant1";
  organisation_id = "org1";
  responsible_legal_entity_id = "entity1";
  market_code = "UG";
  currency_code = "UGX";
  sales_channel_id = "channel1";
  region_id = "region1";
}

abbrev actor : String → String → GovernedActor
actor s permission = record {
  subject = s;
  tenant_id = "tenant1";
  organisation_id = "org1";
  audience = "baobab-control-plane";
  scopes = permission ∷ [];
}

abbrev proposal : BindingProposal
proposal = record {
  scope = scope;
  maker = actor "maker1" "trade-binding:propose";
  proposed_at = "2026-01-01T08:00:00Z";
  expires_at = "2026-02-28T08:00:00Z";
  evidence_reference = "evidence1";
}

abbrev approval : String → String → BindingApproval
approval checker at = record {
  proposal = proposal;
  checker = actor checker "trade-binding:approve";
  approved_at = at;
  approval_reference = "approval1";
}

passes :
    assert_binding_approval parse_of
      (approval "checker1" "2026-01-01T11:00:00.5+03:00")
      1767254401000
    ≡ true
unfolding assert_binding_approval assert_binding_proposal assert_actor assert_scope is_proposed
    is_approved parse_binding_timestamp is_binding_text days_in
passes = refl

same_subject :
    assert_binding_approval parse_of (approval "maker1" "2026-01-01T11:00:00.5+03:00") 1767254401000
    ≡ false
unfolding assert_binding_approval assert_binding_proposal assert_actor assert_scope is_proposed
    is_approved parse_binding_timestamp is_binding_text days_in
same_subject = refl

no_such_day : parse_binding_timestamp (λ s. some 0) "2026-02-30T08:00:00Z" ≡ none
unfolding parse_binding_timestamp is_binding_text days_in
no_such_day = refl

approval-IsSeparated_example :
    (¬ ((actor "checker1" "trade-binding:approve").subject ≡ proposal.maker.subject))
    × MayAct (actor "maker1" "trade-binding:propose") scope propose
    × MayAct (actor "checker1" "trade-binding:approve") scope approve
    × (assert_scope scope ≡ true)
    × IsTimely parse_of (approval "checker1" "2026-01-01T11:00:00.5+03:00") 1767254401000
approval-IsSeparated_example =
    approval-IsSeparated parse_of (approval "checker1" "2026-01-01T11:00:00.5+03:00") 1767254401000
      passes
