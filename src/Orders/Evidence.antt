-- ===== src/Orders/Evidence.antt =====
-- The evidence behind a commitment of baobab/orders/native-commitment-classification.ts, described on
-- its own: what an estate proves, what its limits allow, and the buyer that a classification names.
use baobab_trade.Prelude.{
  ℕ, ◌<◌, ◌≡◌, refl, sym, ◌∙◌, ap, List, [], ◌∷◌, includes, String, Bool, true, false, not, ◌==◌,
  Option, none, some, arith, eq_of_==, ltb→lt,
}
use baobab_trade.Orders.Provenance.{
  buyer_organisation, consumer, ProvenStatement, proven, Buyer, organisation, individual, model_of,
  WireFields, EstateProof, client_binding, resource_assignment, AssignmentOperation,
  estate_client_binding,
}
use baobab_trade.Orders.Classify.{
  is_later, is_other_market, is_other_operation, names_binding, names_by, eq_operation,
  organisation_of, consumer_of,
}

pub holds_of_not : (b : Bool) → not b ≡ false → b ≡ true
holds_of_not b h = ground arith

pub same_text : (a b : String) → not (a == b) ≡ false → a ≡ b
same_text a b h = eq_of_== a b (holds_of_not _ h)

-- The evidence of a client binding is among the references.
abbrev pub NamesBinding : ProvenStatement → List String → Type 0
NamesBinding estate references =
    estate.provenance.kind ≡ estate_client_binding
    → (e : String) × (es : List String) × (estate.evidence ≡ e ∷ es)
      × (includes references e ≡ true)

pub names_binding-NamesBinding :
    (estate : ProvenStatement) (references : List String)
    → names_binding estate references ≡ true
    → NamesBinding estate references
names_binding-NamesBinding estate references h k = named_by estate.evidence refl (rw k at h)
  where
    named_by :
        (es : List String)
        → estate.evidence ≡ es
        → names_by estate_client_binding es references ≡ true
        → (e : String) × (fs : List String) × (estate.evidence ≡ e ∷ fs)
          × (includes references e ≡ true)
    named_by [] at h = absurd (ground arith)
    named_by (e ∷ es) at h = (e, es, at, h)

abbrev pub EndsAfter : ℕ → Option ℕ → Type 0
EndsAfter now none = ⊥
EndsAfter now (some t) = now < t

pub is_later-EndsAfter : (end : Option ℕ) (now : ℕ) → is_later end now ≡ true → EndsAfter now end
is_later-EndsAfter none now h = absurd (ground arith)
is_later-EndsAfter (some t) now h = ltb→lt _ _ h

-- What the evidence of the estate says, by its kind: an assignment is limited to its Market and
-- operation, and a client binding is not.
abbrev pub Proves : EstateProof → ProvenStatement → Type 0
Proves (client_binding e) s =
    (s.digital_estate_id ≡ e.digital_estate_id)
    × (s.tenant_id ≡ e.tenant_id)
    × (s.engine_instance_id ≡ e.engine_instance_id)
    × (s.expires_at ≡ e.expires_at)
    × (s.market_id ≡ none)
    × (s.operation ≡ none)
Proves (resource_assignment e) s =
    (s.digital_estate_id ≡ e.digital_estate_id)
    × (s.tenant_id ≡ e.tenant_id)
    × (s.engine_instance_id ≡ e.engine_instance_id)
    × (s.expires_at ≡ e.expires_at)
    × (s.market_id ≡ some e.market_id)
    × (s.operation ≡ some e.operation)

pub proven-Proves : (show : ℕ → String) (e : EstateProof) → Proves e (proven show e)
unfolding proven
proven-Proves show (client_binding e) = (refl, refl, refl, refl, refl, refl)
proven-Proves show (resource_assignment e) = (refl, refl, refl, refl, refl, refl)

-- A limit to one value allows that value alone.
pub other_market_of :
    (o : Option String) (market m : String)
    → is_other_market o market ≡ false
    → o ≡ some m
    → m ≡ market
other_market_of none market m h e = absurd (ground arith)
other_market_of (some k) market m h e = let same : k ≡ m = cc in sym same ∙ same_text _ _ h

eq_operation-eq : (o p : AssignmentOperation) → eq_operation o p ≡ true → o ≡ p
eq_operation-eq o p h = ground arith

pub other_operation_of :
    (o asked : Option AssignmentOperation) (p : AssignmentOperation)
    → is_other_operation o asked ≡ false
    → o ≡ some p
    → asked ≡ some p
other_operation_of none asked p h e = absurd (ground arith)
other_operation_of (some k) none p h e = absurd (ground arith)
other_operation_of (some k) (some j) p h e =
    let same : k ≡ p = cc in ap some (eq_operation-eq j k (holds_of_not _ h) ∙ same)

-- The buyer that a classification names.
abbrev pub NamesBuyer : Buyer → WireFields → Type 0
NamesBuyer (organisation c) w =
    (w.buyer_account_model ≡ buyer_organisation)
    × (w.buyer_organisation_id ≡ some c.buyer_organisation_id)
    × (w.consumer_reference ≡ none)
NamesBuyer (individual r) w =
    (w.buyer_account_model ≡ consumer)
    × (w.buyer_organisation_id ≡ none)
    × (w.consumer_reference ≡ some r)

pub names_buyer :
    (b : Buyer) (w : WireFields)
    → w.buyer_account_model ≡ model_of b
    → w.buyer_organisation_id ≡ organisation_of b
    → w.consumer_reference ≡ consumer_of b
    → NamesBuyer b w
names_buyer (organisation c) w a o r = (a, o, r)
names_buyer (individual c) w a o r = (a, o, r)
