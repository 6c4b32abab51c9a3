-- ===== src/Orders/Store.antt =====
-- `PostgresClassificationStore.classify` of baobab/orders/native-commitment-classification.ts. The table
-- is the list of its rows, newest first; a transaction is one step that commits or leaves the table.
use baobab_trade.Prelude.{
  ℕ, ◌+◌, String, Bool, true, false, ◌==◌, ◌&&◌, Option, none, some, List, [], ◌∷◌, map,
  if◌then◌else◌, eqb, opt_eq, filter, find,
}
use baobab_trade.Orders.Provenance.{
  ResourceType, cart, draft_order, order, CommerceModel, b2b, b2c, BuyerModel, buyer_organisation,
  consumer, WireFields, NewClassification, Classification, Status, active, quarantined,
}

abbrev pub eq_type : ResourceType → ResourceType → Bool
eq_type cart cart = true
eq_type draft_order draft_order = true
eq_type order order = true
eq_type _ _ = false

abbrev pub eq_commerce : CommerceModel → CommerceModel → Bool
eq_commerce b2b b2b = true
eq_commerce b2c b2c = true
eq_commerce _ _ = false

abbrev pub eq_buyer : BuyerModel → BuyerModel → Bool
eq_buyer buyer_organisation buyer_organisation = true
eq_buyer consumer consumer = true
eq_buyer _ _ = false

abbrev pub is_active : Status → Bool
is_active active = true
is_active _ = false

-- `WHERE resource_type = $1 AND resource_id = $2`.
unfoldable pub is_of : WireFields → Classification → Bool
is_of w c = eq_type c.wire.resource_type w.resource_type && c.wire.resource_id == w.resource_id

-- `sameCommitment`.
unfoldable pub same_commitment : WireFields → WireFields → Bool
same_commitment c r =
    c.digital_estate_id == r.digital_estate_id
    && c.tenant_id == r.tenant_id
    && c.market_id == r.market_id
    && eq_commerce c.commerce_model r.commerce_model
    && c.commerce_profile_id == r.commerce_profile_id
    && c.binding_id == r.binding_id
    && eqb c.binding_version r.binding_version
    && eq_buyer c.buyer_account_model r.buyer_account_model
    && opt_eq c.buyer_organisation_id r.buyer_organisation_id
    && opt_eq c.consumer_reference r.consumer_reference

abbrev pub Table : Type 0
Table = List Classification

-- The update that quarantines the active classification of the id.
unfoldable pub quarantine_row : String → Classification → Classification
quarantine_row id c =
    if c.wire.classification_id == id && is_active c.status
    then record c { status = quarantined; revision = c.revision + 1 }
    else c

unfoldable pub quarantine : String → Table → Table
quarantine id t = map (quarantine_row id) t

pub data Stored : Type 0 where
  created : Classification → Stored
  existing : Classification → Stored
  changed : Stored
  store_fails : Stored

unfoldable pub inserted : NewClassification → ℕ → Classification
inserted row now = record { wire = row.wire; status = active; revision = 1; classified_at = now }

unfoldable pub answer_active : NewClassification → Table → Option Classification → Stored × Table
answer_active row t none = (changed, t)
answer_active row t (some c) =
    if same_commitment c.wire row.wire
    then (existing c, t)
    else (changed, quarantine c.wire.classification_id t)

unfoldable pub answer_rows : NewClassification → ℕ → Table → List Classification → Stored × Table
answer_rows row now t [] = (created (inserted row now), inserted row now ∷ t)
answer_rows row now t (c ∷ cs) = answer_active row t (find (λ d. is_active d.status) (c ∷ cs))

-- `classify`; where the connection, a query or a trigger of the table refuses, it throws.
unfoldable pub classify_row : Bool → NewClassification → ℕ → Table → Stored × Table
classify_row refused row now t =
    if refused then (store_fails, t) else answer_rows row now t (filter (is_of row.wire) t)
