-- ===== src/Commercial/Lifecycle.antt =====
-- baobab/b2b/commercial-lifecycle.ts: transitionRfq and transitionQuotation. An instant is its number
-- of milliseconds, which `Date.parse` gives back from the text that `toISOString` wrote.
use baobab_trade.Prelude.{
  ℕ, ◌+◌, leb, ltb, eqb, String, Bool, true, false, not, ◌&&◌, ◌||◌, ◌==◌, Option, List,
}

pub record CommercialContext : Type 0 where
  pub principal_id : String
  pub tenant_id : String
  pub legal_entity_id : String
  pub digital_estate_id : String
  pub market_id : String
  pub buyer_organisation_id : String

pub record Quantity : Type 0 where
  pub value : String
  pub unit : String

pub record Money : Type 0 where
  pub amount : String
  pub currency : String

pub record RfqLine : Type 0 where
  pub client_line_id : String
  pub variant_id : String
  pub quantity : Quantity

pub data RfqStatus : Type 0 where
  draft submitted under_review quoted declined withdrawn expired closed : RfqStatus

pub record Rfq : Type 0 where
  pub context : CommercialContext
  pub reference : Option String
  pub notes : Option String
  pub requested_delivery_date : Option String
  pub requested_incoterm : Option String
  pub lines : List RfqLine
  pub rfq_id : String
  pub status : RfqStatus
  pub version : ℕ
  pub created_at : ℕ
  pub updated_at : ℕ

pub record QuotationLine : Type 0 where
  pub line_id : String
  pub variant_id : String
  pub quantity : Quantity
  pub unit_price : Money
  pub line_total : Money

pub data QuotationStatus : Type 0 where
  draft issued accepted rejected withdrawn expired converted : QuotationStatus

pub record Quotation : Type 0 where
  pub currency : String
  pub lines : List QuotationLine
  pub total : Money
  pub incoterm : Option String
  pub payment_terms : Option String
  pub valid_until : ℕ
  pub quotation_id : String
  pub rfq_id : String
  pub context : CommercialContext
  pub status : QuotationStatus
  pub version : ℕ
  pub created_at : ℕ
  pub updated_at : ℕ

-- The codes of `CommercialRefusal`.
pub data CommercialRefusal : Type 0 where
  invalid_request not_found conflict : CommercialRefusal
  authority_unavailable authority_denied commitment_not_qualified : CommercialRefusal

pub data Result {ℓ} (A : Type ℓ) : Type ℓ where
  ok : A → Result A
  refuses : CommercialRefusal → Result A

unfoldable pub refuse_if {ℓ} : {A : Type ℓ} → Bool → CommercialRefusal → Result A → Result A
refuse_if true e k = refuses e
refuse_if false e k = k

-- The greatest number that `Number.isSafeInteger` takes.
abbrev pub max_safe : ℕ
max_safe = 9007199254740991

-- `sameCommercialScope`: the principal is the initiating actor, and no part of the scope.
unfoldable pub same_commercial_scope : CommercialContext → CommercialContext → Bool
same_commercial_scope a b =
    a.tenant_id == b.tenant_id
    && (a.legal_entity_id == b.legal_entity_id
        && (a.digital_estate_id == b.digital_estate_id
            && (a.market_id == b.market_id && a.buyer_organisation_id == b.buyer_organisation_id)))

unfoldable pub rfq_transitions : RfqStatus → RfqStatus → Bool
rfq_transitions RfqStatus.draft RfqStatus.submitted = true
rfq_transitions RfqStatus.draft RfqStatus.withdrawn = true
rfq_transitions RfqStatus.submitted RfqStatus.under_review = true
rfq_transitions RfqStatus.submitted RfqStatus.declined = true
rfq_transitions RfqStatus.submitted RfqStatus.withdrawn = true
rfq_transitions RfqStatus.submitted RfqStatus.expired = true
rfq_transitions RfqStatus.under_review RfqStatus.quoted = true
rfq_transitions RfqStatus.under_review RfqStatus.declined = true
rfq_transitions RfqStatus.under_review RfqStatus.withdrawn = true
rfq_transitions RfqStatus.under_review RfqStatus.expired = true
rfq_transitions RfqStatus.quoted RfqStatus.under_review = true
rfq_transitions RfqStatus.quoted RfqStatus.closed = true
rfq_transitions RfqStatus.quoted RfqStatus.withdrawn = true
rfq_transitions RfqStatus.quoted RfqStatus.expired = true
rfq_transitions _ _ = false

-- `transitionRfq`, under the version that the caller saw.
unfoldable pub transition_rfq : Rfq → RfqStatus → ℕ → ℕ → Result Rfq
transition_rfq current next version now =
    refuse_if
      (ltb max_safe version
        || not (eqb version current.version)
        || not (rfq_transitions current.status next)
        || ltb now current.updated_at)
      conflict (ok (record current { status = next; version = version + 1; updated_at = now }))

abbrev pub is_binding : QuotationStatus → Bool
is_binding QuotationStatus.accepted = true
is_binding QuotationStatus.converted = true
is_binding _ = false

abbrev pub is_issued : QuotationStatus → Bool
is_issued QuotationStatus.issued = true
is_issued _ = false

abbrev pub is_closing : QuotationStatus → Bool
is_closing QuotationStatus.rejected = true
is_closing QuotationStatus.withdrawn = true
is_closing QuotationStatus.expired = true
is_closing _ = false

-- Too early to expire, or too late for anything else.
abbrev pub is_untimely : QuotationStatus → ℕ → ℕ → Bool
is_untimely QuotationStatus.expired valid_until now = ltb now valid_until
is_untimely _ valid_until now = leb valid_until now

-- `transitionQuotation`.
unfoldable pub transition_quotation : Quotation → QuotationStatus → ℕ → ℕ → Result Quotation
transition_quotation current next version now =
    refuse_if (is_binding next) commitment_not_qualified (
      refuse_if
        (ltb max_safe version
          || not (eqb current.version version)
          || not (is_issued current.status)
          || not (is_closing next)
          || ltb now current.updated_at)
        conflict
        (refuse_if (is_untimely next current.valid_until now) conflict
          (ok (record current { status = next; version = version + 1; updated_at = now }))))
