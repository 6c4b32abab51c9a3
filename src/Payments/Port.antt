-- ===== src/Payments/Port.antt =====
-- baobab/payments/orchestration-port.ts. The repository of the payments is a parameter; what other
-- requests do to it between the lookup of a key and the creation is a parameter of `initiate`.
use baobab_trade.Prelude.{
  ℕ, String, Bool, true, false, not, ◌&&◌, ◌||◌, ◌==◌, Option, none, some, if◌then◌else◌,
}
use baobab_trade.Prelude.Number.{Number, is_positive, is_safe_integer}
use baobab_trade.Fulfilment.Port.{has_value, xor, zuribeans, thamani}

pub data PaymentStatus : Type 0 where
  created pending authorized captured settled failed cancelled unknown : PaymentStatus

pub data PaymentMethod : Type 0 where
  bank_transfer manual_settlement invoice_terms selected_psp : PaymentMethod

pub data PaymentTerms : Type 0 where
  prepaid due_on_receipt net_7 net_14 net_30 : PaymentTerms

pub record InitiatePaymentCommand : Type 0 where
  pub payment_reference : String
  pub order_reference : String
  pub organisation_id : Option String
  pub customer_reference : Option String
  pub market_key : String
  pub legal_seller_key : String
  pub method : PaymentMethod
  pub terms : PaymentTerms
  pub provider_key : String
  pub currency : String
  pub amount_minor : Number
  pub idempotency_key : String
  pub correlation_id : String
  pub due_at : Option ℕ

pub record PaymentSnapshot : Type 0 where
  pub command : InitiatePaymentCommand
  pub id : String
  pub digital_estate : String
  pub status : PaymentStatus
  pub provider_reference : Option String
  pub provider_status : Option String

-- The messages of the errors that are thrown.
pub data PaymentRefusal : Type 0 where
  positive_amount one_reference terms_method estate_reused invalid_transition : PaymentRefusal
  not_found key_reused state_changed database : PaymentRefusal

pub data PaymentResult {ℓ} (A : Type ℓ) : Type ℓ where
  ok : A → PaymentResult A
  throws : PaymentRefusal → PaymentResult A

unfoldable pub throw_if {ℓ} :
    {A : Type ℓ} → Bool → PaymentRefusal → PaymentResult A → PaymentResult A
throw_if true e k = throws e
throw_if false e k = k

-- `TRANSITIONS[from].includes(to)`.
unfoldable pub transitions : PaymentStatus → PaymentStatus → Bool
transitions created pending = true
transitions created authorized = true
transitions created failed = true
transitions created cancelled = true
transitions created unknown = true
transitions pending authorized = true
transitions pending captured = true
transitions pending failed = true
transitions pending cancelled = true
transitions pending unknown = true
transitions authorized captured = true
transitions authorized cancelled = true
transitions authorized unknown = true
transitions captured settled = true
transitions captured unknown = true
transitions unknown pending = true
transitions unknown authorized = true
transitions unknown captured = true
transitions unknown failed = true
transitions unknown cancelled = true
transitions _ _ = false

abbrev pub is_prepaid : PaymentTerms → Bool
is_prepaid prepaid = true
is_prepaid _ = false

abbrev pub is_invoice_terms : PaymentMethod → Bool
is_invoice_terms invoice_terms = true
is_invoice_terms _ = false

-- The checks of `initiate`, before it reads anything.
unfoldable pub validate_command : InitiatePaymentCommand → PaymentResult (Unit {0})
validate_command c =
    throw_if (not (is_safe_integer c.amount_minor) || not (is_positive c.amount_minor))
      positive_amount
      (throw_if (not (xor (has_value c.organisation_id) (has_value c.customer_reference)))
        one_reference
        (throw_if (not (is_prepaid c.terms) && not (is_invoice_terms c.method)) terms_method
          (ok tt)))

unfoldable pub digital_estate_of : InitiatePaymentCommand → String
digital_estate_of c = elim (has_value c.organisation_id) [ true ↦ zuribeans | false ↦ thamani ]

-- PaymentRecordRepository. Each operation leaves a state of the payments, also where it throws.
pub record Repository : Type 1 where
  pub Payments : Type 0
  pub find_by_idempotency_key : Payments → String → Option PaymentSnapshot
  pub create : Payments → InitiatePaymentCommand → String → PaymentResult PaymentSnapshot × Payments
  pub move :
      Payments
      → String
      → PaymentStatus
      → PaymentStatus
      → String
      → Option String
      → Option String
      → PaymentResult PaymentSnapshot × Payments

module _ (repository : Repository) (others : repository.Payments → repository.Payments) where
  unfoldable pub answer_initiate :
      repository.Payments
      → InitiatePaymentCommand
      → String
      → Option PaymentSnapshot
      → PaymentResult PaymentSnapshot × repository.Payments
  answer_initiate payments c estate (some existing) =
      (throw_if (not (existing.digital_estate == estate)) estate_reused (ok existing), payments)
  answer_initiate payments c estate none = repository.create (others payments) c estate

  unfoldable pub validated :
      repository.Payments
      → InitiatePaymentCommand
      → PaymentResult (Unit {0})
      → PaymentResult PaymentSnapshot × repository.Payments
  validated payments c (throws e) = (throws e, payments)
  validated payments c (ok u) =
      answer_initiate payments c (digital_estate_of c)
        (repository.find_by_idempotency_key payments c.idempotency_key)

  -- `initiate`.
  unfoldable pub initiate :
      repository.Payments
      → InitiatePaymentCommand
      → PaymentResult PaymentSnapshot × repository.Payments
  initiate payments c = validated payments c (validate_command c)

module _ (repository : Repository) where
  -- `transition`; what the provider says of the payment is two optional texts.
  unfoldable pub transition :
      repository.Payments
      → PaymentSnapshot
      → PaymentStatus
      → String
      → Option String
      → Option String
      → PaymentResult PaymentSnapshot × repository.Payments
  transition payments payment to key reference status =
      if transitions payment.status to
      then repository.move payments payment.id payment.status to key reference status
      else (throws invalid_transition, payments)
