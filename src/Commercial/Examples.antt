-- ===== src/Commercial/Examples.antt =====
-- A request for quotation, its transitions and a quotation for it, with the theorems about them.
use baobab_trade.Prelude.{ℕ, ◌≡◌, refl, String, Option, none, some, List, [], ◌∷◌}
use baobab_trade.Commercial.Lifecycle.{
  CommercialContext, Rfq, RfqStatus, RfqLine, Quantity, Money, QuotationLine, Quotation,
  QuotationStatus, Result, ok, refuses, conflict, transition_rfq, transition_quotation,
}
use baobab_trade.Commercial.Versions.{
  Attempt, attempts, IsLater, attempts-IsLater, transition_rfq-Once,
}
use baobab_trade.Commercial.Binding.{IsClosing, transition_quotation-IsClosing}
use baobab_trade.Commercial.Issue.{QuotationInput, issue_quotation}
use baobab_trade.Commercial.Priced.{IsPriced, issue_quotation-IsPriced}

abbrev context : CommercialContext
context = record {
  principal_id = "buyer";
  tenant_id = "tenant";
  legal_entity_id = "entity";
  digital_estate_id = "estate";
  market_id = "market";
  buyer_organisation_id = "organisation";
}

abbrev beans : Quantity
beans = record { value = "2.5"; unit = "KG" }

abbrev rfq_in : RfqStatus → ℕ → ℕ → Rfq
rfq_in status version updated = record {
  context = context;
  reference = none;
  notes = none;
  requested_delivery_date = none;
  requested_incoterm = none;
  lines = record { client_line_id = "line-1"; variant_id = "variant-1"; quantity = beans } ∷ [];
  rfq_id = "rfq_1";
  status = status;
  version = version;
  created_at = 10;
  updated_at = updated;
}

abbrev rand : String → Money
rand amount = record { amount = amount; currency = "ZAR" }

abbrev quoted_line : QuotationLine
quoted_line = record {
  line_id = "line-1";
  variant_id = "variant-1";
  quantity = beans;
  unit_price = rand "100.10";
  line_total = rand "250.25";
}

abbrev input : QuotationInput
input = record {
  currency = "ZAR";
  lines = quoted_line ∷ [];
  total = rand "250.250";
  incoterm = some "FOB";
  payment_terms = none;
  valid_until = "2026-12-01T00:00:00Z";
}

-- A host whose every text is one date.
abbrev date : String → Option (ℕ × String)
date s = some (1000, "2026-12-01T00:00:00.000Z")

abbrev quotation : QuotationStatus → ℕ → ℕ → Quotation
quotation status version updated = record {
  currency = "ZAR";
  lines = quoted_line ∷ [];
  total = rand "250.250";
  incoterm = some "FOB";
  payment_terms = none;
  valid_until = 1000;
  quotation_id = "quote_1";
  rfq_id = "rfq_1";
  context = context;
  status = status;
  version = version;
  created_at = 100;
  updated_at = updated;
}

submit-IsAccepted :
    transition_rfq (rfq_in RfqStatus.draft 1 10) RfqStatus.submitted 1 20
    ≡ ok (rfq_in RfqStatus.submitted 2 20)
unfolding baobab_trade.Commercial.Lifecycle.transition_rfq
    baobab_trade.Commercial.Lifecycle.rfq_transitions baobab_trade.Commercial.Lifecycle.refuse_if
submit-IsAccepted = refl

withdrawal-IsAccepted :
    transition_quotation (quotation QuotationStatus.issued 1 100) QuotationStatus.withdrawn 1 200
    ≡ ok (quotation QuotationStatus.withdrawn 2 200)
unfolding baobab_trade.Commercial.Lifecycle.transition_quotation
    baobab_trade.Commercial.Lifecycle.refuse_if
withdrawal-IsAccepted = refl

input-IsIssued :
    issue_quotation "quote_1" date input (rfq_in RfqStatus.under_review 3 30) 100
    ≡ ok (quotation QuotationStatus.issued 1 100)
unfolding baobab_trade.Commercial.Timestamps.timestamp
    baobab_trade.Commercial.Timestamps.is_timestamp_text
    baobab_trade.Commercial.Issue.issue_quotation baobab_trade.Commercial.Issue.until
    baobab_trade.Commercial.Issue.is_quotation baobab_trade.Commercial.Issue.is_line
    baobab_trade.Commercial.Issue.is_quantity baobab_trade.Commercial.Issue.is_money
    baobab_trade.Commercial.Issue.is_unit baobab_trade.Commercial.Issue.is_id
    baobab_trade.Commercial.Issue.is_unique baobab_trade.Commercial.Issue.is_incoterm
    baobab_trade.Commercial.Issue.is_text_within baobab_trade.Commercial.Decimals.scaled
    baobab_trade.Commercial.Decimals.equal_decimal baobab_trade.Commercial.Decimals.times
    baobab_trade.Commercial.Decimals.sum_of baobab_trade.Commercial.Decimals.sum_at
    baobab_trade.Commercial.Decimals.max_scale baobab_trade.Commercial.Decimals.is_decimal
    baobab_trade.Commercial.Decimals.is_decimal_text baobab_trade.Commercial.Decimals.is_nonzero
    baobab_trade.Commercial.Lifecycle.refuse_if
input-IsIssued = refl

abbrev history : List Attempt
history =
    record { to = RfqStatus.under_review; version = 2; now = 30 }
    ∷ record { to = RfqStatus.withdrawn; version = 2; now = 40 }
    ∷ []

attempts-IsLater_example :
    IsLater
      (rfq_in RfqStatus.submitted 2 20)
      (attempts (rfq_in RfqStatus.submitted 2 20) history).1
      (attempts (rfq_in RfqStatus.submitted 2 20) history).0
attempts-IsLater_example = attempts-IsLater (rfq_in RfqStatus.submitted 2 20) history

transition_rfq-Once_example :
    transition_rfq ((attempts (rfq_in RfqStatus.submitted 2 20) history).0) RfqStatus.withdrawn 1 50
    ≡ refuses conflict
transition_rfq-Once_example =
    transition_rfq-Once (rfq_in RfqStatus.draft 1 10) RfqStatus.submitted 1 20
      (rfq_in RfqStatus.submitted 2 20) submit-IsAccepted history RfqStatus.withdrawn 50

transition_quotation-IsClosing_example :
    IsClosing
      (quotation QuotationStatus.issued 1 100)
      200
      (quotation QuotationStatus.withdrawn 2 200)
transition_quotation-IsClosing_example =
    transition_quotation-IsClosing (quotation QuotationStatus.issued 1 100)
      QuotationStatus.withdrawn 1 200 (quotation QuotationStatus.withdrawn 2 200)
      withdrawal-IsAccepted

issue_quotation-IsPriced_example :
    IsPriced (rfq_in RfqStatus.under_review 3 30) 100 (quotation QuotationStatus.issued 1 100)
issue_quotation-IsPriced_example =
    issue_quotation-IsPriced "quote_1" date input (rfq_in RfqStatus.under_review 3 30) 100
      (quotation QuotationStatus.issued 1 100) input-IsIssued
