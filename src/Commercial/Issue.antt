-- ===== src/Commercial/Issue.antt =====
-- baobab/b2b/commercial-lifecycle.ts: issueQuotation, on an input of the right shape. `date` is what
-- the host's `Date` makes of a text, and the id is a random one.
use Prim.Native.String.{String}
use baobab_trade.Prelude.{
  ℕ, leb, eqb, Bool, true, false, not, ◌&&◌, ◌||◌, ◌==◌, Option, none, some, List, [], ◌∷◌, length,
  any, all, includes, codes, is_digit, is_upper, is_alphanumeric, is_key_char, units, is_run,
  between, map,
}
use baobab_trade.Commercial.Lifecycle.{
  Rfq, RfqStatus, RfqLine, Quantity, Money, QuotationLine, Quotation, QuotationStatus, Result, ok,
  refuses, refuse_if, invalid_request, conflict,
}
use baobab_trade.Commercial.Decimals.{
  Decimal, scaled, equal_decimal, times, sum_of, is_decimal, is_nonzero,
}
use baobab_trade.Commercial.Timestamps.{timestamp}

pub record QuotationInput : Type 0 where
  pub currency : String
  pub lines : List QuotationLine
  pub total : Money
  pub incoterm : Option String
  pub payment_terms : Option String
  pub valid_until : String

abbrev id_shape : List ℕ → Bool
id_shape [] = false
id_shape (c ∷ cs) = is_alphanumeric c && (all is_key_char cs && between 2 127 (length cs))

-- ID.
unfoldable pub is_id : String → Bool
is_id s = id_shape (codes s)

abbrev is_unit_char : ℕ → Bool
is_unit_char c = is_upper c || is_digit c || eqb c b'.' || eqb c b'_' || eqb c b'/' || eqb c b'-'

abbrev unit_shape : List ℕ → Bool
unit_shape [] = false
unit_shape (c ∷ cs) = (is_upper c || is_digit c) && (all is_unit_char cs && leb (length cs) 23)

unfoldable pub is_unit : String → Bool
is_unit s = unit_shape (codes s)

-- `quantity`.
unfoldable pub is_quantity : Quantity → Bool
is_quantity q = is_decimal q.value && (is_nonzero q.value && is_unit q.unit)

-- `money`, in the currency of the quotation.
unfoldable pub is_money : String → Money → Bool
is_money currency m = m.currency == currency && is_decimal m.amount

abbrev pub offers : QuotationLine → RfqLine → Bool
offers l offered = offered.variant_id == l.variant_id && offered.quantity.unit == l.quantity.unit

-- One line: its shape, its total as the product of quantity and price, and what was asked for.
unfoldable pub is_line : Rfq → String → QuotationLine → Bool
is_line rfq currency l =
    is_id l.line_id
    && (is_id l.variant_id
        && (is_quantity l.quantity
            && (is_money currency l.unit_price
                && (is_money currency l.line_total
                    && (equal_decimal (times (scaled l.quantity.value) (scaled l.unit_price.amount))
                          (scaled l.line_total.amount)
                        && any (offers l) rfq.lines)))))

-- `unique`.
unfoldable pub is_unique : List String → Bool
is_unique [] = true
is_unique (s ∷ ss) = not (includes ss s) && is_unique ss

unfoldable pub is_text_within : ℕ → Option String → Bool
is_text_within n none = true
is_text_within n (some s) = leb (units (codes s)) n

unfoldable pub is_incoterm : Option String → Bool
is_incoterm none = true
is_incoterm (some s) = is_run is_upper 3 3 s

abbrev pub line_totals : List QuotationLine → List Decimal
line_totals = map (λ l. scaled l.line_total.amount)

unfoldable pub is_quotation : Rfq → QuotationInput → Bool
is_quotation rfq input =
    is_run is_upper 3 3 input.currency
    && (between 1 100 (length input.lines)
        && (all (is_line rfq input.currency) input.lines
            && (is_unique (map (λ l. l.line_id) input.lines)
                && (is_money input.currency input.total
                    && (equal_decimal (sum_of (line_totals input.lines)) (scaled input.total.amount)
                        && (is_incoterm input.incoterm
                            && is_text_within 500 input.payment_terms))))))

abbrev pub is_under_review : RfqStatus → Bool
is_under_review RfqStatus.under_review = true
is_under_review _ = false

module _ (quotation_id : String) where
  unfoldable pub until : Rfq → QuotationInput → ℕ → Option ℕ → Result Quotation
  until rfq input now none = refuses invalid_request
  until rfq input now (some valid_until) = refuse_if (leb valid_until now) invalid_request (
      ok (record {
        currency = input.currency;
        lines = input.lines;
        total = input.total;
        incoterm = input.incoterm;
        payment_terms = input.payment_terms;
        valid_until = valid_until;
        quotation_id = quotation_id;
        rfq_id = rfq.rfq_id;
        context = rfq.context;
        status = QuotationStatus.issued;
        version = 1;
        created_at = now;
        updated_at = now;
      }))

  -- `issueQuotation`.
  unfoldable pub issue_quotation :
      (String → Option (ℕ × String)) → QuotationInput → Rfq → ℕ → Result Quotation
  issue_quotation date input rfq now = refuse_if (not (is_under_review rfq.status)) conflict (
      refuse_if (not (is_quotation rfq input)) invalid_request
        (until rfq input now (timestamp date input.valid_until)))
