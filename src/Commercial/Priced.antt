-- ===== src/Commercial/Priced.antt =====
-- baobab/b2b/commercial-lifecycle.ts: what an issued quotation says.
use baobab_trade.Prelude.{
  ℕ, ◌<◌, ◌≤◌, ◌≡◌, sym, String, true, false, not, Option, none, some, Memᴰ, All, all, any, all-mem,
  any-mem, and_true, eq_of_==, arith, ◌∙◌,
}
use baobab_trade.Commercial.Lifecycle.{
  Rfq, RfqStatus, RfqLine, QuotationLine, Quotation, QuotationStatus, ok,
}
use baobab_trade.Commercial.Decimals.{scaled, times, equal_decimal, sum_of}
use baobab_trade.Commercial.Exact.{
  at_scale, total_at, SameValue, FitsIn, equal_decimal-SameValue, sum_of-total_at, max_scale-Bound,
}
use baobab_trade.Commercial.Issue.{
  QuotationInput, is_line, offers, is_quotation, line_totals, is_under_review, until,
  issue_quotation,
}
use baobab_trade.Commercial.Versions.{refuse_if-ok}

-- A line is the exact product of its quantity and its price, of something that was asked for.
pub record IsPricedLine (rfq : Rfq) (l : QuotationLine) : Type 0 where
  pub exact :
      SameValue
        (times (scaled l.quantity.value) (scaled l.unit_price.amount))
        (scaled l.line_total.amount)
  pub asked : RfqLine
  pub listed : Memᴰ asked rfq.lines
  pub variant : asked.variant_id ≡ l.variant_id
  pub unit : asked.quantity.unit ≡ l.quantity.unit

-- The quotation answers a request under review; its lines are exact, and so is its total: at every
-- scale that is fine enough for all of them.
pub record IsPriced (rfq : Rfq) (now : ℕ) (q : Quotation) : Type 0 where
  pub reviewed : rfq.status ≡ RfqStatus.under_review
  pub issued : q.status ≡ QuotationStatus.issued
  pub answers : q.rfq_id ≡ rfq.rfq_id
  pub for_context : q.context ≡ rfq.context
  pub still_valid : now < q.valid_until
  pub priced : (l : QuotationLine) → Memᴰ l q.lines → IsPricedLine rfq l
  pub total :
      (K : ℕ)
      → All (FitsIn K) (line_totals q.lines)
      → (scaled q.total.amount).scale ≤ K
      → total_at K (line_totals q.lines) ≡ at_scale K (scaled q.total.amount)

is_line-IsPricedLine :
    (rfq : Rfq) (currency : String) (l : QuotationLine)
    → is_line rfq currency l ≡ true
    → IsPricedLine rfq l
unfolding is_line
is_line-IsPricedLine rfq currency l h =
    let exact : equal_decimal (times (scaled l.quantity.value) (scaled l.unit_price.amount))
          (scaled l.line_total.amount)
        ≡ true =
      ground arith in
    let asks : any (offers l) rfq.lines ≡ true = ground arith in
    let (asked, listed, same) = any-mem (offers l) rfq.lines asks in
    let (variant, unit) = and_true _ _ same in
    record {
      exact = equal_decimal-SameValue _ _ exact;
      asked = asked;
      listed = listed;
      variant = eq_of_== _ _ variant;
      unit = eq_of_== _ _ unit;
    }

until-ok :
    (id : String) (rfq : Rfq) (input : QuotationInput) (now : ℕ) (o : Option ℕ) (q : Quotation)
    → until id rfq input now o ≡ ok q
    → (q.lines ≡ input.lines)
      × (q.total ≡ input.total)
      × (q.rfq_id ≡ rfq.rfq_id)
      × (q.context ≡ rfq.context)
      × (q.status ≡ QuotationStatus.issued)
      × (now < q.valid_until)
unfolding until
until-ok id rfq input now none q h = absurd (ground arith)
until-ok id rfq input now (some v) q h =
    let (later, k) = refuse_if-ok _ _ _ h in
    (ground arith, ground arith, ground arith, ground arith, ground arith, ground arith)

is_under_review-eq : (s : RfqStatus) → not (is_under_review s) ≡ false → s ≡ RfqStatus.under_review
is_under_review-eq s h = ground arith

-- A quotation is issued only for a request under review, and for a time to come. Each line is of a
-- variant and a unit that the request names, and its total is exactly its quantity times its price;
-- the total of the quotation is exactly the sum of its lines, whatever scales they are written with.
pub issue_quotation-IsPriced :
    (id : String) (date : String → Option (ℕ × String)) (input : QuotationInput) (rfq : Rfq)
    (now : ℕ) (q : Quotation)
    → issue_quotation id date input rfq now ≡ ok q
    → IsPriced rfq now q
unfolding issue_quotation is_quotation
issue_quotation-IsPriced id date input rfq now q h =
    let (review, k) = refuse_if-ok _ _ _ h in
    let (shape, k2) = refuse_if-ok _ _ _ k in
    let (lines, total, rfq_id, context, status, valid) = until-ok id rfq input now _ q k2 in
    let each : all (is_line rfq input.currency) input.lines ≡ true = ground arith in
    let summed : equal_decimal (sum_of (line_totals input.lines)) (scaled input.total.amount)
        ≡ true =
      ground arith in
    record {
      reviewed = is_under_review-eq rfq.status review;
      issued = status;
      answers = rfq_id;
      for_context = context;
      still_valid = valid;
      priced = λ l m.
          is_line-IsPricedLine rfq input.currency l
            (all-mem (is_line rfq input.currency) input.lines each (rw lines at m));
      total = λ K fits fit.
          rw (lines, total)
            (sym (sum_of-total_at (line_totals input.lines) K (rw lines at fits))
              ∙ equal_decimal-SameValue _ _ summed K
                  (max_scale-Bound (line_totals input.lines) K (rw lines at fits))
                  (rw total at fit));
    }
