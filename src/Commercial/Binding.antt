-- ===== src/Commercial/Binding.antt =====
-- baobab/b2b/commercial-lifecycle.ts: what a transition of a quotation can and cannot reach.
use baobab_trade.Prelude.{ℕ, ◌+◌, ◌≤◌, ◌<◌, ◌≡◌, refl, subst, true, false, arith, eqb}
use baobab_trade.Commercial.Lifecycle.{
  Quotation, QuotationStatus, ok, transition_quotation, is_binding, is_issued, is_closing,
  is_untimely,
}
use baobab_trade.Commercial.Versions.{refuse_if-ok}

-- An accepted transition closes an issued quotation in its time: it expires at its end or later, and
-- is rejected or withdrawn before it.
pub record IsClosing (q : Quotation) (now : ℕ) (q' : Quotation) : Type 0 where
  pub issued : q.status ≡ QuotationStatus.issued
  pub unbound : is_binding q'.status ≡ false
  pub expired : q'.status ≡ QuotationStatus.expired → q.valid_until ≤ now
  pub closed : ¬ (q'.status ≡ QuotationStatus.expired) → now < q.valid_until
  pub version : q'.version ≡ q.version + 1
  pub monotone : q.updated_at ≤ now
  pub final : is_issued q'.status ≡ false

is_issued-issued : (s : QuotationStatus) → is_issued s ≡ true → s ≡ QuotationStatus.issued
is_issued-issued s h = ground arith

expired_on_time :
    (s : QuotationStatus) (until now : ℕ)
    → is_untimely s until now ≡ false
    → s ≡ QuotationStatus.expired
    → until ≤ now
expired_on_time s until now h e = let k = rw e at h in ground arith

closed_in_time :
    (s : QuotationStatus) (until now : ℕ)
    → is_untimely s until now ≡ false
    → ¬ (s ≡ QuotationStatus.expired)
    → now < until
closed_in_time QuotationStatus.expired until now h n = absurd (n refl)
closed_in_time QuotationStatus.draft until now h n = ground arith
closed_in_time QuotationStatus.issued until now h n = ground arith
closed_in_time QuotationStatus.accepted until now h n = ground arith
closed_in_time QuotationStatus.rejected until now h n = ground arith
closed_in_time QuotationStatus.withdrawn until now h n = ground arith
closed_in_time QuotationStatus.converted until now h n = ground arith

closing_is_final : (s : QuotationStatus) → is_closing s ≡ true → is_issued s ≡ false
closing_is_final s h = ground arith

ok_same : {A : Type 0} {a b : A} → ok a ≡ ok b → a ≡ b
ok_same h = cc

-- A quotation that a transition changes was ISSUED and is left for good, never ACCEPTED or CONVERTED:
-- EXPIRED not before its validity ends, REJECTED or WITHDRAWN only before, one version on.
pub transition_quotation-IsClosing :
    (q : Quotation) (next : QuotationStatus) (version now : ℕ) (q' : Quotation)
    → transition_quotation q next version now ≡ ok q'
    → IsClosing q now q'
unfolding transition_quotation
transition_quotation-IsClosing q next version now q' h =
    let (free, k) = refuse_if-ok _ _ _ h in
    let (fine, k2) = refuse_if-ok _ _ _ k in
    let (timely, k3) = refuse_if-ok _ _ _ k2 in
    let same : eqb q.version version ≡ true = ground arith in
    subst (IsClosing q now) (ok_same k3) (record {
      issued = is_issued-issued q.status (ground arith);
      unbound = free;
      expired = expired_on_time next _ _ timely;
      closed = closed_in_time next _ _ timely;
      version = ground arith;
      monotone = ground arith;
      final = closing_is_final next (ground arith);
    })
