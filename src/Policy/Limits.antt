-- ===== src/Policy/Limits.antt =====
-- The purchase order and the spend limit of an allowed commitment.
use Prim.Native.String
use baobab_trade.Prelude.{
  ℤ, pos, ◌<ℤ◌, ◌≡◌, ◌≢◌, refl, String, Bool, true, false, not, eq_iff, Option, none, some, List,
  [], ◌∷◌, filter, arith, if◌then◌else◌,
}
use baobab_trade.Policy.Decision.{
  Check, pass, loaded, >>=-pass, >>-pass, deny_if-pass, load-pass, present-pass, Single, one,
  none_found, ambiguous, single-one, DecisionReason,
}
use baobab_trade.Policy.Facts.{
  BuyerOperationFacts, Transaction, SpendAuthority, PurchaseOrderRule, PurchaseOrderFact,
}
use baobab_trade.Policy.Commitment.{
  non_empty, is_po_number, check_compiled, check_format, check_required, check_rule,
  check_purchase_order, authority_applies, positive_limit, unique_limit, find_limit,
}

pub un_not : (b : Bool) → not b ≡ false → b ≡ true
un_not b h = ground arith

pub non_empty-some :
    (o : Option String) (s : String) → non_empty o ≡ some s → (o ≡ some s) × (s ≢ "")
non_empty-some none s h = ground arith
non_empty-some (some a) s h = ground (arith, eq_iff a "")

check_compiled-pass :
    (o : Option (String → Bool)) (n : String)
    → check_compiled o n ≡ pass tt
    → (test : String → Bool) × (o ≡ some test) × (test n ≡ true)
unfolding check_compiled
check_compiled-pass none n h = ground arith
check_compiled-pass (some test) n h = (test, refl, un_not _ (deny_if-pass _ _ h))

of_required :
    (b : Bool) (c : Check (Unit {0}))
    → (if b then c else pass tt) ≡ pass tt
    → b ≡ true
    → c ≡ pass tt
of_required true c h e = h
of_required false c h e = cc

-- A required purchase order has a number in the general form, and in the rule's own format.
module _ (regexp : String → Option (String → Bool)) where
  abbrev pub InFormat : Option String → String → Type 0
  InFormat none n = Unit
  InFormat (some p) n =
      (test : String → Bool) × (regexp (String.◌++◌ "^(?:" (String.◌++◌ p ")$")) ≡ some test)
      × (test n ≡ true)

  abbrev pub HasNumber : PurchaseOrderRule → Option String → Type 0
  HasNumber rule number =
      (n : String) × (number ≡ some n)
      × (n ≢ "")
      × (is_po_number n ≡ true)
      × InFormat rule.format_pattern n

  pub record HasPurchaseOrder (facts : BuyerOperationFacts) : Type 0 where
    pub fact : PurchaseOrderFact
    pub source : facts.purchase_order ≡ loaded fact
    pub met :
        (rule : PurchaseOrderRule)
        → fact.rule ≡ some rule
        → rule.required ≡ true
        → HasNumber rule fact.number

  check_format-pass :
      (o : Option String) (n : String) → check_format regexp o n ≡ pass tt → InFormat o n
  unfolding check_format
  check_format-pass none n h = tt
  check_format-pass (some p) n h = check_compiled-pass _ n h

  check_required-pass :
      (rule : PurchaseOrderRule) (number : Option String)
      → check_required regexp rule number ≡ pass tt
      → HasNumber rule number
  unfolding check_required
  check_required-pass rule number h = >>=-pass _ _ h λ n p h2. >>-pass _ _ h2 λ form h3.
      let (same, full) = non_empty-some number n (present-pass _ _ p) in
      (n, same, full, un_not _ (deny_if-pass _ _ form), check_format-pass rule.format_pattern n h3)

  check_rule-pass :
      (o : Option PurchaseOrderRule) (number : Option String)
      → check_rule regexp o number ≡ pass tt
      → (rule : PurchaseOrderRule) → o ≡ some rule
      → rule.required ≡ true
      → HasNumber rule number
  unfolding check_rule
  check_rule-pass none number h rule e r = cc
  check_rule-pass (some po) number h rule e r =
      let same : po ≡ rule = cc in
      check_required-pass rule number (of_required rule.required _ (rw same at h) r)

  pub check_purchase_order-pass :
      (facts : BuyerOperationFacts)
      → check_purchase_order regexp facts ≡ pass tt
      → HasPurchaseOrder facts
  unfolding check_purchase_order
  check_purchase_order-pass facts h = >>=-pass _ _ h λ po l k. record {
    fact = po;
    source = load-pass _ l;
    met = check_rule-pass po.rule po.number k;
  }

-- Exactly one spend authority is in effect for the Market and currency, and it names a limit above
-- zero in the given field.
pub record HasLimit (facts : BuyerOperationFacts) (tx : Transaction) (key : String)
    (field : SpendAuthority → Option ℤ) (limit : ℤ) : Type 0 where
  pub authorities : List SpendAuthority
  pub source : facts.spend_authorities ≡ loaded authorities
  pub authority : SpendAuthority
  pub only : filter (authority_applies facts.now key tx) authorities ≡ authority ∷ []
  pub named : field authority ≡ some limit
  pub positive : pos 0 <ℤ limit

positive_limit-pass :
    (o : Option ℤ) (r : DecisionReason) (limit : ℤ)
    → positive_limit o r ≡ pass limit
    → (o ≡ some limit) × (pos 0 <ℤ limit)
unfolding positive_limit
positive_limit-pass none r limit h = ground arith
positive_limit-pass (some l) r limit h = ground arith

unique_limit-pass :
    (field : SpendAuthority → Option ℤ) (r : DecisionReason) (s : Single SpendAuthority) (limit : ℤ)
    → unique_limit field r s ≡ pass limit
    → (a : SpendAuthority) × (s ≡ one a) × (field a ≡ some limit) × (pos 0 <ℤ limit)
unfolding unique_limit
unique_limit-pass field r none_found limit h = ground arith
unique_limit-pass field r ambiguous limit h = ground arith
unique_limit-pass field r (one a) limit h =
    let (n, p) = positive_limit-pass (field a) r limit h in (a, refl, n, p)

pub find_limit-pass :
    (facts : BuyerOperationFacts) (tx : Transaction) (key : String)
    (field : SpendAuthority → Option ℤ) (r : DecisionReason) (limit : ℤ)
    → find_limit facts tx key field r ≡ pass limit
    → HasLimit facts tx key field limit
unfolding find_limit
find_limit-pass facts tx key field r limit h = >>=-pass _ _ h λ found l k.
    let (a, e, n, p) = unique_limit-pass field r _ limit k in
    record {
      authorities = found;
      source = load-pass _ l;
      authority = a;
      only = single-one _ e;
      named = n;
      positive = p;
    }
