-- ===== src/Policy/Plain.antt =====
-- The parts of the evaluator that never answer APPROVAL_REQUIRED.
use baobab_trade.Prelude.{
  ℕ, ℤ, ◌≡◌, ◌≢◌, refl, String, Bool, true, false, Option, none, some, List, [], ◌∷◌, arith,
  if◌then◌else◌,
}
use baobab_trade.Policy.Decision.{
  Check, pass, stop, ◌>>=◌, ◌>>◌, deny_if, load, present, Source, loaded, unloaded, Single, one,
  none_found, ambiguous, DecisionReason, approval_required,
}
use baobab_trade.Policy.Facts.{
  BuyerOperationFacts, Transaction, SpendAuthority, SiteUse, SiteRecord, MarketAuthority,
  PurchaseOrderRule, BudgetFact, Hold, ReservationFact,
}
use baobab_trade.Policy.Rules.{OperationRule, SiteNeed}
use baobab_trade.Policy.Budgets.{
  evaluate_budgets, load_reservation, check_reservation, need_one, check_budget,
}
use baobab_trade.Policy.Commitment.{
  check_compiled, check_format, check_required, check_rule, check_purchase_order, positive_limit,
  unique_limit, find_limit,
}
use baobab_trade.Policy.Evaluate.{
  check_roles, check_market, check_authority, check_sites, check_site, check_each_site, load_sites,
}

-- A part that never asks for an approval.
abbrev pub Plain {ℓ} : {A : Type ℓ} → Check A → Type ℓ
Plain m = (rs : List DecisionReason) → m ≢ stop approval_required rs

pub deny_if-Plain : (c : Bool) (r : DecisionReason) → Plain (deny_if c r)
unfolding deny_if
deny_if-Plain c r rs h = ground arith

pub load-Plain {ℓ} : {A : Type ℓ} (s : Source A) → Plain (load s)
unfolding load
load-Plain (loaded a) rs h = ground arith
load-Plain unloaded rs h = ground arith

pub present-Plain {ℓ} : {A : Type ℓ} (o : Option A) (r : DecisionReason) → Plain (present o r)
unfolding present
present-Plain none r rs h = ground arith
present-Plain (some a) r rs h = ground arith

pub pass-Plain {ℓ} : {A : Type ℓ} (a : A) → Plain (pass a)
pass-Plain a rs h = ground arith

pub >>=-Plain {ℓ κ} :
    {A : Type ℓ} {B : Type κ} (m : Check A) (f : A → Check B)
    → Plain m
    → ((a : A) → Plain (f a))
    → Plain (m >>= f)
unfolding ◌>>=◌
>>=-Plain (pass a) f p q rs h = q a rs h
>>=-Plain (stop o qs) f p q rs h = p rs (ground arith)

pub >>-Plain {κ} :
    {B : Type κ} (m : Check (Unit {0})) (k : Check B) → Plain m → Plain k → Plain (m >> k)
unfolding ◌>>◌
>>-Plain (pass u) k p q rs h = q rs h
>>-Plain (stop o qs) k p q rs h = p rs (ground arith)

-- Where a plain part stands first, an escalation comes from the rest.
pub >>=-escalates {ℓ κ μ} :
    {A : Type ℓ} {B : Type κ} {P : Type μ} (m : Check A) (f : A → Check B)
    {rs : List DecisionReason}
    → Plain m
    → (m >>= f) ≡ stop approval_required rs
    → ((a : A) → m ≡ pass a → f a ≡ stop approval_required rs → P)
    → P
unfolding ◌>>=◌
>>=-escalates (pass a) f p h k = k a refl h
>>=-escalates (stop o qs) f {rs} p h k = absurd (p rs (ground arith))

pub >>-escalates {κ μ} :
    {B : Type κ} {P : Type μ} (m : Check (Unit {0})) (k : Check B) {rs : List DecisionReason}
    → Plain m
    → (m >> k) ≡ stop approval_required rs
    → (m ≡ pass tt → k ≡ stop approval_required rs → P)
    → P
unfolding ◌>>◌
>>-escalates (pass u) k p h c = c refl h
>>-escalates (stop o qs) k {rs} p h c = absurd (p rs (ground arith))

if-Plain {ℓ} :
    {A : Type ℓ} (b : Bool) (m k : Check A) → Plain m → Plain k → Plain (if b then m else k)
if-Plain true m k p q = p
if-Plain false m k p q = q

load_reservation-Plain : (r : Option (Source ReservationFact)) → Plain (load_reservation r)
unfolding load_reservation
load_reservation-Plain none = pass-Plain none
load_reservation-Plain (some s) = >>=-Plain _ _ (load-Plain s) (λ r. pass-Plain (some r))

check_reservation-Plain :
    (m : String) (tx : Transaction) (key : String) (r : Option ReservationFact)
    → Plain (check_reservation m tx key r)
unfolding check_reservation
check_reservation-Plain m tx key none = pass-Plain tt
check_reservation-Plain m tx key (some r) = deny_if-Plain _ _

need_one-Plain : (s : Single BudgetFact) → Plain (need_one s)
unfolding need_one
need_one-Plain none_found rs h = ground arith
need_one-Plain ambiguous rs h = ground arith
need_one-Plain (one b) rs h = ground arith

check_budget-Plain :
    (now : ℕ) (holds : List Hold) (tx : Transaction) (s : Single BudgetFact)
    → Plain (check_budget now holds tx s)
unfolding check_budget
check_budget-Plain now holds tx none_found = pass-Plain tt
check_budget-Plain now holds tx ambiguous = pass-Plain tt
check_budget-Plain now holds tx (one b) = deny_if-Plain _ _

-- A shortfall of a budget never asks for an approval.
pub evaluate_budgets-Plain :
    (facts : BuyerOperationFacts) (tx : Transaction) (key : String)
    → Plain (evaluate_budgets facts tx key)
unfolding evaluate_budgets
evaluate_budgets-Plain facts tx key = >>=-Plain _ _ (load-Plain facts.budgets) λ budgets.
    >>=-Plain _ _ (load_reservation-Plain facts.reservation) λ r.
      >>-Plain _ _ (check_reservation-Plain _ _ _ r) (
        >>-Plain _ _ (need_one-Plain _) (
          >>-Plain _ _ (deny_if-Plain _ _) (
            >>-Plain _ _ (check_budget-Plain _ _ _ _)
              (>>-Plain _ _ (check_budget-Plain _ _ _ _) (check_budget-Plain _ _ _ _)))))

positive_limit-Plain : (o : Option ℤ) (r : DecisionReason) → Plain (positive_limit o r)
unfolding positive_limit
positive_limit-Plain none r rs h = ground arith
positive_limit-Plain (some l) r rs h = ground arith

unique_limit-Plain :
    (field : SpendAuthority → Option ℤ) (r : DecisionReason) (s : Single SpendAuthority)
    → Plain (unique_limit field r s)
unfolding unique_limit
unique_limit-Plain field r none_found rs h = ground arith
unique_limit-Plain field r ambiguous rs h = ground arith
unique_limit-Plain field r (one a) rs h = positive_limit-Plain (field a) r rs h

pub find_limit-Plain :
    (facts : BuyerOperationFacts) (tx : Transaction) (key : String)
    (field : SpendAuthority → Option ℤ) (r : DecisionReason)
    → Plain (find_limit facts tx key field r)
unfolding find_limit
find_limit-Plain facts tx key field r =
    >>=-Plain _ _ (load-Plain facts.spend_authorities) (λ l. unique_limit-Plain field r _)

module _ (regexp : String → Option (String → Bool)) where
  check_compiled-Plain : (o : Option (String → Bool)) (n : String) → Plain (check_compiled o n)
  unfolding check_compiled
  check_compiled-Plain none n rs h = ground arith
  check_compiled-Plain (some test) n rs h = deny_if-Plain _ _ rs h

  check_format-Plain : (o : Option String) (n : String) → Plain (check_format regexp o n)
  unfolding check_format
  check_format-Plain none n = pass-Plain tt
  check_format-Plain (some p) n = check_compiled-Plain _ n

  check_rule-Plain :
      (o : Option PurchaseOrderRule) (n : Option String) → Plain (check_rule regexp o n)
  unfolding check_rule check_required
  check_rule-Plain none n = pass-Plain tt
  check_rule-Plain (some po) n =
      if-Plain po.required _ _
        (>>=-Plain _ _ (present-Plain _ _)
          λ k. >>-Plain _ _ (deny_if-Plain _ _) (check_format-Plain po.format_pattern k))
        (pass-Plain tt)

  pub check_purchase_order-Plain :
      (facts : BuyerOperationFacts) → Plain (check_purchase_order regexp facts)
  unfolding check_purchase_order
  check_purchase_order-Plain facts =
      >>=-Plain _ _ (load-Plain facts.purchase_order) (λ po. check_rule-Plain po.rule po.number)

check_each_site-Plain :
    (facts : BuyerOperationFacts) (records : List SiteRecord) (us : List SiteUse)
    → Plain (check_each_site facts records us)
unfolding check_each_site check_site
check_each_site-Plain facts records [] = pass-Plain tt
check_each_site-Plain facts records (u ∷ us) =
    >>-Plain _ _
      (>>=-Plain _ _ (present-Plain _ _) λ s. >>-Plain _ _ (deny_if-Plain _ _) (deny_if-Plain _ _))
      (check_each_site-Plain facts records us)

load_sites-Plain : (facts : BuyerOperationFacts) (us : List SiteUse) → Plain (load_sites facts us)
unfolding load_sites
load_sites-Plain facts [] = pass-Plain tt
load_sites-Plain facts (u ∷ us) =
    >>=-Plain _ _ (load-Plain facts.site_records) (λ r. check_each_site-Plain facts r (u ∷ us))

pub check_sites-Plain :
    (facts : BuyerOperationFacts) (need : SiteNeed) → Plain (check_sites facts need)
unfolding check_sites
check_sites-Plain facts need =
    >>-Plain _ _ (deny_if-Plain _ _)
      (>>-Plain _ _ (deny_if-Plain _ _) (load_sites-Plain facts facts.sites))

pub check_roles-Plain :
    (facts : BuyerOperationFacts) (rule : OperationRule) → Plain (check_roles facts rule)
unfolding check_roles
check_roles-Plain facts rule =
    >>=-Plain _ _ (load-Plain facts.roles)
      λ roles. >>-Plain _ _ (deny_if-Plain _ _) (>>-Plain _ _ (deny_if-Plain _ _) (pass-Plain _))

check_authority-Plain : (a : MarketAuthority) → Plain (check_authority a)
unfolding check_authority
check_authority-Plain a rs h = ground arith

pub check_market-Plain :
    (facts : BuyerOperationFacts) (market : Bool) → Plain (check_market facts market)
unfolding check_market
check_market-Plain facts false = pass-Plain tt
check_market-Plain facts true =
    >>=-Plain _ _ (present-Plain _ _) (λ key. check_authority-Plain facts.market_authority)
