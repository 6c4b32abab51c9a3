-- ===== src/Policy/Covered.antt =====
-- What a passed budget evaluation says: every budget that binds the purchase covers it.
use baobab_trade.Prelude.{
  ℕ, ℤ, pos, ◌+ℤ◌, ◌-ℤ◌, ◌≤ℤ◌, ltb_ℤ, int_laws, ◌≡◌, refl, ◌⊎◌, inl, inr, String, Bool, true, false,
  eq_iff, ==_refl, ◌&&◌, Option, none, some, List, [], ◌∷◌, Memᴰ, filter, find, filter-mem,
  mem-filter, and_true, or_false, eq_of_==, is_key-eq, arith,
}
use baobab_trade.Policy.Decision.{
  pass, loaded, >>=-pass, >>-pass, deny_if-pass, load-pass, single, context_not_usable,
}
use baobab_trade.Policy.Facts.{
  BuyerOperationFacts, Transaction, BudgetFact, BudgetStatus, BudgetScope, Hold, Period, in_effect,
  ReservationFact,
}
use baobab_trade.Policy.Budgets.{
  evaluate_budgets, load_reservation, check_reservation, usable_holds, is_applicable,
  current_period, matches, held, needed, available, is_short, check_budget, is_ambiguous, need_one,
  of_member, of_organisation, of_agreement, is_active_budget, is_membership,
}
use baobab_trade.Policy.Usable.{InEffect, in_effect-InEffect}

InEffect-in_effect :
    (now : ℕ) (from until : Option ℕ) → InEffect now from until → in_effect now from until ≡ true
InEffect-in_effect now none none h = refl
InEffect-in_effect now (some f) none (a, b) = ground arith
InEffect-in_effect now none (some u) (a, b) = ground arith
InEffect-in_effect now (some f) (some u) (a, b) = ground arith

-- The budget is ACTIVE, in effect, and for this Market and currency.
pub record IsApplicable (now : ℕ) (tx : Transaction) (key : String) (b : BudgetFact) : Type 0 where
  pub active : b.status ≡ BudgetStatus.active
  pub current : InEffect now (some b.effective_from) b.effective_until
  pub market : b.market_key ≡ key
  pub currency : b.currency_code ≡ tx.currency_code

-- The budget is the member's, the Organisation's, or that of the purchase's agreement.
pub data Binds (member : String) (agreement : Option String) (b : BudgetFact) : Type 0 where
  by_membership :
      b.scope ≡ BudgetScope.membership → b.membership_id ≡ some member → Binds member agreement b
  by_organisation : b.scope ≡ BudgetScope.organisation → Binds member agreement b
  by_agreement :
      (a : String)
      → agreement ≡ some a
      → b.scope ≡ BudgetScope.agreement
      → b.agreement_reference ≡ some a
      → Binds member agreement b

-- What the budget has consumed in its current period.
abbrev pub consumed : BudgetFact → Option Period → ℤ
consumed b none = pos 0
consumed b (some p) = b.committed_minor +ℤ b.reserved_minor

-- What the purchase's own hold of this revision and period already reserves.
abbrev pub credit : List Hold → BudgetFact → Option Period → ℤ
credit holds b none = pos 0
credit holds b (some p) = held (find (matches b p) holds)

-- The purchase needs nothing beyond its hold, or fits in what is left.
abbrev pub Covers : ℕ → List Hold → Transaction → BudgetFact → Type 0
Covers now holds tx b =
    let p = current_period now b in
    (tx.amount_minor ≤ℤ credit holds b p)
    ⊎ (consumed b p +ℤ tx.amount_minor ≤ℤ b.limit_minor +ℤ credit holds b p)

fits_cases : (a n : ℤ) → (ltb_ℤ (pos 0) n && ltb_ℤ a n) ≡ false → (n ≤ℤ pos 0) ⊎ (n ≤ℤ a)
fits_cases a n h = ground arith

fits :
    (amount hold limit committed reserved : ℤ)
    → (amount -ℤ hold ≤ℤ pos 0) ⊎ (amount -ℤ hold ≤ℤ limit -ℤ committed -ℤ reserved)
    → (amount ≤ℤ hold) ⊎ (committed +ℤ reserved +ℤ amount ≤ℤ limit +ℤ hold)
fits amount hold limit committed reserved (inl h) = inl (omega int_laws)
fits amount hold limit committed reserved (inr h) = inr (omega int_laws)

fits_fresh :
    (amount limit : ℤ)
    → (amount -ℤ pos 0 ≤ℤ pos 0) ⊎ (amount -ℤ pos 0 ≤ℤ limit -ℤ pos 0 -ℤ pos 0)
    → (amount ≤ℤ pos 0) ⊎ (pos 0 +ℤ amount ≤ℤ limit +ℤ pos 0)
fits_fresh amount limit (inl h) = inl (omega int_laws)
fits_fresh amount limit (inr h) = inr (omega int_laws)

covers_of_period :
    (holds : List Hold) (tx : Transaction) (b : BudgetFact) (p : Option Period)
    → (ltb_ℤ (pos 0) (needed holds tx b p) && ltb_ℤ (available b p) (needed holds tx b p)) ≡ false
    → (tx.amount_minor ≤ℤ credit holds b p)
      ⊎ (consumed b p +ℤ tx.amount_minor ≤ℤ b.limit_minor +ℤ credit holds b p)
unfolding needed available
covers_of_period holds tx b none h = fits_fresh tx.amount_minor b.limit_minor (fits_cases _ _ h)
covers_of_period holds tx b (some p) h =
    fits tx.amount_minor (held (find (matches b p) holds)) b.limit_minor b.committed_minor
      b.reserved_minor (fits_cases _ _ h)

check_budget-Covers :
    (now : ℕ) (holds : List Hold) (tx : Transaction) (b : BudgetFact)
    → is_short now holds tx b ≡ false
    → Covers now holds tx b
unfolding is_short
check_budget-Covers now holds tx b h = covers_of_period holds tx b (current_period now b) h

all_covered :
    (now : ℕ) (holds : List Hold) (tx : Transaction) (bs : List BudgetFact)
    → check_budget now holds tx (single bs) ≡ pass tt
    → is_ambiguous (single bs) ≡ false
    → (b : BudgetFact) → Memᴰ b bs
    → Covers now holds tx b
unfolding check_budget single
all_covered now holds tx [] h a b m = elim m [ ]
all_covered now holds tx (x ∷ []) h a b (Memᴰ.head e) =
    rw e (check_budget-Covers now holds tx x (deny_if-pass _ _ h))
all_covered now holds tx (x ∷ []) h a b (Memᴰ.tail m) = elim m [ ]
all_covered now holds tx (x ∷ y ∷ bs) h a b m = cc

applicable_of :
    (now : ℕ) (tx : Transaction) (key : String) (b : BudgetFact)
    → IsApplicable now tx key b
    → is_applicable now tx key b ≡ true
unfolding is_applicable
applicable_of now tx key b h = rw (
  h.active,
  InEffect-in_effect now (some b.effective_from) b.effective_until h.current,
  (eq_iff b.market_key key).1 h.market,
  (eq_iff b.currency_code tx.currency_code).1 h.currency,
)

is_active_budget-eq : (s : BudgetStatus) → is_active_budget s ≡ true → s ≡ BudgetStatus.active
is_active_budget-eq s h = ground arith

is_membership-eq : (s : BudgetScope) → is_membership s ≡ true → s ≡ BudgetScope.membership
is_membership-eq s h = ground arith

is_applicable-IsApplicable :
    (now : ℕ) (tx : Transaction) (key : String) (b : BudgetFact)
    → is_applicable now tx key b ≡ true
    → IsApplicable now tx key b
unfolding is_applicable
is_applicable-IsApplicable now tx key b h =
    let (a, h2) = and_true (is_active_budget b.status) _ h in
    let (e, h3) = and_true _ _ h2 in
    let (m, c) = and_true _ _ h3 in
    record {
      active = is_active_budget-eq b.status a;
      current = in_effect-InEffect now (some b.effective_from) b.effective_until e;
      market = eq_of_== _ _ m;
      currency = eq_of_== _ _ c;
    }

one_of_need :
    (bs : List BudgetFact) → need_one (single bs) ≡ pass tt → (b : BudgetFact) × (bs ≡ b ∷ [])
unfolding need_one single
one_of_need [] h = ground arith
one_of_need (b ∷ []) h = (b, refl)
one_of_need (b ∷ c ∷ bs) h = ground arith

-- The reservation of the facts, and the holds of it that still count.
abbrev pub HoldsOf : BuyerOperationFacts → List Hold → Type 0
HoldsOf facts holds =
    (r : Option ReservationFact) × (load_reservation facts.reservation ≡ pass r)
    × (holds ≡ usable_holds facts.now r)

pub record IsCovered (facts : BuyerOperationFacts) (tx : Transaction) (key : String) : Type 0 where
  pub budgets : List BudgetFact
  pub source : facts.budgets ≡ loaded budgets
  pub reservation : Option ReservationFact
  pub reserved : load_reservation facts.reservation ≡ pass reservation
  pub same_purchase : check_reservation facts.membership_id tx key reservation ≡ pass tt
  pub own : BudgetFact
  pub own_listed : Memᴰ own budgets
  pub own_applies : IsApplicable facts.now tx key own
  pub own_scope : own.scope ≡ BudgetScope.membership
  pub own_member : own.membership_id ≡ some facts.membership_id
  pub covered :
      (b : BudgetFact)
      → Memᴰ b budgets
      → IsApplicable facts.now tx key b
      → Binds facts.membership_id tx.agreement_reference b
      → Covers facts.now (usable_holds facts.now reservation) tx b

covered_of :
    (now : ℕ) (holds : List Hold) (tx : Transaction) (q : BudgetFact → Bool) (bs : List BudgetFact)
    → check_budget now holds tx (single (filter q bs)) ≡ pass tt
    → is_ambiguous (single (filter q bs)) ≡ false
    → (b : BudgetFact) → Memᴰ b bs
    → q b ≡ true
    → Covers now holds tx b
covered_of now holds tx q bs h a b m e =
    all_covered now holds tx (filter q bs) h a b (mem-filter q bs m e)

is_ambiguous_of_one :
    (bs : List BudgetFact) (b : BudgetFact) → bs ≡ b ∷ [] → is_ambiguous (single bs) ≡ false
unfolding single
is_ambiguous_of_one bs b e = rw e

of_agreement-eq :
    (agreement : Option String) (a : String) (b : BudgetFact)
    → agreement ≡ some a
    → b.scope ≡ BudgetScope.agreement
    → b.agreement_reference ≡ some a
    → of_agreement agreement b ≡ true
of_agreement-eq agreement a b e s r = rw (e, s, r) ((eq_iff a a).1 refl)

-- The only budget that a filter keeps is listed, and passes the filter.
mem_of_only :
    (q : BudgetFact → Bool) (bs : List BudgetFact) (b : BudgetFact)
    → filter q bs ≡ b ∷ []
    → Memᴰ b bs × (q b ≡ true)
mem_of_only q bs b e = let m : Memᴰ b (filter q bs) = rw e (Memᴰ.head refl) in filter-mem q bs m

-- Where the budgets do not refuse, the member's own budget is there, and every budget that binds
-- the purchase covers it beyond its own hold.
pub evaluate_budgets-IsCovered :
    (facts : BuyerOperationFacts) (tx : Transaction) (key : String)
    → evaluate_budgets facts tx key ≡ pass tt
    → IsCovered facts tx key
unfolding evaluate_budgets
evaluate_budgets-IsCovered facts tx key h = >>=-pass _ _ h λ budgets l h2.
    >>=-pass _ _ h2 λ reservation r h3. >>-pass _ _ h3 λ same h4. >>-pass _ _ h4 λ need h5.
      >>-pass _ _ h5 λ clear h6. >>-pass _ _ h6 λ member h7.
        >>-pass _ _ h7 λ organisation agreement.
          let now = facts.now in
          let holds = usable_holds now reservation in
          let bs = filter (is_applicable now tx key) budgets in
          let (own, only) = one_of_need _ need in
          let (m, q) = mem_of_only (of_member facts.membership_id) bs own only in
          let (m2, applies) = filter-mem (is_applicable now tx key) budgets m in
          let (scope, id) = and_true _ _ q in
          let alone =
            or_false (is_ambiguous (single (filter of_organisation bs)))
              (is_ambiguous (single (filter (of_agreement tx.agreement_reference) bs)))
              (deny_if-pass _ context_not_usable clear) in
          record {
            budgets = budgets;
            source = load-pass _ l;
            reservation = reservation;
            reserved = r;
            same_purchase = same;
            own = own;
            own_listed = m2;
            own_applies = is_applicable-IsApplicable now tx key own applies;
            own_scope = is_membership-eq own.scope scope;
            own_member = is_key-eq _ _ id;
            covered = λ b i a binds.
                let k =
                  mem-filter (is_applicable now tx key) budgets i (applicable_of now tx key b a) in
                elim binds [
                  | by_membership s e ↦
                      covered_of now holds tx (of_member facts.membership_id) bs member
                        (is_ambiguous_of_one _ own only) b k
                        (rw (s, e) (==_refl facts.membership_id))
                  | by_organisation s ↦
                      covered_of now holds tx of_organisation bs organisation alone.0 b k (rw s)
                  | by_agreement a e s r ↦
                      covered_of now holds tx (of_agreement tx.agreement_reference) bs agreement
                        alone.1 b k (of_agreement-eq _ a b e s r)
                ];
          }
