-- ===== src/Policy/Budgets.antt =====
-- baobab/b2b/buyer-operation-policy.ts: evaluateBudgets. `null` is `pass tt`.
use baobab_trade.Prelude.{
  ℕ, ℤ, pos, ◌-ℤ◌, ltb_ℤ, leb, ltb, eqb, String, Bool, true, false, not, ◌&&◌, ◌||◌, ◌==◌, opt_eq,
  is_key, Option, none, some, List, [], ◌∷◌, filter, find, if◌then◌else◌,
}
use baobab_trade.Policy.Decision.{
  Check, pass, stop, ◌>>=◌, ◌>>◌, deny_if, load, Source, single, Single, none_found, ambiguous, one,
  denied, transaction_changed, spend_policy_not_configured, context_not_usable,
  spend_limit_exceeded,
}
use baobab_trade.Policy.Facts.{
  BudgetFact, BudgetStatus, BudgetScope, Hold, ReservationFact, ReservationStatus, Transaction,
  Period, BuyerOperationFacts, in_effect,
}

abbrev pub is_active_budget : BudgetStatus → Bool
is_active_budget BudgetStatus.active = true
is_active_budget _ = false

abbrev pub is_membership : BudgetScope → Bool
is_membership BudgetScope.membership = true
is_membership _ = false

abbrev pub is_organisation : BudgetScope → Bool
is_organisation BudgetScope.organisation = true
is_organisation _ = false

abbrev pub is_agreement : BudgetScope → Bool
is_agreement BudgetScope.agreement = true
is_agreement _ = false

abbrev pub is_active_reservation : ReservationStatus → Bool
is_active_reservation ReservationStatus.active = true
is_active_reservation _ = false

-- The reservation is not for this purchase.
unfoldable pub other_purchase : String → Transaction → String → ReservationFact → Bool
other_purchase membership_id tx market_key r =
    not (r.membership_id == membership_id)
    || not (r.market_key == market_key)
    || not (r.currency_code == tx.currency_code)
    || not (opt_eq r.agreement_reference tx.agreement_reference)
    || not (r.transaction_digest == tx.transaction_digest)
    || not (r.resource_version == tx.resource_version)

-- `facts.reservation`, once it is loaded: `none` where the purchase has none.
unfoldable pub load_reservation : Option (Source ReservationFact) → Check (Option ReservationFact)
load_reservation none = pass none
load_reservation (some s) = do r ← load s; pass (some r)

unfoldable pub check_reservation :
    String → Transaction → String → Option ReservationFact → Check (Unit {0})
check_reservation membership_id tx market_key none = pass tt
check_reservation membership_id tx market_key (some r) =
    deny_if (other_purchase membership_id tx market_key r) transaction_changed

-- The holds of the reservation, if it still authorises anything.
unfoldable pub usable_holds : ℕ → Option ReservationFact → List Hold
usable_holds now none = []
usable_holds now (some r) =
    if is_active_reservation r.status && ltb now r.expires_at then r.holds else []

unfoldable pub is_applicable : ℕ → Transaction → String → BudgetFact → Bool
is_applicable now tx market_key b =
    is_active_budget b.status
    && (in_effect now (some b.effective_from) b.effective_until
        && (b.market_key == market_key && b.currency_code == tx.currency_code))

-- The period of the balance, if it is the current one.
unfoldable pub current_period : ℕ → BudgetFact → Option Period
current_period now b = elim b.period [
  | none ↦ none
  | some p ↦ if leb p.starts_at now && ltb now p.ends_at then some p else none
]

abbrev pub matches : BudgetFact → Period → Hold → Bool
matches b p h =
    h.policy_id == b.policy_id
    && (eqb h.policy_revision b.revision && eqb h.period_starts_at p.starts_at)

abbrev pub held : Option Hold → ℤ
held none = pos 0
held (some h) = h.reserved_minor

-- What the purchase still needs of the budget, and what the budget has left.
unfoldable pub needed : List Hold → Transaction → BudgetFact → Option Period → ℤ
needed holds tx b none = tx.amount_minor -ℤ pos 0
needed holds tx b (some p) = tx.amount_minor -ℤ held (find (matches b p) holds)

unfoldable pub available : BudgetFact → Option Period → ℤ
available b none = b.limit_minor -ℤ pos 0 -ℤ pos 0
available b (some p) = b.limit_minor -ℤ b.committed_minor -ℤ b.reserved_minor

unfoldable pub is_short : ℕ → List Hold → Transaction → BudgetFact → Bool
is_short now holds tx b =
    let p = current_period now b in
    ltb_ℤ (pos 0) (needed holds tx b p) && ltb_ℤ (available b p) (needed holds tx b p)

-- One round of the loop over the budgets; `"NONE"` is passed over.
unfoldable pub check_budget : ℕ → List Hold → Transaction → Single BudgetFact → Check (Unit {0})
check_budget now holds tx none_found = pass tt
check_budget now holds tx ambiguous = pass tt
check_budget now holds tx (one b) = deny_if (is_short now holds tx b) spend_limit_exceeded

abbrev pub is_ambiguous : Single BudgetFact → Bool
is_ambiguous ambiguous = true
is_ambiguous none_found = false
is_ambiguous (one b) = false

-- The mandatory budget.
unfoldable pub need_one : Single BudgetFact → Check (Unit {0})
need_one none_found = stop denied (spend_policy_not_configured ∷ [])
need_one ambiguous = stop denied (context_not_usable ∷ [])
need_one (one b) = pass tt

abbrev pub of_member : String → BudgetFact → Bool
of_member membership_id b = is_membership b.scope && is_key b.membership_id membership_id

abbrev pub of_organisation : BudgetFact → Bool
of_organisation b = is_organisation b.scope

-- `b.scope === "AGREEMENT" && agreement !== null && b.agreementReference === agreement`.
abbrev pub of_agreement : Option String → BudgetFact → Bool
of_agreement none b = false
of_agreement (some a) b = is_agreement b.scope && is_key b.agreement_reference a

unfoldable pub evaluate_budgets : BuyerOperationFacts → Transaction → String → Check (Unit {0})
evaluate_budgets facts tx market_key = do
  budgets ← load facts.budgets
  reservation ← load_reservation facts.reservation
  check_reservation facts.membership_id tx market_key reservation
  let holds = usable_holds facts.now reservation
  let applicable = filter (is_applicable facts.now tx market_key) budgets
  let member = single (filter (of_member facts.membership_id) applicable)
  need_one member
  let organisation = single (filter of_organisation applicable)
  let agreement = single (filter (of_agreement tx.agreement_reference) applicable)
  deny_if (is_ambiguous organisation || is_ambiguous agreement) context_not_usable
  check_budget facts.now holds tx member
  check_budget facts.now holds tx organisation
  check_budget facts.now holds tx agreement
