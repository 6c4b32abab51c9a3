-- ===== src/Policy/Escalation.antt =====
-- When the evaluator answers APPROVAL_REQUIRED: only where an approval could help.
use baobab_trade.Prelude.{
  ℤ, ltb_ℤ, ◌≡◌, refl, sym, ap, subst, String, Bool, false, not, ◌&&◌, Option, none, some, List, [],
  ◌∷◌, Memᴰ, inl, inr, filter, arith, Bool-cases,
}
use baobab_trade.Policy.Decision.{
  Check, pass, stop, loaded, single, one, DecisionReason, approval_required, BuyerOperationDecision,
  refuse, allow, decision, load-pass, deny_if-pass, present-pass, unavailable, selection_required,
  denied,
}
use baobab_trade.Policy.Facts.{
  BuyerOperationFacts, Transaction, ApprovalPolicyRecord, BoundApproval,
}
use baobab_trade.Policy.Rules.{
  OperationRule, operation_rule, Kind, read, change, commitment, approval, governed,
}
use baobab_trade.Policy.Commitment.{
  non_empty, policy_applies, over_threshold, is_none_found, is_ambiguous_policy, escalation_reasons,
  escalate, need_approval, apply_approval, check_approver, evaluate_commitment,
}
use baobab_trade.Policy.Approval.{evaluate_approval_decision}
use baobab_trade.Policy.Evaluate.{evaluate_buyer_operation, by_kind, check_membership, check_scope}
use baobab_trade.Policy.Plain.{
  Plain, pass-Plain, deny_if-Plain, load-Plain, present-Plain, >>=-Plain, >>-Plain, >>=-escalates,
  >>-escalates, evaluate_budgets-Plain, find_limit-Plain, check_purchase_order-Plain,
  check_sites-Plain, check_roles-Plain, check_market-Plain,
}
use baobab_trade.Policy.Covered.{IsCovered, evaluate_budgets-IsCovered}
use baobab_trade.Policy.Limits.{HasLimit, find_limit-pass}
use baobab_trade.Policy.Exceeds.{Exceeds, escalation_Exceeds, IsFor, only-IsFor, only-alone}

-- What an APPROVAL_REQUIRED answer rests on: the order limit and the budgets of the Market are in
-- order, one policy alone is enabled for the Market and currency, and the amount exceeds the limit
-- or the policy's threshold; the reasons name exactly which.
pub record NeedsApproval (facts : BuyerOperationFacts) (rs : List DecisionReason) : Type 0 where
  pub tx : Transaction
  pub transaction : facts.transaction ≡ some tx
  pub key : String
  pub market : facts.market_key ≡ some key
  pub limit : ℤ
  pub limited : HasLimit facts tx key (λ s. s.order_limit_minor) limit
  pub covered : IsCovered facts tx key
  pub policies : List ApprovalPolicyRecord
  pub source : facts.approval_policies ≡ loaded policies
  pub policy : ApprovalPolicyRecord
  pub listed : Memᴰ policy policies
  pub applies : IsFor key tx policy
  pub alone : (q : ApprovalPolicyRecord) → Memᴰ q policies → IsFor key tx q → q ≡ policy
  pub only : filter (policy_applies key tx) policies ≡ policy ∷ []
  pub reasons : Exceeds tx.amount_minor limit policy.threshold_minor rs

check_approver_reasons :
    (o : Option BuyerOperationDecision) (qs rs : List DecisionReason)
    → check_approver o qs ≡ stop approval_required rs
    → rs ≡ qs
unfolding check_approver
check_approver_reasons none qs rs h = ground arith
check_approver_reasons (some allow) qs rs h = ground arith
check_approver_reasons (some (refuse unavailable ps)) qs rs h = ground arith
check_approver_reasons (some (refuse approval_required ps)) qs rs h = ground arith
check_approver_reasons (some (refuse selection_required ps)) qs rs h = ground arith
check_approver_reasons (some (refuse denied ps)) qs rs h = ground arith

apply_approval_reasons :
    (facts : BuyerOperationFacts) (tx : Transaction) (key : String) (a : BoundApproval)
    (qs rs : List DecisionReason)
    → apply_approval facts tx key a qs ≡ stop approval_required rs
    → rs ≡ qs
unfolding apply_approval
apply_approval_reasons facts tx key a qs rs h = >>-escalates _ _ (deny_if-Plain _ _) h λ _ h2.
    >>=-escalates _ _ (present-Plain _ _) h2 λ i _ h3.
      >>=-escalates _ _ (present-Plain _ _) h3 λ p _ h4.
        >>=-escalates _ _ (present-Plain _ _) h4 λ v _ h5.
          >>-escalates _ _ (deny_if-Plain _ _) h5 λ _ h6.
            >>-escalates _ _ (deny_if-Plain _ _) h6 λ _ h7.
              >>-escalates _ _ (deny_if-Plain _ _) h7 λ _ h8. check_approver_reasons _ qs rs h8

need_approval_reasons :
    (facts : BuyerOperationFacts) (tx : Transaction) (key : String) (o : Option BoundApproval)
    (qs rs : List DecisionReason)
    → need_approval facts tx key o qs ≡ stop approval_required rs
    → rs ≡ qs
unfolding need_approval
need_approval_reasons facts tx key none qs rs h = ground arith
need_approval_reasons facts tx key (some a) qs rs h =
    ground (arith, apply_approval_reasons facts tx key a qs rs)

-- Exactly one policy stands behind an escalation.
one_policy :
    (ps : List ApprovalPolicyRecord) (amount : ℤ) (over_limit : Bool)
    → is_ambiguous_policy (single ps) ≡ false
    → (over_limit && is_none_found (single ps)) ≡ false
    → (not over_limit && not (over_threshold amount (single ps))) ≡ false
    → (p : ApprovalPolicyRecord) × (ps ≡ p ∷ [])
unfolding single
one_policy [] amount over_limit a b c = absurd (ground arith)
one_policy (p ∷ []) amount over_limit a b c = (p, refl)
one_policy (p ∷ q ∷ ps) amount over_limit a b c = absurd (ground arith)

single_of_one :
    (ps : List ApprovalPolicyRecord) (p : ApprovalPolicyRecord) → ps ≡ p ∷ [] → single ps ≡ one p
unfolding single
single_of_one ps p e = rw e

-- The escalation of a limit, with the facts that the earlier parts established.
escalate-NeedsApproval :
    (facts : BuyerOperationFacts) (tx : Transaction) (key : String) (limit : ℤ)
    (rs : List DecisionReason)
    → facts.transaction ≡ some tx
    → facts.market_key ≡ some key
    → HasLimit facts tx key (λ s. s.order_limit_minor) limit
    → IsCovered facts tx key
    → escalate facts tx key limit ≡ stop approval_required rs
    → NeedsApproval facts rs
unfolding escalate
escalate-NeedsApproval facts tx key limit rs t k limited covered h =
    >>=-escalates _ _ (load-Plain _) h λ policies l h2.
      >>-escalates _ _ (deny_if-Plain _ _) h2 λ clear h3.
        >>-escalates _ _ (deny_if-Plain _ _) h3 λ known h4.
          let ps = filter (policy_applies key tx) policies in
          let over_limit = ltb_ℤ limit tx.amount_minor in
          let over_thr = over_threshold tx.amount_minor (single ps) in
          elim (Bool-cases (not over_limit && not over_thr)) [
            | inl e ↦ absurd (pass-Plain tt rs (rw e at h4))
            | inr e ↦
                let (p, only) =
                  one_policy ps tx.amount_minor over_limit (deny_if-pass _ _ clear)
                    (deny_if-pass _ _ known) e in
                let same = single_of_one ps p only in
                let r : rs ≡ escalation_reasons over_limit over_thr =
                  need_approval_reasons facts tx key facts.approval _ rs (rw e at h4) in
                record {
                  tx = tx;
                  transaction = t;
                  key = key;
                  market = k;
                  limit = limit;
                  limited = limited;
                  covered = covered;
                  policies = policies;
                  source = load-pass _ l;
                  policy = p;
                  listed = (only-IsFor key tx policies p only).0;
                  applies = (only-IsFor key tx policies p only).1;
                  alone = only-alone key tx policies p only;
                  only = only;
                  reasons = subst (Exceeds tx.amount_minor limit p.threshold_minor) (sym r) (
                      escalation_Exceeds tx.amount_minor limit p over_limit over_thr refl
                        (ap (over_threshold tx.amount_minor) (sym same)) e);
                }
          ]

market_of : (o : Option String) {key : String} → non_empty o ≡ some key → o ≡ some key
market_of none h = absurd (ground arith)
market_of (some k) h = ground arith

evaluate_commitment-NeedsApproval :
    (regexp : String → Option (String → Bool)) (facts : BuyerOperationFacts)
    (rs : List DecisionReason)
    → evaluate_commitment regexp facts ≡ stop approval_required rs
    → NeedsApproval facts rs
unfolding evaluate_commitment
evaluate_commitment-NeedsApproval regexp facts rs h =
    >>=-escalates _ _ (present-Plain _ _) h λ tx t h2.
      >>-escalates _ _ (deny_if-Plain _ _) h2 λ amount h3.
        >>=-escalates _ _ (present-Plain _ _) h3 λ key k h4.
          >>-escalates _ _ (check_purchase_order-Plain regexp facts) h4 λ po h5.
            >>=-escalates _ _ (find_limit-Plain _ _ _ _ _) h5 λ limit l h6.
              >>-escalates _ _ (evaluate_budgets-Plain _ _ _) h6 λ budgets h7.
                escalate-NeedsApproval facts tx key limit rs (present-pass _ _ t)
                  (market_of _ (present-pass _ _ k)) (find_limit-pass facts tx key _ _ limit l)
                  (evaluate_budgets-IsCovered facts tx key budgets) h7

evaluate_approval_decision-Plain :
    (facts : BuyerOperationFacts) → Plain (evaluate_approval_decision facts)
unfolding evaluate_approval_decision
evaluate_approval_decision-Plain facts = >>=-Plain _ _ (present-Plain _ _) λ tx.
    >>=-Plain _ _ (present-Plain _ _) λ a. >>-Plain _ _ (deny_if-Plain _ _) (
      >>=-Plain _ _ (present-Plain _ _) λ key. >>-Plain _ _ (deny_if-Plain _ _) (
        >>=-Plain _ _ (present-Plain _ _) λ i. >>-Plain _ _ (deny_if-Plain _ _) (
          >>-Plain _ _ (deny_if-Plain _ _) (
            >>-Plain _ _ (deny_if-Plain _ _)
              (>>=-Plain _ _ (find_limit-Plain _ _ _ _ _) (λ limit. deny_if-Plain _ _))))))

by_kind-NeedsApproval :
    (regexp : String → Option (String → Bool)) (facts : BuyerOperationFacts) (k : Kind)
    (rs : List DecisionReason)
    → by_kind regexp facts k ≡ stop approval_required rs
    → (k ≡ commitment) × NeedsApproval facts rs
unfolding by_kind
by_kind-NeedsApproval regexp facts commitment rs h =
    (refl, evaluate_commitment-NeedsApproval regexp facts rs h)
by_kind-NeedsApproval regexp facts approval rs h =
    absurd (evaluate_approval_decision-Plain facts rs h)
by_kind-NeedsApproval regexp facts read rs h = absurd (pass-Plain tt rs h)
by_kind-NeedsApproval regexp facts change rs h = absurd (pass-Plain tt rs h)
by_kind-NeedsApproval regexp facts governed rs h = absurd (pass-Plain tt rs h)

decision_stop :
    (m : Check (Unit {0})) (rs : List DecisionReason)
    → decision m ≡ refuse approval_required rs
    → m ≡ stop approval_required rs
decision_stop (pass u) rs h = ground arith
decision_stop (stop o qs) rs h = ground arith

-- APPROVAL_REQUIRED is answered to commitments alone, and only where the order limit is configured,
-- every binding budget covers the purchase (so a budget's shortfall never escalates), exactly one
-- enabled policy applies, and the amount exceeds the limit or its threshold; the reasons are
-- exactly the exceeded ones, of the Market of the facts.
pub approval_required-NeedsApproval :
    (regexp : String → Option (String → Bool)) (facts : BuyerOperationFacts)
    (rs : List DecisionReason)
    → evaluate_buyer_operation regexp facts ≡ refuse approval_required rs
    → (rule : OperationRule) × (operation_rule facts.operation ≡ some rule)
      × (rule.kind ≡ commitment)
      × NeedsApproval facts rs
unfolding evaluate_buyer_operation check_membership check_scope
approval_required-NeedsApproval regexp facts rs h =
    >>=-escalates _ _ (present-Plain _ _) (decision_stop _ rs h) λ rule listed h2.
      >>-escalates _ _ (deny_if-Plain _ _) h2 λ _ h3.
        >>-escalates _ _ (deny_if-Plain _ _) h3 λ _ h4.
          >>=-escalates _ _ (check_roles-Plain _ _) h4 λ permitted _ h5.
            >>-escalates _ _ (check_market-Plain _ _) h5 λ _ h6.
              >>-escalates _ _ (check_sites-Plain _ _) h6 λ _ h7.
                >>-escalates _ _ (>>-Plain _ _ (deny_if-Plain _ _) (deny_if-Plain _ _)) h7 λ _ h8.
                  let (k, needs) = by_kind-NeedsApproval regexp facts rule.kind rs h8 in
                  (rule, present-pass _ _ listed, k, needs)
