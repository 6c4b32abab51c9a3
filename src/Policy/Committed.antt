-- ===== src/Policy/Committed.antt =====
-- What an allowed commitment rests on: budgets, limit, and approval where it exceeds them.
use baobab_trade.Prelude.{
  ℤ, pos, ◌≤ℤ◌, ◌<ℤ◌, ltb_ℤ, leb_ℤ, eqb_ℤ, eqb_ℤ-eq, ◌≡◌, ◌≢◌, refl, ◌⊎◌, inl, inr, String, Bool,
  true, false, not, ◌==◌, eq_iff, ◌&&◌, Option, none, some, List, [], ◌∷◌, Memᴰ, filter, mem-filter,
  and_true, or_false, eq_of_==, is_key-eq, Bool-cases, arith,
}
use baobab_trade.Policy.Decision.{
  pass, loaded, >>=-pass, >>-pass, deny_if-pass, load-pass, present-pass, single,
  BuyerOperationDecision, refuse, allow, DecisionReason, approval_required, unavailable, denied,
  selection_required,
}
use baobab_trade.Policy.Facts.{
  BuyerOperationFacts, Transaction, ApprovalPolicyRecord, BoundApproval, ApprovalStatus,
}
use baobab_trade.Policy.Commitment.{
  policy_revision, policy_applies, over_threshold, is_approved, bound_to, check_approver,
  apply_approval, need_approval, escalate, evaluate_commitment, is_ambiguous_policy,
}
use baobab_trade.Policy.Covered.{IsCovered, evaluate_budgets-IsCovered}
use baobab_trade.Policy.Limits.{
  HasLimit, HasPurchaseOrder, find_limit-pass, check_purchase_order-pass, un_not, non_empty-some,
}

-- The approval names exactly this transaction.
pub record IsBound (a : BoundApproval) (tx : Transaction) (key : String) : Type 0 where
  pub digest : a.transaction_digest ≡ some tx.transaction_digest
  pub version : a.resource_version ≡ some tx.resource_version
  pub amount : a.amount_minor ≡ tx.amount_minor
  pub currency : a.currency_code ≡ tx.currency_code
  pub market : a.market_key ≡ some key

pub bound_to-IsBound :
    (a : BoundApproval) (tx : Transaction) (key : String)
    → bound_to a tx key ≡ true
    → IsBound a tx key
unfolding bound_to
bound_to-IsBound a tx key h =
    let (digest, h2) = and_true _ _ h in
    let (version, h3) = and_true _ _ h2 in
    let (amount, h4) = and_true (eqb_ℤ a.amount_minor tx.amount_minor) _ h3 in
    let (currency, market) = and_true _ _ h4 in
    record {
      digest = is_key-eq _ _ digest;
      version = is_key-eq _ _ version;
      amount = eqb_ℤ-eq a.amount_minor tx.amount_minor amount;
      currency = eq_of_== _ _ currency;
      market = is_key-eq _ _ market;
    }

-- An APPROVED approval of this Organisation, bound to this transaction under this policy revision,
-- initiated by the buyer, and given by another Principal who may still decide it.
pub record IsApproved (facts : BuyerOperationFacts) (tx : Transaction) (key : String) : Type 0 where
  pub approval : BoundApproval
  pub given : facts.approval ≡ some approval
  pub status : approval.status ≡ ApprovalStatus.approved
  pub organisation : approval.organisation_id ≡ facts.organisation_id
  pub initiator : approval.initiator_principal_id ≡ some facts.principal_id
  pub approver : String
  pub approved_by : approval.approver_principal_id ≡ some approver
  pub separate : approver ≢ facts.principal_id
  pub bound : IsBound approval tx key
  pub revision : approval.policy_revision ≡ some policy_revision
  pub still_holds : facts.approver_reevaluation ≡ some allow

check_approver-pass :
    (o : Option BuyerOperationDecision) (rs : List DecisionReason)
    → check_approver o rs ≡ pass tt
    → o ≡ some allow
unfolding check_approver
check_approver-pass none rs h = ground arith
check_approver-pass (some allow) rs h = refl
check_approver-pass (some (refuse unavailable qs)) rs h = ground arith
check_approver-pass (some (refuse approval_required qs)) rs h = ground arith
check_approver-pass (some (refuse selection_required qs)) rs h = ground arith
check_approver-pass (some (refuse denied qs)) rs h = ground arith

is_approved-eq : (s : ApprovalStatus) → is_approved s ≡ true → s ≡ ApprovalStatus.approved
is_approved-eq s h = ground arith

apply_approval-pass :
    (facts : BuyerOperationFacts) (tx : Transaction) (key : String) (a : BoundApproval)
    (rs : List DecisionReason)
    → facts.approval ≡ some a
    → a.status ≡ ApprovalStatus.approved
    → apply_approval facts tx key a rs ≡ pass tt
    → IsApproved facts tx key
unfolding apply_approval
apply_approval-pass facts tx key a rs given status h = >>-pass _ _ h λ organisation h2.
    >>=-pass _ _ h2 λ initiator i h3. >>=-pass _ _ h3 λ approver p h4.
      >>=-pass _ _ h4 λ revision v h5. >>-pass _ _ h5 λ own h6. >>-pass _ _ h6 λ separate h7.
        >>-pass _ _ h7 λ bound approved.
          let same : initiator ≡ facts.principal_id =
            eq_of_== _ _ (un_not _ (deny_if-pass _ _ own)) in
          let apart : (approver == initiator) ≡ false = deny_if-pass _ _ separate in
          let (b, r) = or_false _ _ (deny_if-pass _ _ bound) in
          record {
            approval = a;
            given = given;
            status = status;
            organisation = eq_of_== _ _ (un_not _ (deny_if-pass _ _ organisation));
            initiator = rw (← same) ((non_empty-some _ _ (present-pass _ _ i)).0);
            approver = approver;
            approved_by = (non_empty-some _ _ (present-pass _ _ p)).0;
            separate = λ e. ground (arith, eq_iff approver initiator);
            bound = bound_to-IsBound a tx key (un_not _ b);
            revision = rw (← eq_of_== _ _ (un_not _ r)) (present-pass _ _ v);
            still_holds = check_approver-pass _ _ approved;
          }

need_approval-pass :
    (facts : BuyerOperationFacts) (tx : Transaction) (key : String) (o : Option BoundApproval)
    (rs : List DecisionReason)
    → facts.approval ≡ o
    → need_approval facts tx key o rs ≡ pass tt
    → IsApproved facts tx key
unfolding need_approval
need_approval-pass facts tx key none rs e h = ground arith
need_approval-pass facts tx key (some a) rs e h = elim (Bool-cases (is_approved a.status)) [
  | inl t ↦ apply_approval-pass facts tx key a rs e (is_approved-eq _ t) (rw t at h)
  | inr f ↦ absurd (ground arith)
]

-- No approval policy for this Market and currency sets a threshold below the amount.
abbrev pub WithinThresholds : BuyerOperationFacts → Transaction → String → Type 0
WithinThresholds facts tx key =
    (policies : List ApprovalPolicyRecord) × (facts.approval_policies ≡ loaded policies)
    × ((p : ApprovalPolicyRecord)
        → Memᴰ p policies
        → policy_applies key tx p ≡ true
        → (threshold : ℤ) → p.threshold_minor ≡ some threshold
        → tx.amount_minor ≤ℤ threshold)

within :
    (amount : ℤ) (ps : List ApprovalPolicyRecord)
    → is_ambiguous_policy (single ps) ≡ false
    → over_threshold amount (single ps) ≡ false
    → (p : ApprovalPolicyRecord) → Memᴰ p ps
    → (threshold : ℤ) → p.threshold_minor ≡ some threshold
    → amount ≤ℤ threshold
unfolding single
within amount [] a o p m t e = elim m [ ]
within amount (q ∷ []) a o p (Memᴰ.head s) t e =
    let k : q.threshold_minor ≡ some t = rw (← s) e in ground arith
within amount (q ∷ []) a o p (Memᴰ.tail m) t e = elim m [ ]
within amount (q ∷ r ∷ ps) a o p m t e = cc

-- The amount is within the limit and every threshold, or an approval carries it.
abbrev pub Escalated : BuyerOperationFacts → Transaction → String → ℤ → Type 0
Escalated facts tx key limit =
    ((tx.amount_minor ≤ℤ limit) × WithinThresholds facts tx key) ⊎ IsApproved facts tx key

escalate-pass :
    (facts : BuyerOperationFacts) (tx : Transaction) (key : String) (limit : ℤ)
    → escalate facts tx key limit ≡ pass tt
    → Escalated facts tx key limit
unfolding escalate
escalate-pass facts tx key limit h = >>=-pass _ _ h λ policies l h2. >>-pass _ _ h2 λ clear h3.
    >>-pass _ _ h3 λ some_policy h4.
      let applying = filter (policy_applies key tx) policies in
      let over_thr = over_threshold tx.amount_minor (single applying) in
      elim (Bool-cases (not (ltb_ℤ limit tx.amount_minor) && not over_thr)) [
        | inl t ↦
            let (a, b) = and_true (not (ltb_ℤ limit tx.amount_minor)) (not over_thr) t in
            inl (
              ground arith,
              (
                policies,
                load-pass _ l,
                λ p m q.
                    within tx.amount_minor applying (deny_if-pass _ _ clear) (ground arith) p
                      (mem-filter (policy_applies key tx) policies m q),
              ),
            )
        | inr f ↦ inr (need_approval-pass facts tx key facts.approval _ refl (rw f at h4))
      ]

-- What a passed commitment rests on.
pub record IsCommittable (regexp : String → Option (String → Bool)) (facts : BuyerOperationFacts)
    : Type 0 where
  pub tx : Transaction
  pub transaction : facts.transaction ≡ some tx
  pub positive : pos 0 <ℤ tx.amount_minor
  pub key : String
  pub market : facts.market_key ≡ some key
  pub purchase_order : HasPurchaseOrder regexp facts
  pub limit : ℤ
  pub limited : HasLimit facts tx key (λ s. s.order_limit_minor) limit
  pub covered : IsCovered facts tx key
  pub escalated : Escalated facts tx key limit

pub evaluate_commitment-IsCommittable :
    (regexp : String → Option (String → Bool)) (facts : BuyerOperationFacts)
    → evaluate_commitment regexp facts ≡ pass tt
    → IsCommittable regexp facts
unfolding evaluate_commitment
evaluate_commitment-IsCommittable regexp facts h = >>=-pass _ _ h λ tx t h2.
    >>-pass _ _ h2 λ amount h3. >>=-pass _ _ h3 λ key k h4. >>-pass _ _ h4 λ po h5.
      >>=-pass _ _ h5 λ limit l h6. >>-pass _ _ h6 λ budgets escalated.
        let more : leb_ℤ tx.amount_minor (pos 0) ≡ false = deny_if-pass _ _ amount in
        record {
          tx = tx;
          transaction = present-pass _ _ t;
          positive = ground arith;
          key = key;
          market = (non_empty-some _ _ (present-pass _ _ k)).0;
          purchase_order = check_purchase_order-pass regexp facts po;
          limit = limit;
          limited = find_limit-pass facts tx key _ _ limit l;
          covered = evaluate_budgets-IsCovered facts tx key budgets;
          escalated = escalate-pass facts tx key limit escalated;
        }
