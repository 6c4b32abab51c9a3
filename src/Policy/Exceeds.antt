-- ===== src/Policy/Exceeds.antt =====
-- The reasons of an escalation of baobab/b2b/buyer-operation-policy.ts, described on their own.
use baobab_trade.Prelude.{
  String, ◌==◌, refl, ap, ◌∙◌, ==_refl, subst, Memᴰ, filter, filter-mem, mem-filter, and_true,
  is_key-eq, eq_of_==, ℤ, ltb_ℤ, ◌≡◌, Option-cases, Bool, true, false, not, ◌&&◌, Option, none,
  some, List, [], ◌∷◌, inl, inr, arith,
}
use baobab_trade.Policy.Decision.{
  one, DecisionReason, spend_limit_exceeded, approval_threshold_exceeded,
}
use baobab_trade.Policy.Facts.{ApprovalPolicyRecord, Transaction}
use baobab_trade.Policy.Commitment.{over_threshold, escalation_reasons, policy_applies}

-- The amount is beyond the bound, where there is one.
abbrev pub IsBeyond : ℤ → Option ℤ → Type 0
IsBeyond amount none = ⊥
IsBeyond amount (some bound) = ltb_ℤ bound amount ≡ true

-- The reasons of an escalation: what the amount exceeds of the order limit and of the threshold.
pub data Exceeds (amount limit : ℤ) (threshold : Option ℤ) : List DecisionReason → Type 0 where
  limit_alone :
      IsBeyond amount (some limit)
      → ¬ IsBeyond amount threshold
      → Exceeds amount limit threshold (spend_limit_exceeded ∷ [])
  threshold_alone :
      ¬ IsBeyond amount (some limit)
      → IsBeyond amount threshold
      → Exceeds amount limit threshold (approval_threshold_exceeded ∷ [])
  both :
      IsBeyond amount (some limit)
      → IsBeyond amount threshold
      → Exceeds amount limit threshold (spend_limit_exceeded ∷ approval_threshold_exceeded ∷ [])

clash : {b : Bool} → b ≡ true → b ≡ false → ⊥
clash p q = ground arith

over_IsBeyond :
    (amount : ℤ) (p : ApprovalPolicyRecord)
    → over_threshold amount (one p) ≡ true
    → IsBeyond amount p.threshold_minor
over_IsBeyond amount p h = elim (Option-cases p.threshold_minor) [
  | inl e ↦ absurd (ground arith)
  | inr (t, e) ↦ rw e (rw e at h)
]

not_over :
    (amount : ℤ) (p : ApprovalPolicyRecord)
    → over_threshold amount (one p) ≡ false
    → ¬ IsBeyond amount p.threshold_minor
not_over amount p h = elim (Option-cases p.threshold_minor) [
  | inl e ↦ rw e (λ x. x)
  | inr (t, e) ↦ rw e (λ x. clash x (rw e at h))
]

pub escalation_Exceeds :
    (amount limit : ℤ) (p : ApprovalPolicyRecord) (over_limit over_thr : Bool)
    → ltb_ℤ limit amount ≡ over_limit
    → over_threshold amount (one p) ≡ over_thr
    → (not over_limit && not over_thr) ≡ false
    → Exceeds amount limit p.threshold_minor (escalation_reasons over_limit over_thr)
escalation_Exceeds amount limit p true true l t h = both l (over_IsBeyond amount p t)
escalation_Exceeds amount limit p true false l t h = limit_alone l (not_over amount p t)
escalation_Exceeds amount limit p false true l t h =
    threshold_alone (λ x. clash x l) (over_IsBeyond amount p t)
escalation_Exceeds amount limit p false false l t h = absurd (ground arith)

-- An enabled policy of the Market, in the currency of the purchase.
abbrev pub IsFor : String → Transaction → ApprovalPolicyRecord → Type 0
IsFor key tx p =
    (p.enabled ≡ true) × (p.market_key ≡ some key) × (p.currency_code ≡ tx.currency_code)

policy_applies-IsFor :
    (key : String) (tx : Transaction) (p : ApprovalPolicyRecord)
    → policy_applies key tx p ≡ true
    → IsFor key tx p
unfolding policy_applies
policy_applies-IsFor key tx p h =
    let (on, rest) = and_true _ _ h in
    let (market, currency) = and_true _ _ rest in (on, is_key-eq _ _ market, eq_of_== _ _ currency)

-- The only policy that is kept is one of the list, and is for the purchase.
pub only-IsFor :
    (key : String) (tx : Transaction) (ps : List ApprovalPolicyRecord) (p : ApprovalPolicyRecord)
    → filter (policy_applies key tx) ps ≡ p ∷ []
    → Memᴰ p ps × IsFor key tx p
only-IsFor key tx ps p e =
    let m : Memᴰ p (filter (policy_applies key tx) ps) = rw e (Memᴰ.head refl) in
    let (listed, applies) = filter-mem (policy_applies key tx) ps m in
    (listed, policy_applies-IsFor key tx p applies)

IsFor-policy_applies :
    (key : String) (tx : Transaction) (p : ApprovalPolicyRecord)
    → IsFor key tx p
    → policy_applies key tx p ≡ true
unfolding policy_applies
IsFor-policy_applies key tx p (on, market, currency) =
    let same : (p.currency_code == tx.currency_code) ≡ true =
      ap (λ x. x == tx.currency_code) currency ∙ ==_refl tx.currency_code in
    rw (on, market, same, ==_refl key) refl

-- No other policy of the list is for the purchase.
pub only-alone :
    (key : String) (tx : Transaction) (ps : List ApprovalPolicyRecord) (p : ApprovalPolicyRecord)
    → filter (policy_applies key tx) ps ≡ p ∷ []
    → (q : ApprovalPolicyRecord) → Memᴰ q ps
    → IsFor key tx q
    → q ≡ p
only-alone key tx ps p e q m h =
    single_mem
      (subst (Memᴰ q) e (mem-filter (policy_applies key tx) ps m (IsFor-policy_applies key tx q h)))
  where
    single_mem : Memᴰ q (p ∷ []) → q ≡ p
    single_mem (Memᴰ.head same) = same
    single_mem (Memᴰ.tail k) = elim k [ ]
