-- ===== src/Policy/Decision.antt =====
-- baobab/b2b/buyer-operation-policy.ts and buyer-authority.ts: decisions, and early returns.
use baobab_trade.Prelude.{◌≡◌, refl, Bool, true, false, List, [], ◌∷◌, Option, none, some, arith}

-- `DecisionOutcome` without "ALLOW".
pub data RefusalOutcome : Type 0 where
  approval_required selection_required denied unavailable : RefusalOutcome

pub data DecisionReason : Type 0 where
  buyer_token_invalid assurance_insufficient identity_not_resolved : DecisionReason
  principal_not_active organisation_selection_required buyer_not_authorised : DecisionReason
  organisation_not_attested buyer_account_not_active role_not_permitted : DecisionReason
  site_not_permitted market_not_permitted purchase_order_required : DecisionReason
  spend_limit_exceeded spend_policy_not_configured approval_threshold_exceeded : DecisionReason
  approval_authority_not_configured separation_of_duties transaction_changed : DecisionReason
  context_not_usable seller_authority_absent operation_not_activated : DecisionReason
  source_unavailable : DecisionReason

pub data BuyerOperationDecision : Type 0 where
  allow : BuyerOperationDecision
  refuse : RefusalOutcome → List DecisionReason → BuyerOperationDecision

-- A part of the evaluator: it goes on with a value, or the evaluator returns a refusal.
pub data Check {ℓ} (A : Type ℓ) : Type ℓ where
  pass : A → Check A
  stop : RefusalOutcome → List DecisionReason → Check A

infixl 5 ◌>>=◌ ◌>>◌
unfoldable pub ◌>>=◌ {ℓ κ} : {A : Type ℓ} {B : Type κ} → Check A → (A → Check B) → Check B
pass a >>= f = f a
stop o rs >>= f = stop o rs

unfoldable pub ◌>>◌ {ℓ} : {B : Type ℓ} → Check (Unit {0}) → Check B → Check B
pass u >> k = k
stop o rs >> k = stop o rs

-- `if (c) return deny(reason)`.
unfoldable pub deny_if : Bool → DecisionReason → Check (Unit {0})
deny_if true r = stop denied (r ∷ [])
deny_if false r = pass tt

-- `Source<T>`: what a loader answered.
pub data Source {ℓ} (A : Type ℓ) : Type ℓ where
  loaded : A → Source A
  unloaded : Source A

-- `if (source === "UNAVAILABLE") return unavailable()`.
unfoldable pub load {ℓ} : {A : Type ℓ} → Source A → Check A
load (loaded a) = pass a
load unloaded = stop unavailable (source_unavailable ∷ [])

-- `if (!value) return deny(reason)` for a value that may be missing.
unfoldable pub present {ℓ} : {A : Type ℓ} → Option A → DecisionReason → Check A
present (some a) r = pass a
present none r = stop denied (r ∷ [])

pub data Single {ℓ} (A : Type ℓ) : Type ℓ where
  none_found : Single A
  ambiguous : Single A
  one : A → Single A

-- Exactly one record applies, or none; two is ambiguous and never resolved by picking one.
unfoldable pub single {ℓ} : {A : Type ℓ} → List A → Single A
single [] = none_found
single (x ∷ []) = one x
single (x ∷ y ∷ xs) = ambiguous

abbrev pub decision : Check (Unit {0}) → BuyerOperationDecision
decision (pass u) = allow
decision (stop o rs) = refuse o rs

-- Inversion: where the whole passes, so does the first part. The rest of the proof is given its
-- value and the two equations.
pub >>=-pass {ℓ κ μ} :
    {A : Type ℓ} {B : Type κ} {P : Type μ} (m : Check A) (f : A → Check B) {b : B}
    → (m >>= f) ≡ pass b
    → ((a : A) → m ≡ pass a → f a ≡ pass b → P)
    → P
unfolding ◌>>=◌
>>=-pass (pass a) f h k = k a refl h
>>=-pass (stop o rs) f h k = absurd (ground arith)

pub >>-pass {κ μ} :
    {B : Type κ} {P : Type μ} (m : Check (Unit {0})) (k : Check B) {b : B}
    → (m >> k) ≡ pass b
    → (m ≡ pass tt → k ≡ pass b → P)
    → P
unfolding ◌>>◌
>>-pass (pass u) k h c = c refl h
>>-pass (stop o rs) k h c = absurd (ground arith)

pub deny_if-pass : (c : Bool) (r : DecisionReason) → deny_if c r ≡ pass tt → c ≡ false
unfolding deny_if
deny_if-pass c r h = ground arith

pub load-pass {ℓ} : {A : Type ℓ} (s : Source A) {a : A} → load s ≡ pass a → s ≡ loaded a
unfolding load
load-pass (loaded a) h = ground arith
load-pass unloaded h = ground arith

pub present-pass {ℓ} :
    {A : Type ℓ} (o : Option A) (r : DecisionReason) {a : A} → present o r ≡ pass a → o ≡ some a
unfolding present
present-pass none r h = ground arith
present-pass (some a) r h = ground arith

pub single-one {ℓ} : {A : Type ℓ} (xs : List A) {a : A} → single xs ≡ one a → xs ≡ a ∷ []
unfolding single
single-one [] h = ground arith
single-one (x ∷ []) h = ground arith
single-one (x ∷ y ∷ xs) h = ground arith

pub decision-allow : (m : Check (Unit {0})) → decision m ≡ allow → m ≡ pass tt
decision-allow (pass u) h = refl
decision-allow (stop o rs) h = ground arith
