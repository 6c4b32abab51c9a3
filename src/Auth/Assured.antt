-- ===== src/Auth/Assured.antt =====
-- What a token has shown that `evaluateAssurance` of baobab/auth/buyer-assurance.ts accepts.
use baobab_trade.Prelude.{
  ℕ, ◌+◌, ◌-◌, ◌*◌, ◌≤◌, ◌≡◌, refl, ap, ◌∙◌, subst, String, Bool, true, false, not, ◌==◌, Option,
  none, some, ltb, leb, arith, eq_of_==, or_false, ◌↔◌, ==_refl,
}
use baobab_trade.Auth.Evidence.{
  Requires, canonical_profile-Requires, Requires-canonical_profile, HasClass, is_accepted-HasClass,
  HasClass-is_accepted, HasMethods, misses_method-HasMethods, HasMethods-misses_method, Before,
  is_before-Before, Before-is_before, EarlierEnd, earlier-EarlierEnd, EarlierEnd-earlier,
}
use baobab_trade.Auth.Assurance.{
  AssuranceProfile, buyer_session, BuyerOperation, canonical_profile, Requirement, ApprovedPolicy,
  InterimPolicy, Policy, absent, approved, interim, Token, AssuranceRefusal, AssuranceOutcome, ok,
  refuse_if, is_before, earlier, check_age, check_profile, is_session, evaluate_assurance, max_safe,
}

refuse_if-ok :
    (b : Bool) (r : AssuranceRefusal) (k : AssuranceOutcome) {v : String} {e : Option ℕ}
    → refuse_if b r k ≡ ok v e
    → (b ≡ false) × (k ≡ ok v e)
unfolding refuse_if
refuse_if-ok true r k h = absurd (ground arith)
refuse_if-ok false r k h = (refl, h)

holds_of_not : (b : Bool) → not b ≡ false → b ≡ true
holds_of_not b h = ground arith

-- The age of an authentication, where the requirement limits it, and until when the decision holds.
pub data IsFresh (until : Option ℕ) (now : ℕ) : Option ℕ → Option ℕ → Option ℕ → Type 0 where
  unlimited : (t : Option ℕ) → IsFresh until now none t until
  limited :
      (seconds t : ℕ)
      → seconds * 1000 ≤ max_safe
      → t ≤ now
      → now ≤ t + seconds * 1000
      → (e : ℕ) → EarlierEnd until (t + seconds * 1000) e
      → IsFresh until now (some seconds) (some t) (some e)

-- The evidence for an operation under a policy, with the revision and the end of the decision.
pub data IsAssured (operation : BuyerOperation) (token : Token) (now : ℕ)
    : Policy → String → Option ℕ → Type 0 where
  by_policy :
      (p : ApprovedPolicy) (profile : AssuranceProfile) (r : Requirement) (end : Option ℕ)
      → Requires operation profile
      → p.profiles profile ≡ some r
      → p.effective_from ≤ now
      → Before now p.effective_until
      → token.issuer ≡ p.issuer
      → HasClass token.acr r.accepted_acr_values
      → HasMethods r.required_methods token.amr
      → IsFresh p.effective_until now r.max_authentication_age_seconds token.auth_time end
      → IsAssured operation token now (approved p) p.policy_revision end
  by_interim :
      (p : InterimPolicy)
      → Requires operation buyer_session
      → token.issuer ≡ p.issuer
      → HasClass token.acr p.accepted_session_acr
      → IsAssured operation token now (interim p) "buyer-assurance.interim-acr-allowlist:v1" none

check_age-IsFresh :
    (p : ApprovedPolicy) (limit t : Option ℕ) (now : ℕ) {v : String} {e : Option ℕ}
    → check_age p limit t now ≡ ok v e
    → (p.policy_revision ≡ v) × IsFresh p.effective_until now limit t e
unfolding check_age
check_age-IsFresh p none t now {v} {e} h =
    let same : p.effective_until ≡ e = cc in
    (cc, subst (λ x. IsFresh p.effective_until now none t x) same (unlimited t))
check_age-IsFresh p (some seconds) none now h = absurd (ground arith)
check_age-IsFresh p (some seconds) (some t) now {v} {e} h =
    let (fresh, k) = refuse_if-ok _ _ _ h in
    let same : some (earlier p.effective_until (t + seconds * 1000)) ≡ e = cc in
    (
      cc,
      subst (λ x. IsFresh p.effective_until now (some seconds) (some t) x) same
          (limited seconds t (ground arith) (ground arith) (ground arith) _
            (earlier-EarlierEnd p.effective_until (t + seconds * 1000))),
    )

check_profile-IsAssured :
    (p : ApprovedPolicy) (operation : BuyerOperation) (token : Token) (now : ℕ)
    (o : Option Requirement) {v : String} {e : Option ℕ}
    → p.profiles (canonical_profile operation) ≡ o
    → p.effective_from ≤ now
    → is_before now p.effective_until ≡ true
    → token.issuer ≡ p.issuer
    → check_profile p o token now ≡ ok v e
    → IsAssured operation token now (approved p) v e
unfolding check_profile
check_profile-IsAssured p operation token now none at from until issuer h = absurd (ground arith)
check_profile-IsAssured p operation token now (some r) {v} {e} at from until issuer h =
    let (meets, k) = refuse_if-ok _ _ _ h in
    let (acr, methods) = or_false _ _ meets in
    let (revision, fresh) = check_age-IsFresh p _ _ now k in
    subst (λ x. IsAssured operation token now (approved p) x e) revision
      (by_policy p (canonical_profile operation) r e (canonical_profile-Requires operation) at from
        (is_before-Before now p.effective_until until) issuer
        (is_accepted-HasClass token.acr r.accepted_acr_values (holds_of_not _ acr))
        (misses_method-HasMethods r.required_methods token.amr methods) fresh)

session_profile : (q : AssuranceProfile) → is_session q ≡ true → q ≡ buyer_session
session_profile q h = ground arith

session_required :
    (o : BuyerOperation) → is_session (canonical_profile o) ≡ true → Requires o buyer_session
session_required o h =
    subst (Requires o) (session_profile (canonical_profile o) h) (canonical_profile-Requires o)

ok-IsAssured :
    (policy : Policy) (operation : BuyerOperation) (token : Token) (now : ℕ) {v : String}
    {e : Option ℕ}
    → evaluate_assurance policy operation token now ≡ ok v e
    → IsAssured operation token now policy v e
unfolding evaluate_assurance
ok-IsAssured absent operation token now h = absurd (ground arith)
ok-IsAssured (approved p) operation token now h =
    let (current, k) = refuse_if-ok _ _ _ h in
    let (window, issuer) = or_false _ _ current in
    let (from, until) = or_false _ _ window in
    check_profile-IsAssured p operation token now _ refl (ground arith) (holds_of_not _ until)
      (eq_of_== _ _ (holds_of_not _ issuer)) k
ok-IsAssured (interim p) operation token now {v} {e} h =
    let (session, k) = refuse_if-ok _ _ _ h in
    let (known, k2) = refuse_if-ok _ _ _ k in
    let (issuer, acr) = or_false _ _ known in
    let same_v : "buyer-assurance.interim-acr-allowlist:v1" ≡ v = cc in
    let same_e : none ≡ e = cc in
    subst (λ x. IsAssured operation token now (interim p) v x) same_e
      (subst (λ x. IsAssured operation token now (interim p) x none) same_v
        (by_interim p (session_required operation (holds_of_not _ session))
          (eq_of_== _ _ (holds_of_not _ issuer))
          (is_accepted-HasClass token.acr p.accepted_session_acr (holds_of_not _ acr))))

fresh_ok :
    (p : ApprovedPolicy) (limit t : Option ℕ) (now : ℕ) (e : Option ℕ)
    → IsFresh p.effective_until now limit t e
    → check_age p limit t now ≡ ok p.policy_revision e
unfolding check_age refuse_if
fresh_ok p limit t now e (unlimited u) = refl
fresh_ok p limit t now e (limited seconds u safe past young end is_end) =
    let a : leb (seconds * 1000) max_safe ≡ true = ground arith in
    let b : ltb now u ≡ false = ground arith in
    let c : ltb (seconds * 1000) (now - u) ≡ false = ground arith in
    let d = EarlierEnd-earlier p.effective_until (u + seconds * 1000) end is_end in
    rw (a, b, c, d) refl

-- Assured evidence is accepted.
IsAssured-ok :
    (policy : Policy) (operation : BuyerOperation) (token : Token) (now : ℕ) (v : String)
    (e : Option ℕ)
    → IsAssured operation token now policy v e
    → evaluate_assurance policy operation token now ≡ ok v e
unfolding evaluate_assurance check_profile refuse_if
IsAssured-ok policy operation token now v e
      (by_policy p profile r end requires at from until issuer has_class has_methods fresh) =
    let canonical = Requires-canonical_profile operation profile requires in
    let before = Before-is_before now p.effective_until until in
    let acr = HasClass-is_accepted token.acr r.accepted_acr_values has_class in
    let methods = HasMethods-misses_method r.required_methods token.amr has_methods in
    let early : ltb now p.effective_from ≡ false = ground arith in
    let same : (token.issuer == p.issuer) ≡ true =
      ap (λ x. x == p.issuer) issuer ∙ ==_refl p.issuer in
    rw (early, before, same, canonical, at, acr, methods) (fresh_ok p _ _ now end fresh)
IsAssured-ok policy operation token now v e (by_interim p requires issuer has_class) =
    let session = Requires-canonical_profile operation buyer_session requires in
    let acr = HasClass-is_accepted token.acr p.accepted_session_acr has_class in
    let same : (token.issuer == p.issuer) ≡ true =
      ap (λ x. x == p.issuer) issuer ∙ ==_refl p.issuer in
    rw (session, same, acr) refl

-- A token is accepted for an operation, with a revision and an end of the decision, exactly when the
-- policy gives that revision and end for the evidence: under an approved policy in force, its issuer,
-- a class that the operation's profile accepts, every method that it requires, and an authentication
-- no older than it allows, with the earlier of the two ends; under an interim policy, a session
-- operation, its issuer and an accepted class.
pub evaluate_assurance-IsAssured :
    (policy : Policy) (operation : BuyerOperation) (token : Token) (now : ℕ) (v : String)
    (e : Option ℕ)
    → (evaluate_assurance policy operation token now ≡ ok v e)
      ↔ IsAssured operation token now policy v e
evaluate_assurance-IsAssured policy operation token now v e =
    (ok-IsAssured policy operation token now, IsAssured-ok policy operation token now v e)
