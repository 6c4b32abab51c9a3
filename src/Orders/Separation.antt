-- ===== src/Orders/Separation.antt =====
-- What an approval that passes baobab/orders/governed-binding-command-policy.ts has shown.
use baobab_trade.Prelude.{
  ℕ, ◌≤◌, ◌<◌, ◌≡◌, refl, sym, ap, ◌∙◌, String, Bool, true, not, ◌==◌, Option, none, some, includes,
  has_text, arith, eq_of_==, and_true, ==_refl,
}
use baobab_trade.Orders.Binding.{
  BindingScope, GovernedActor, BindingApproval, BindingOperation, propose, approve, required_scope,
  parse_binding_timestamp, assert_actor, assert_scope, is_proposed, is_approved,
  assert_binding_proposal, assert_binding_approval,
}

-- An actor of the scope's tenant and Organisation, with the scope of the operation.
pub record MayAct (a : GovernedActor) (s : BindingScope) (operation : BindingOperation)
    : Type 0 where
  pub known : has_text a.subject ≡ true
  pub audience : a.audience ≡ "baobab-control-plane"
  pub same_tenant : a.tenant_id ≡ s.tenant_id
  pub same_organisation : a.organisation_id ≡ s.organisation_id
  pub permitted : includes a.scopes (required_scope operation) ≡ true

assert_actor-MayAct :
    (a : GovernedActor) (s : BindingScope) (operation : BindingOperation)
    → assert_actor a s operation ≡ true
    → MayAct a s operation
unfolding assert_actor
assert_actor-MayAct a s operation h =
    let (h1, scope) = and_true _ _ h in
    let (h2, organisation) = and_true _ _ h1 in
    let (h3, tenant) = and_true _ _ h2 in
    let (known, audience) = and_true _ _ h3 in
    record {
      known = known;
      audience = eq_of_== _ _ audience;
      same_tenant = eq_of_== _ _ tenant;
      same_organisation = eq_of_== _ _ organisation;
      permitted = scope;
    }

proposed_times :
    (p e : Option ℕ) (now : ℕ)
    → is_proposed p e now ≡ true
    → (t : ℕ) × (u : ℕ) × (p ≡ some t) × (e ≡ some u) × (t ≤ now) × (now < u)
unfolding is_proposed
proposed_times none e now h = absurd (ground arith)
proposed_times (some t) none now h = absurd (ground arith)
proposed_times (some t) (some u) now h = (t, u, refl, refl, ground arith, ground arith)

approved_time :
    (a : Option ℕ) (t u now : ℕ)
    → is_approved a (some t) (some u) now ≡ true
    → (s : ℕ) × (a ≡ some s) × (t ≤ s) × (s ≤ now) × (s < u)
unfolding is_approved
approved_time none t u now h = absurd (ground arith)
approved_time (some s) t u now h = (s, refl, ground arith, ground arith, ground arith)

module _ (parse : String → Option ℕ) (a : BindingApproval) (now : ℕ) where
  -- The times are read, and in order.
  pub record IsTimely : Type 0 where
    pub proposed : ℕ
    pub approved : ℕ
    pub expiry : ℕ
    pub reads_proposed : parse_binding_timestamp parse a.proposal.proposed_at ≡ some proposed
    pub reads_approved : parse_binding_timestamp parse a.approved_at ≡ some approved
    pub reads_expiry : parse_binding_timestamp parse a.proposal.expires_at ≡ some expiry
    pub after_proposal : proposed ≤ approved
    pub by_now : approved ≤ now
    pub unexpired : now < expiry

  timely :
      (p e : Option ℕ)
      → parse_binding_timestamp parse a.proposal.proposed_at ≡ p
      → parse_binding_timestamp parse a.proposal.expires_at ≡ e
      → is_proposed p e now ≡ true
      → is_approved (parse_binding_timestamp parse a.approved_at) p e now ≡ true
      → IsTimely
  timely p e reads ends h k =
      let (t, u, is_t, is_u, by_now, later) = proposed_times p e now h in
      let k' : is_approved (parse_binding_timestamp parse a.approved_at) (some t) (some u) now
          ≡ true =
        ap (λ x. is_approved (parse_binding_timestamp parse a.approved_at) x (some u) now)
          (sym is_t)
        ∙ ap (λ x. is_approved (parse_binding_timestamp parse a.approved_at) p x now) (sym is_u)
        ∙ k in
      let (s, is_s, after, before, early) = approved_time _ t u now k' in
      record {
        proposed = t;
        approved = s;
        expiry = u;
        reads_proposed = reads ∙ is_t;
        reads_approved = is_s;
        reads_expiry = ends ∙ is_u;
        after_proposal = after;
        by_now = before;
        unexpired = later;
      }

  -- An approval that passes is by another subject than the proposal's maker; both may act for the
  -- tenant and Organisation of the scope, each with the scope of its operation; and the approval lies
  -- between the proposal and now, before the proposal expires.
  pub approval-IsSeparated :
      assert_binding_approval parse a now ≡ true
      → (¬ (a.checker.subject ≡ a.proposal.maker.subject))
        × MayAct a.proposal.maker a.proposal.scope propose
        × MayAct a.checker a.proposal.scope approve
        × (assert_scope a.proposal.scope ≡ true)
        × IsTimely
  unfolding assert_binding_approval assert_binding_proposal
  approval-IsSeparated h =
      let (h1, approved) = and_true _ _ h in
      let (h2, reference) = and_true _ _ h1 in
      let (h3, other) = and_true _ _ h2 in
      let (h4, checker) = and_true _ _ h3 in
      let (h5, proposed) = and_true _ _ h4 in
      let (h6, evidence) = and_true _ _ h5 in
      let (scope, maker) = and_true _ _ h6 in
      (
        (λ e. differ other e),
        assert_actor-MayAct _ _ propose maker,
        assert_actor-MayAct _ _ approve checker,
        scope,
        timely _ _ refl refl proposed approved,
      )
    where
      clash : {b : Bool} → not b ≡ true → b ≡ true → ⊥
      clash p q = ground arith

      differ :
          not (a.checker.subject == a.proposal.maker.subject) ≡ true
          → a.checker.subject ≡ a.proposal.maker.subject
          → ⊥
      differ p e =
          clash p (ap (λ x. x == a.proposal.maker.subject) e ∙ ==_refl a.proposal.maker.subject)
