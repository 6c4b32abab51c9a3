-- ===== src/Policy/Scoped.antt =====
-- What an allowed operation rests on: the membership, one role assignment, its Market and Sites.
use baobab_trade.Prelude.{
  ◌≡◌, ◌≢◌, refl, String, Bool, true, false, Option, some, List, [], ◌∷◌, Memᴰ, filter, includes,
  filter-mem, all-mem, and_true, Option-cases, inl, inr, arith,
}
use baobab_trade.Policy.Decision.{
  pass, loaded, allow, >>=-pass, >>-pass, deny_if-pass, load-pass, present-pass, decision-allow,
}
use baobab_trade.Policy.Facts.{BuyerOperationFacts, RoleAssignment, SiteUse, MarketAuthority}
use baobab_trade.Policy.Rules.{OperationRule, operation_rule, Kind, governed}
use baobab_trade.Policy.Evaluate.{
  evaluate_buyer_operation, check_roles, check_market, check_authority, check_scope, is_permitted,
  is_empty, holds_market, holds_sites, is_governed,
}
use baobab_trade.Policy.Usable.{
  InEffect, HasGrant, active_grant-HasGrant, UsableSite, check_membership-pass, check_sites-pass,
}

pub record IsScoped (facts : BuyerOperationFacts) (rule : OperationRule) : Type 0 where
  pub member : facts.membership.status ≡ "ACTIVE"
  pub current : InEffect facts.now facts.membership.effective_from facts.membership.effective_until
  pub roles : List RoleAssignment
  pub source : facts.roles ≡ loaded roles
  pub holder : RoleAssignment
  pub listed : Memᴰ holder roles
  pub permitted : includes rule.roles holder.role ≡ true
  pub activated : rule.kind ≢ governed
  pub market :
      rule.market ≡ true
      → (key : String) × (facts.market_key ≡ some key)
        × (facts.market_authority ≡ MarketAuthority.attested)
        × HasGrant facts.now key holder.markets
  pub sites : (u : SiteUse) → Memᴰ u facts.sites → HasGrant facts.now u.site_id holder.sites
  pub usable : (u : SiteUse) → Memᴰ u facts.sites → UsableSite facts u

-- The permitted roles are listed, and grant the operation.
abbrev RolesHeld : BuyerOperationFacts → OperationRule → List RoleAssignment → Type 0
RolesHeld facts rule permitted =
    (roles : List RoleAssignment) × (facts.roles ≡ loaded roles)
    × (rule.kind ≢ governed)
    × ((r : RoleAssignment) → Memᴰ r permitted → Memᴰ r roles × (includes rule.roles r.role ≡ true))

kind-ne-governed : (k : Kind) → is_governed k ≡ false → k ≢ governed
kind-ne-governed k h = ground arith

check_roles-pass :
    (facts : BuyerOperationFacts) (rule : OperationRule) (permitted : List RoleAssignment)
    → check_roles facts rule ≡ pass permitted
    → RolesHeld facts rule permitted
unfolding check_roles
check_roles-pass facts rule permitted h = >>=-pass _ _ h λ roles l h2.
    >>-pass _ _ h2 λ some_role h3. >>-pass _ _ h3 λ live e. (
      roles,
      load-pass _ l,
      kind-ne-governed _ (deny_if-pass _ _ live),
      λ r m.
          let same : filter (is_permitted rule.roles) roles ≡ permitted = cc in
          let (listed, ok) = filter-mem (is_permitted rule.roles) roles (rw (← same) at m) in
          (listed, (and_true _ _ ok).1),
    )

check_authority-pass :
    (a : MarketAuthority) → check_authority a ≡ pass tt → a ≡ MarketAuthority.attested
unfolding check_authority
check_authority-pass a h = ground arith

check_market-pass :
    (facts : BuyerOperationFacts)
    → check_market facts true ≡ pass tt
    → facts.market_authority ≡ MarketAuthority.attested
unfolding check_market
check_market-pass facts h = >>=-pass _ _ h λ key p k. check_authority-pass _ k

mem_of_not_empty {ℓ} : {A : Type ℓ} (xs : List A) → is_empty xs ≡ false → (x : A) × Memᴰ x xs
mem_of_not_empty [] h = ground arith
mem_of_not_empty (x ∷ xs) h = (x, Memᴰ.head refl)

-- One role assignment that holds all the grants.
abbrev Holder : BuyerOperationFacts → Bool → List RoleAssignment → Type 0
Holder facts market permitted =
    (r : RoleAssignment) × Memᴰ r permitted
    × (market ≡ true → holds_market facts r ≡ true)
    × (holds_sites facts r ≡ true)

check_scope-pass :
    (facts : BuyerOperationFacts) (market : Bool) (permitted : List RoleAssignment)
    → check_scope facts market permitted ≡ pass tt
    → Holder facts market permitted
unfolding check_scope
check_scope-pass facts true permitted h = >>-pass _ _ h λ a b.
    let (r, m) = mem_of_not_empty _ (deny_if-pass _ _ b) in
    let (m2, sites) = filter-mem (holds_sites facts) _ m in
    let (m3, market) = filter-mem (holds_market facts) _ m2 in (r, m3, λ _. market, sites)
check_scope-pass facts false permitted h = >>-pass _ _ h λ a b.
    let (r, m) = mem_of_not_empty _ (deny_if-pass _ _ b) in
    let (m2, sites) = filter-mem (holds_sites facts) _ m in (r, m2, λ e. cc, sites)

holds_market-HasGrant :
    (facts : BuyerOperationFacts) (r : RoleAssignment)
    → holds_market facts r ≡ true
    → (key : String) × (facts.market_key ≡ some key) × HasGrant facts.now key r.markets
holds_market-HasGrant facts r h = elim (Option-cases facts.market_key) [
  | inl e ↦ absurd (ground arith)
  | inr (key, e) ↦ (key, e, active_grant-HasGrant _ _ _ (rw e at h))
]

market_held :
    (facts : BuyerOperationFacts) (r : RoleAssignment) (market : Bool)
    → check_market facts market ≡ pass tt
    → (market ≡ true → holds_market facts r ≡ true)
    → market ≡ true
    → (key : String) × (facts.market_key ≡ some key)
      × (facts.market_authority ≡ MarketAuthority.attested)
      × HasGrant facts.now key r.markets
market_held facts r true h holds e =
    let (key, same, grant) = holds_market-HasGrant facts r (holds refl) in
    (key, same, check_market-pass facts h, grant)
market_held facts r false h holds e = cc

-- An allowed operation is one of the table; the membership is ACTIVE and in effect; ONE listed role
-- assignment, of a role that the rule permits, itself holds the Market's grant and the grant of
-- every referenced Site; CP attests the Market; and each Site is, by a record that was loaded, this
-- Organisation's, ACTIVE, in the Market and fit for its use. Governed operations are never allowed.
pub allow-IsScoped :
    (regexp : String → Option (String → Bool)) (facts : BuyerOperationFacts)
    → evaluate_buyer_operation regexp facts ≡ allow
    → (rule : OperationRule) × (operation_rule facts.operation ≡ some rule) × IsScoped facts rule
unfolding evaluate_buyer_operation
allow-IsScoped regexp facts h = >>=-pass _ _ (decision-allow _ h) λ rule listed h2.
    >>-pass _ _ h2 λ not_invitation h3. >>-pass _ _ h3 λ member h4.
      >>=-pass _ _ h4 λ permitted role h5. >>-pass _ _ h5 λ market h6. >>-pass _ _ h6 λ sites h7.
        >>-pass _ _ h7 λ scope by_kind.
          let (active, current) = check_membership-pass _ _ member in
          let (roles, source, activated, held) = check_roles-pass facts rule permitted role in
          let (r, m, has_market, has_sites) = check_scope-pass facts rule.market permitted scope in
          (
            rule,
            present-pass _ _ listed,
            record {
              member = active;
              current = current;
              roles = roles;
              source = source;
              holder = r;
              listed = (held r m).0;
              permitted = (held r m).1;
              activated = activated;
              market = market_held facts r rule.market market has_market;
              sites = λ u i. active_grant-HasGrant _ _ _ (all-mem _ facts.sites has_sites i);
              usable = check_sites-pass facts rule.site sites;
            },
          )
