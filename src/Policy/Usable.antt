-- ===== src/Policy/Usable.antt =====
-- What the checks of the membership and of the Sites leave: times in effect, grants and usable Sites.
use baobab_trade.Prelude.{
  ℕ, ◌≤◌, ◌<◌, ◌≡◌, String, Bool, true, false, not, ◌==◌, Option, none, some, List, [], ◌∷◌, Memᴰ,
  any-mem, find-mem, and_true, or_false, eq_of_==, is_key-eq, arith,
}
use baobab_trade.Policy.Decision.{
  pass, loaded, >>=-pass, >>-pass, deny_if-pass, load-pass, present-pass,
}
use baobab_trade.Policy.Facts.{
  BuyerOperationFacts, ScopeGrant, GrantStatus, SiteUse, SiteRecord, SiteStatus, Membership, Use,
  shipping, billing, in_effect,
}
use baobab_trade.Policy.Rules.{SiteNeed}
use baobab_trade.Policy.Evaluate.{
  check_membership, check_sites, check_site, check_each_site, load_sites, active_grant, grants,
  is_active_grant, supports,
}

abbrev pub Started : ℕ → Option ℕ → Type 0
Started now none = Unit
Started now (some from) = from ≤ now

abbrev pub NotEnded : ℕ → Option ℕ → Type 0
NotEnded now none = Unit
NotEnded now (some until) = now < until

abbrev pub InEffect : ℕ → Option ℕ → Option ℕ → Type 0
InEffect now from until = Started now from × NotEnded now until

pub in_effect-InEffect :
    (now : ℕ) (from until : Option ℕ) → in_effect now from until ≡ true → InEffect now from until
in_effect-InEffect now none none h = (tt, tt)
in_effect-InEffect now (some f) none h = (ground arith, tt)
in_effect-InEffect now none (some u) h = (tt, ground arith)
in_effect-InEffect now (some f) (some u) h = (ground arith, ground arith)

-- An ACTIVE grant of the key, in effect now.
abbrev pub HasGrant : ℕ → String → List ScopeGrant → Type 0
HasGrant now key gs =
    (g : ScopeGrant) × Memᴰ g gs
    × (g.key ≡ key)
    × (g.status ≡ GrantStatus.active)
    × InEffect now g.effective_from g.effective_until

is_active_grant-eq : (s : GrantStatus) → is_active_grant s ≡ true → s ≡ GrantStatus.active
is_active_grant-eq s h = ground arith

pub active_grant-HasGrant :
    (now : ℕ) (key : String) (gs : List ScopeGrant)
    → active_grant gs key now ≡ true
    → HasGrant now key gs
unfolding active_grant
active_grant-HasGrant now key gs h =
    let (g, m, e) = any-mem (grants now key) gs h in
    let (same, rest) = and_true _ _ e in
    let (act, eff) = and_true _ _ rest in
    (g, m, eq_of_== _ _ same, is_active_grant-eq _ act, in_effect-InEffect _ _ _ eff)

abbrev pub FitFor : Use → SiteRecord → Type 0
FitFor shipping s = s.allow_shipping ≡ true
FitFor billing s = s.allow_billing ≡ true

supports-FitFor : (use_ : Use) (s : SiteRecord) → supports use_ s ≡ true → FitFor use_ s
supports-FitFor shipping s h = h
supports-FitFor billing s h = h

-- One of the records, of this Organisation, ACTIVE, in the Market and fit for the use.
abbrev pub UsableRecord : BuyerOperationFacts → List SiteRecord → SiteUse → Type 0
UsableRecord facts records u =
    (s : SiteRecord) × Memᴰ s records
    × (s.id ≡ u.site_id)
    × (s.organisation_id ≡ facts.organisation_id)
    × (s.status ≡ SiteStatus.active)
    × (facts.market_key ≡ some s.market_key)
    × FitFor u.purpose s

-- The Site is a usable one of the records that are loaded.
abbrev pub UsableSite : BuyerOperationFacts → SiteUse → Type 0
UsableSite facts u =
    (records : List SiteRecord) × (facts.site_records ≡ loaded records)
    × UsableRecord facts records u

pub un_not : (b : Bool) → not b ≡ false → b ≡ true
un_not b h = ground arith

pub check_membership-pass :
    (now : ℕ) (m : Membership)
    → check_membership now m ≡ pass tt
    → (m.status ≡ "ACTIVE") × InEffect now m.effective_from m.effective_until
unfolding check_membership
check_membership-pass now m h =
    let (a, b) = or_false _ _ (deny_if-pass _ _ h) in
    (eq_of_== _ _ (un_not _ a), in_effect-InEffect _ _ _ (un_not _ b))

check_site-pass :
    (facts : BuyerOperationFacts) (records : List SiteRecord) (u : SiteUse)
    → check_site facts records u ≡ pass tt
    → UsableRecord facts records u
unfolding check_site
check_site-pass facts records u h = >>=-pass _ _ h λ s found h2. >>-pass _ _ h2 λ mine h3.
    let c = deny_if-pass _ _ h3 in
    let (m, same) = find-mem (λ r. r.id == u.site_id) records (present-pass _ _ found) in
    (
      s,
      m,
      eq_of_== _ _ same,
      eq_of_== _ _ (un_not _ (deny_if-pass _ _ mine)),
      ground arith,
      is_key-eq _ _ (ground arith),
      supports-FitFor _ _ (ground arith),
    )

check_each_site-pass :
    (facts : BuyerOperationFacts) (records : List SiteRecord) (us : List SiteUse)
    → check_each_site facts records us ≡ pass tt
    → (u : SiteUse) → Memᴰ u us
    → UsableRecord facts records u
unfolding check_each_site
check_each_site-pass facts records [] h u m = elim m [ ]
check_each_site-pass facts records (v ∷ us) h u (Memᴰ.head e) =
    >>-pass _ _ h λ now later. rw e (check_site-pass facts records v now)
check_each_site-pass facts records (v ∷ us) h u (Memᴰ.tail m) =
    >>-pass _ _ h λ now later. check_each_site-pass facts records us later u m

load_sites-pass :
    (facts : BuyerOperationFacts) (us : List SiteUse)
    → load_sites facts us ≡ pass tt
    → (u : SiteUse) → Memᴰ u us
    → UsableSite facts u
unfolding load_sites
load_sites-pass facts [] h u m = elim m [ ]
load_sites-pass facts (v ∷ us) h u m =
    >>=-pass _ _ h
      λ records l k. (records, load-pass _ l, check_each_site-pass facts records (v ∷ us) k u m)

pub check_sites-pass :
    (facts : BuyerOperationFacts) (need : SiteNeed)
    → check_sites facts need ≡ pass tt
    → (u : SiteUse) → Memᴰ u facts.sites
    → UsableSite facts u
unfolding check_sites
check_sites-pass facts need h =
    >>-pass _ _ h λ a h2. >>-pass _ _ h2 λ b h3. load_sites-pass facts facts.sites h3
