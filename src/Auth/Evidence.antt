-- ===== src/Auth/Evidence.antt =====
-- The evidence that baobab/auth/buyer-assurance.ts asks for, described on its own: the profile of an
-- operation, an accepted class, the required methods, and the ends of a decision.
use Prim.Native.Nat.{min}
use baobab_trade.Prelude.{
  ℕ, ◌<◌, ◌≡◌, refl, String, true, false, not, ◌==◌, Option, none, some, List, [], ◌∷◌, Memᴰ,
  includes, any, arith, eq_of_==, ==_refl, or_false, and_true, Bool-cases, inl, inr,
}
use baobab_trade.Auth.Assurance.{
  AssuranceProfile, buyer_session, buyer_commitment, buyer_administration, BuyerOperation,
  buyer_context_resolve, private_catalogue_view, contract_price_view, cart_modify, rfq_submit,
  quotation_accept, purchase_approval_decide, order_commit, order_create, draft_order_finalize,
  buyer_invitation_accept, buyer_member_manage, canonical_profile, is_accepted, is_method_of,
  misses_method, is_before, earlier,
}

-- The profile that the contract fixes for each operation.
pub data Requires : BuyerOperation → AssuranceProfile → Type 0 where
  resolve_context : Requires buyer_context_resolve buyer_session
  view_catalogue : Requires private_catalogue_view buyer_session
  view_price : Requires contract_price_view buyer_session
  modify_cart : Requires cart_modify buyer_session
  submit_rfq : Requires rfq_submit buyer_commitment
  accept_quotation : Requires quotation_accept buyer_commitment
  decide_approval : Requires purchase_approval_decide buyer_commitment
  commit_order : Requires order_commit buyer_commitment
  create_order : Requires order_create buyer_commitment
  finalize_draft : Requires draft_order_finalize buyer_commitment
  accept_invitation : Requires buyer_invitation_accept buyer_commitment
  manage_members : Requires buyer_member_manage buyer_administration

pub canonical_profile-Requires : (o : BuyerOperation) → Requires o (canonical_profile o)
unfolding canonical_profile
canonical_profile-Requires buyer_context_resolve = resolve_context
canonical_profile-Requires private_catalogue_view = view_catalogue
canonical_profile-Requires contract_price_view = view_price
canonical_profile-Requires cart_modify = modify_cart
canonical_profile-Requires rfq_submit = submit_rfq
canonical_profile-Requires quotation_accept = accept_quotation
canonical_profile-Requires purchase_approval_decide = decide_approval
canonical_profile-Requires order_commit = commit_order
canonical_profile-Requires order_create = create_order
canonical_profile-Requires draft_order_finalize = finalize_draft
canonical_profile-Requires buyer_invitation_accept = accept_invitation
canonical_profile-Requires buyer_member_manage = manage_members

pub Requires-canonical_profile :
    (o : BuyerOperation) (q : AssuranceProfile) → Requires o q → canonical_profile o ≡ q
unfolding canonical_profile
Requires-canonical_profile o q resolve_context = refl
Requires-canonical_profile o q view_catalogue = refl
Requires-canonical_profile o q view_price = refl
Requires-canonical_profile o q modify_cart = refl
Requires-canonical_profile o q submit_rfq = refl
Requires-canonical_profile o q accept_quotation = refl
Requires-canonical_profile o q decide_approval = refl
Requires-canonical_profile o q commit_order = refl
Requires-canonical_profile o q create_order = refl
Requires-canonical_profile o q finalize_draft = refl
Requires-canonical_profile o q accept_invitation = refl
Requires-canonical_profile o q manage_members = refl

includes-Memᴰ : (xs : List String) (s : String) → includes xs s ≡ true → Memᴰ s xs
includes-Memᴰ [] s h = absurd (ground arith)
includes-Memᴰ (x ∷ xs) s h = elim (Bool-cases (x == s)) [
  | inl e ↦ rw (eq_of_== x s e) (Memᴰ.head refl)
  | inr e ↦ Memᴰ.tail (includes-Memᴰ xs s (rw e at h))
]

Memᴰ-includes : (xs : List String) (s : String) → Memᴰ s xs → includes xs s ≡ true
Memᴰ-includes [] s m = elim m [ ]
Memᴰ-includes (x ∷ xs) s (Memᴰ.head e) = rw (e, ==_refl x) refl
Memᴰ-includes (x ∷ xs) s (Memᴰ.tail m) = let rest = Memᴰ-includes xs s m in ground arith

-- A class that is not empty and is one of the values.
abbrev pub HasClass : Option String → List String → Type 0
HasClass none values = ⊥
HasClass (some acr) values = ((acr == "") ≡ false) × Memᴰ acr values

pub is_accepted-HasClass :
    (acr : Option String) (values : List String)
    → is_accepted acr values ≡ true
    → HasClass acr values
is_accepted-HasClass none values h = absurd (ground arith)
is_accepted-HasClass (some acr) values h =
    let (a, m) = and_true (not (acr == "")) (includes values acr) h in
    (ground arith, includes-Memᴰ values acr m)

pub HasClass-is_accepted :
    (acr : Option String) (values : List String)
    → HasClass acr values
    → is_accepted acr values ≡ true
HasClass-is_accepted none values h = absurd h
HasClass-is_accepted (some acr) values (a, m) = rw (a, Memᴰ-includes values acr m) refl

abbrev pub Among : Option (List String) → String → Type 0
Among none m = ⊥
Among (some methods) m = Memᴰ m methods

-- Every required method is among those of the token.
abbrev pub HasMethods : Option (List String) → Option (List String) → Type 0
HasMethods none amr = Unit
HasMethods (some methods) amr = (m : String) → Memᴰ m methods → Among amr m

is_method_of-Among :
    (amr : Option (List String)) (m : String) → is_method_of amr m ≡ true → Among amr m
is_method_of-Among none m h = absurd (ground arith)
is_method_of-Among (some methods) m h = includes-Memᴰ methods m h

Among-is_method_of :
    (amr : Option (List String)) (m : String) → Among amr m → is_method_of amr m ≡ true
Among-is_method_of none m h = absurd h
Among-is_method_of (some methods) m h = Memᴰ-includes methods m h

none_missing :
    (amr : Option (List String)) (methods : List String)
    → any (λ m. not (is_method_of amr m)) methods ≡ false
    → (m : String) → Memᴰ m methods
    → Among amr m
none_missing amr [] h m i = elim i [ ]
none_missing amr (x ∷ xs) h m (Memᴰ.head e) =
    let (here, rest) =
      or_false (not (is_method_of amr x)) (any (λ k. not (is_method_of amr k)) xs) h in
    rw e (is_method_of-Among amr x (ground arith))
none_missing amr (x ∷ xs) h m (Memᴰ.tail i) =
    let (here, rest) =
      or_false (not (is_method_of amr x)) (any (λ k. not (is_method_of amr k)) xs) h in
    none_missing amr xs rest m i

all_there :
    (amr : Option (List String)) (methods : List String)
    → ((m : String) → Memᴰ m methods → Among amr m)
    → any (λ m. not (is_method_of amr m)) methods ≡ false
all_there amr [] h = refl
all_there amr (x ∷ xs) h =
    let rest = all_there amr xs (λ m i. h m (Memᴰ.tail i)) in
    let here = Among-is_method_of amr x (h x (Memᴰ.head refl)) in rw (here, rest) refl

pub misses_method-HasMethods :
    (required amr : Option (List String))
    → misses_method required amr ≡ false
    → HasMethods required amr
misses_method-HasMethods none amr h = tt
misses_method-HasMethods (some methods) amr h = none_missing amr methods h

pub HasMethods-misses_method :
    (required amr : Option (List String))
    → HasMethods required amr
    → misses_method required amr ≡ false
HasMethods-misses_method none amr h = refl
HasMethods-misses_method (some methods) amr h = all_there amr methods h

-- The time is before the end, where there is one.
abbrev pub Before : ℕ → Option ℕ → Type 0
Before now none = Unit
Before now (some until) = now < until

pub is_before-Before : (now : ℕ) (until : Option ℕ) → is_before now until ≡ true → Before now until
is_before-Before now none h = tt
is_before-Before now (some u) h = ground arith

pub Before-is_before : (now : ℕ) (until : Option ℕ) → Before now until → is_before now until ≡ true
Before-is_before now none h = refl
Before-is_before now (some u) h = ground arith

-- The end of a decision: that of the authentication, or that of the policy where it is earlier.
abbrev pub EarlierEnd : Option ℕ → ℕ → ℕ → Type 0
EarlierEnd none end e = e ≡ end
EarlierEnd (some until) end e = e ≡ min until end

pub earlier-EarlierEnd : (until : Option ℕ) (end : ℕ) → EarlierEnd until end (earlier until end)
earlier-EarlierEnd none end = refl
earlier-EarlierEnd (some u) end = refl

pub EarlierEnd-earlier :
    (until : Option ℕ) (end e : ℕ) → EarlierEnd until end e → earlier until end ≡ e
EarlierEnd-earlier none end e h = cc
EarlierEnd-earlier (some u) end e h = cc
