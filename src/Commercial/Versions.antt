-- ===== src/Commercial/Versions.antt =====
-- baobab/b2b/commercial-lifecycle.ts: the versions of a request for quotation over a history of
-- attempted transitions.
use baobab_trade.Prelude.{
  ℕ, ◌+◌, ◌≤◌, ◌≡◌, refl, Bool, true, false, not, ◌||◌, List, [], ◌∷◌, arith, eqb, ◌∙◌, subst, sym,
}
use baobab_trade.Commercial.Lifecycle.{
  Rfq, RfqStatus, Result, ok, refuses, refuse_if, CommercialRefusal, conflict, transition_rfq,
}

pub refuse_if-ok {ℓ} :
    {A : Type ℓ} (c : Bool) (e : CommercialRefusal) (k : Result A) {a : A}
    → refuse_if c e k ≡ ok a
    → (c ≡ false) × (k ≡ ok a)
unfolding refuse_if
refuse_if-ok true e k h = absurd (ground arith)
refuse_if-ok false e k h = (refl, h)

pub refuse_if-refuses {ℓ} :
    {A : Type ℓ} (c : Bool) (e : CommercialRefusal) (k : Result A)
    → c ≡ true
    → refuse_if c e k ≡ refuses e
unfolding refuse_if
refuse_if-refuses true e k h = refl
refuse_if-refuses false e k h = absurd (ground arith)

stale_test :
    (unsafe same missing early : Bool)
    → same ≡ false
    → (unsafe || not same || missing || early) ≡ true
stale_test unsafe same missing early h = ground arith

-- One attempt, with the version that its caller saw.
pub record Attempt : Type 0 where
  pub to : RfqStatus
  pub version : ℕ
  pub now : ℕ

-- A refused attempt leaves the request as it is; the accepted ones are counted.
unfoldable pub kept : Rfq → Result Rfq → Rfq × ℕ
kept r (ok next) = (next, 1)
kept r (refuses e) = (r, 0)

unfoldable pub attempts : Rfq → List Attempt → Rfq × ℕ
attempts r [] = (r, 0)
attempts r (a ∷ rest) =
    let step = kept r (transition_rfq r a.to a.version a.now) in
    let after = attempts step.0 rest in (after.0, step.1 + after.1)

-- The same request, so many versions later.
pub record IsLater (r : Rfq) (n : ℕ) (r' : Rfq) : Type 0 where
  pub version : r'.version ≡ r.version + n
  pub updated_at : r.updated_at ≤ r'.updated_at
  pub created_at : r'.created_at ≡ r.created_at
  pub rfq_id : r'.rfq_id ≡ r.rfq_id
  pub context : r'.context ≡ r.context
  pub lines : r'.lines ≡ r.lines

IsLater-trans : (a b c : Rfq) (m n : ℕ) → IsLater a m b → IsLater b n c → IsLater a (m + n) c
IsLater-trans a b c m n p q = record {
  version = omega (arith, p.version, q.version);
  updated_at = omega (arith, p.updated_at, q.updated_at);
  created_at = q.created_at ∙ p.created_at;
  rfq_id = q.rfq_id ∙ p.rfq_id;
  context = q.context ∙ p.context;
  lines = q.lines ∙ p.lines;
}

ok_same : {A : Type 0} {a b : A} → ok a ≡ ok b → a ≡ b
ok_same h = cc

transition_rfq-IsLater :
    (r : Rfq) (to : RfqStatus) (version now : ℕ) (r' : Rfq)
    → transition_rfq r to version now ≡ ok r'
    → IsLater r 1 r' × (r.version ≡ version)
unfolding transition_rfq
transition_rfq-IsLater r to version now r' h =
    let (fine, k) = refuse_if-ok _ _ _ h in
    let same : version ≡ r.version = ground arith in
    (
      subst (IsLater r 1) (ok_same k) (record {
        version = omega (arith, same);
        updated_at = ground arith;
        created_at = refl;
        rfq_id = refl;
        context = refl;
        lines = refl;
      }),
      sym same,
    )

kept-IsLater :
    (r : Rfq) (a : Attempt) (o : Result Rfq)
    → transition_rfq r a.to a.version a.now ≡ o
    → IsLater r (kept r o).1 (kept r o).0
unfolding kept
kept-IsLater r a (ok next) h = (transition_rfq-IsLater r a.to a.version a.now next h).0
kept-IsLater r a (refuses e) h = record {
  version = omega arith;
  updated_at = omega arith;
  created_at = refl;
  rfq_id = refl;
  context = refl;
  lines = refl;
}

-- Over any history of attempts, of which the refused change nothing: the version has advanced by the
-- number of accepted attempts, time has not gone back, and the identity, the context and the lines
-- of the request are the same.
pub attempts-IsLater :
    (r : Rfq) (as_ : List Attempt) → IsLater r (attempts r as_).1 (attempts r as_).0
unfolding attempts
attempts-IsLater r [] = record {
  version = omega arith;
  updated_at = omega arith;
  created_at = refl;
  rfq_id = refl;
  context = refl;
  lines = refl;
}
attempts-IsLater r (a ∷ rest) =
    IsLater-trans r _ _ _ _ (kept-IsLater r a _ refl)
      (attempts-IsLater (kept r (transition_rfq r a.to a.version a.now)).0 rest)

-- Where an attempt under a version is accepted, every later attempt under that version is a conflict,
-- after any history of attempts: no transition overwrites one that its caller has not seen.
pub transition_rfq-Once :
    (r : Rfq) (to : RfqStatus) (version now : ℕ) (r' : Rfq)
    → transition_rfq r to version now ≡ ok r'
    → (as_ : List Attempt) (next : RfqStatus) (later : ℕ)
    → transition_rfq ((attempts r' as_).0) next version later ≡ refuses conflict
unfolding transition_rfq
transition_rfq-Once r to version now r' h as_ next later =
    let (first, seen) = transition_rfq-IsLater r to version now r' h in
    let after = attempts-IsLater r' as_ in
    let stale : eqb version ((attempts r' as_).0).version ≡ false =
      ground (arith, first.version, after.version, seen) in
    refuse_if-refuses _ conflict _ (stale_test _ _ _ _ stale)
