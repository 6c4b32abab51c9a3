-- ===== src/Security/Windows.antt =====
-- Which calls of one key a window of baobab/security/rate-limit.ts lets through.
use Prim.Native.Nat.{min}
use baobab_trade.Prelude.{
  ℕ, zero, suc, subst, ◌+◌, ◌-◌, ◌≤◌, ◌<◌, ◌≡◌, refl, ap, ◌∙◌, String, Bool, true, false, Option,
  none, some, List, [], ◌∷◌, ◌++◌, All, length, if◌then◌else◌, leb, ltb, eqb, inl, inr,
  Option-cases, arith, ==_refl, le→leb,
}
use baobab_trade.Security.RateLimit.{
  Windows, Call, Limiter, Step, begins, resumes, begin_call, resume_first, Decision, allowed,
  exceeded, write, open_window, increment_by, increment, decide, resume, assert_within_rate_limit,
}

abbrev pub lets_through : Decision → Bool
lets_through (allowed remaining reset_at) = true
lets_through (exceeded key reset_at) = false

abbrev pub one : Bool → ℕ
one b = if b then 1 else 0

abbrev through : Option Decision → ℕ
through none = 0
through (some d) = one (lets_through d)

-- How many calls the steps let through.
unfoldable pub admitted : Limiter → List Step → ℕ
admitted l [] = 0
admitted l (s ∷ steps) =
    through (assert_within_rate_limit l s).0 + admitted (assert_within_rate_limit l s).1 steps

-- How many calls may be let through, of which so many have begun and so many of these wait: one that
-- goes on is let through where the calls that have begun by then are within the limit.
abbrev pub fits : ℕ → ℕ → ℕ → List Step → ℕ
fits limit begun waiting [] = 0
fits limit begun waiting (begins c ∷ steps) = fits limit (begun + 1) (suc waiting) steps
fits limit begun zero (resumes ∷ steps) = fits limit begun zero steps
fits limit begun (suc waiting) (resumes ∷ steps) =
    one (leb begun limit) + fits limit begun waiting steps

-- A call of the key under the limit, before the time.
abbrev pub Within : String → ℕ → ℕ → Call → Type 0
Within key limit reset c = (c.key ≡ key) × (c.limit ≡ limit) × (c.now < reset)

-- The key's window is the object of this reference, with this count and end.
abbrev Counts : Windows → String → ℕ → ℕ → ℕ → Type 0
Counts m key r count reset =
    (m.windows key ≡ some r) × (m.object r ≡ record { count = count; reset_at = reset })

abbrev waits : ℕ → List Call → List (ℕ × Call)
waits r [] = []
waits r (c ∷ cs) = (r, c) ∷ waits r cs

same_ref : (r : ℕ) → eqb r r ≡ true
same_ref r = ground arith

next_count :
    (m : Windows) (c : Call) (key : String) (r count reset : ℕ)
    → c.key ≡ key
    → Counts m key r count reset
    → c.now < reset
    → ((increment m c.key c.window_ms c.now).0 ≡ r)
      × Counts (increment m c.key c.window_ms c.now).1 key r (count + 1) reset
unfolding increment increment_by write
next_count m c key r count reset same (at, is) before =
    let running : leb reset c.now ≡ false = ground arith in
    let at' : m.windows c.key ≡ some r = ap m.windows same ∙ at in
    (rw (at', is, running) refl, (rw (at', is, running) at, rw (at', is, running, same_ref r) refl))

-- The calls that begin are of the key, under the limit and before the time.
abbrev pub StepWithin : String → ℕ → ℕ → Step → Type 0
StepWithin key limit reset (begins c) = Within key limit reset c
StepWithin key limit reset resumes = Unit

waits-++ :
    (r : ℕ) (cs : List Call) (c : Call) → waits r cs ++ ((r, c) ∷ []) ≡ waits r (cs ++ (c ∷ []))
waits-++ r [] c = refl
waits-++ r (d ∷ cs) c = ap (λ x. (r, d) ∷ x) (waits-++ r cs c)

length-++ : (cs : List Call) (c : Call) → length (cs ++ (c ∷ [])) ≡ suc (length cs)
length-++ [] c = refl
length-++ (d ∷ cs) c = ap suc (length-++ cs c)

under_limit :
    (limit : ℕ) (cs : List Call) (c : Call)
    → All (λ d. d.limit ≡ limit) cs
    → c.limit ≡ limit
    → All (λ d. d.limit ≡ limit) (cs ++ (c ∷ []))
under_limit limit [] c h e = (e, tt)
under_limit limit (d ∷ cs) c (h, hs) e = (h, under_limit limit cs c hs e)

decided :
    (m : Windows) (r : ℕ) (c : Call) (limit count reset : ℕ)
    → m.object r ≡ record { count = count; reset_at = reset }
    → c.limit ≡ limit
    → through (some (resume m r c)) ≡ one (leb count limit)
unfolding resume decide
decided m r c limit count reset is limited = rw (is, limited) (by_limit limit count c.key reset)
  where
    by_limit :
        (limit count : ℕ) (k : String) (reset : ℕ)
        → one (
            lets_through
              (if ltb limit count then exceeded k reset else allowed (limit - count) reset))
          ≡ one (leb count limit)
    by_limit limit count k reset = ground arith

run_fits :
    (key : String) (limit r reset : ℕ) (steps : List Step) (m : Windows) (count : ℕ)
    (cs : List Call)
    → Counts m key r count reset
    → All (λ d. d.limit ≡ limit) cs
    → All (StepWithin key limit reset) steps
    → admitted (record { store = m; waiting = waits r cs }) steps
      ≡ fits limit count (length cs) steps
unfolding admitted assert_within_rate_limit begin_call resume_first
run_fits key limit r reset [] m count cs counts limits h = refl
run_fits key limit r reset (begins c ∷ steps) m count cs counts limits
      ((same, limited, before), h) =
    let (ref, counts') = next_count m c key r count reset same counts before in
    let rest =
      run_fits key limit r reset steps (increment m c.key c.window_ms c.now).1 (count + 1)
        (cs ++ (c ∷ [])) counts' (under_limit limit cs c limits limited) h in
    rw (ref, waits-++ r cs c, rest, length-++ cs c) (omega arith)
run_fits key limit r reset (resumes ∷ steps) m count [] counts limits (u, h) =
    let rest = run_fits key limit r reset steps m count [] counts tt h in rw rest (omega arith)
run_fits key limit r reset (resumes ∷ steps) m count (c ∷ cs) (at, is) (limited, limits) (u, h) =
    rw
      (
        decided m r c limit count reset is limited,
        run_fits key limit r reset steps m count cs (at, is) limits h,
      )
      refl

-- The key has no window, or one that is over.
abbrev pub IsOver : Windows → Call → Type 0
IsOver m c = (r : ℕ) → m.windows c.key ≡ some r → (m.object r).reset_at ≤ c.now

opened :
    (m : Windows) (c : Call)
    → IsOver m c
    → ((increment m c.key c.window_ms c.now).0 ≡ m.fresh)
      × Counts (increment m c.key c.window_ms c.now).1 c.key m.fresh 1 (c.now + c.window_ms)
unfolding increment increment_by open_window
opened m c over = elim (Option-cases (m.windows c.key)) [
  | inl free ↦ rw free (refl, (rw (==_refl c.key) refl, rw (same_ref m.fresh) refl))
  | inr (r, at) ↦
      let past : leb (m.object r).reset_at c.now ≡ true = le→leb _ _ (over r at) in
      rw (at, past) (refl, (rw (==_refl c.key) refl, rw (same_ref m.fresh) refl))
]

at_most_limit :
    (limit : ℕ) (steps : List Step) (gone waiting : ℕ)
    → fits limit (gone + waiting) waiting steps + min gone limit ≤ limit
at_most_limit limit [] gone waiting = ground arith
at_most_limit limit (begins c ∷ steps) gone waiting =
    let sum : gone + suc waiting ≡ gone + waiting + 1 = omega arith in
    subst (λ n. fits limit n (suc waiting) steps + min gone limit ≤ limit) sum
      (at_most_limit limit steps gone (suc waiting))
at_most_limit limit (resumes ∷ steps) gone zero = at_most_limit limit steps gone zero
at_most_limit limit (resumes ∷ steps) gone (suc waiting) =
    let sum : suc gone + waiting ≡ gone + suc waiting = omega arith in
    let rest =
      subst (λ n. fits limit n waiting steps + min (suc gone) limit ≤ limit) sum
        (at_most_limit limit steps (suc gone) waiting) in
    step gone waiting (fits limit (gone + suc waiting) waiting steps) rest
  where
    step :
        (gone waiting f : ℕ)
        → f + min (suc gone) limit ≤ limit
        → one (leb (gone + suc waiting) limit) + f + min gone limit ≤ limit
    step gone waiting f h = ground arith

-- A call of a key that has no window, or one that is over, begins while none waits and opens a window.
-- In whatever order calls of the key in it begin and waiting calls go on, exactly those are let through
-- that go on while the calls that have begun in the window are within the limit; so at most as many
-- as the limit allows.
pub window-Admits :
    (m : Windows) (c : Call) (steps : List Step)
    → IsOver m c
    → All (StepWithin c.key c.limit (c.now + c.window_ms)) steps
    → (admitted (record { store = m; waiting = [] }) (begins c ∷ steps)
        ≡ fits c.limit 0 0 (begins c ∷ steps))
      × (admitted (record { store = m; waiting = [] }) (begins c ∷ steps) ≤ c.limit)
unfolding admitted assert_within_rate_limit begin_call
window-Admits m c steps over h =
    let (ref, counts) = opened m c over in
    let rest =
      run_fits c.key c.limit m.fresh (c.now + c.window_ms) steps
        (increment m c.key c.window_ms c.now).1 1 (c ∷ []) counts (refl, tt) h in
    let most : fits c.limit 1 1 steps + min 0 c.limit ≤ c.limit = at_most_limit c.limit steps 0 1 in
    (rw (ref, rest) (omega arith), rw (ref, rest) (omega (arith, most)))
