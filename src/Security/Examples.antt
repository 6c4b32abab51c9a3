-- ===== src/Security/Examples.antt =====
-- Runs of the limiter, and the theorems about them.
use baobab_trade.Prelude.{◌≡◌, ◌≤◌, refl, ℕ, String, none, List, [], ◌∷◌, arith}
use baobab_trade.Security.RateLimit.{
  Windows, Call, assert_within_rate_limit, write, open_window, increment_by, increment, decide,
  resume, begin_call, resume_first, Limiter, Step, begins, resumes,
}
use baobab_trade.Security.Windows.{admitted, fits, window-Admits}

abbrev call : String → ℕ → Call
call k t = record { key = k; limit = 2; window_ms = 100; now = t }

abbrev nothing : Windows
nothing = record {
  windows = λ k. none;
  object = λ j. record { count = 0; reset_at = 0 };
  fresh = 0;
}

abbrev idle : Limiter
idle = record { store = nothing; waiting = [] }

abbrev steps : List Step
steps = resumes ∷ begins (call "a" 20) ∷ begins (call "a" 40) ∷ resumes ∷ resumes ∷ []

window-Admits_example :
    (admitted idle (begins (call "a" 10) ∷ steps) ≡ fits 2 0 0 (begins (call "a" 10) ∷ steps))
    × (admitted idle (begins (call "a" 10) ∷ steps) ≤ 2)
window-Admits_example =
    window-Admits nothing (call "a" 10) steps (λ r e. absurd (ground arith))
      (tt, ((refl, refl, omega arith), ((refl, refl, omega arith), (tt, (tt, tt)))))

-- The second and the third call overlap, so only the first one is let through.
one_of_three : admitted idle (begins (call "a" 10) ∷ steps) ≡ 1
unfolding admitted assert_within_rate_limit write open_window increment_by increment decide resume
    begin_call resume_first
one_of_three = refl

-- Three calls, one at a time.
two_of_three :
    admitted idle (
      begins (call "a" 10)
      ∷ resumes
      ∷ begins (call "a" 20)
      ∷ resumes
      ∷ begins (call "a" 40)
      ∷ resumes
      ∷ [])
    ≡ 2
unfolding admitted assert_within_rate_limit write open_window increment_by increment decide resume
    begin_call resume_first
two_of_three = refl

-- A later window is another object, so a call that waits keeps its own.
later_window :
    admitted idle (
      begins (call "a" 10)
      ∷ begins (call "b" 10)
      ∷ begins (call "a" 110)
      ∷ resumes
      ∷ resumes
      ∷ resumes
      ∷ [])
    ≡ 3
unfolding admitted assert_within_rate_limit write open_window increment_by increment decide resume
    begin_call resume_first
later_window = refl
