-- ===== src/Security/RateLimit.antt =====
-- baobab/security/rate-limit.ts: fixed windows, over the store that a process keeps in memory. The map
-- has references to window objects, which `increment` answers and a later call still changes; the
-- clock's reading is an argument of a call. Calls overlap: others may increment while a call waits at its
-- `await`; the waiting ones go on in the order in which they began.
use baobab_trade.Prelude.{
  ℕ, ◌+◌, ◌-◌, String, Option, none, some, List, [], ◌∷◌, ◌++◌, if◌then◌else◌, leb, ltb, eqb, ◌==◌,
}

pub record Window : Type 0 where
  pub count : ℕ
  pub reset_at : ℕ

-- The objects by their references, the references by the keys, and the next reference.
pub record Windows : Type 0 where
  pub windows : String → Option ℕ
  pub object : ℕ → Window
  pub fresh : ℕ

pub record Call : Type 0 where
  pub key : String
  pub limit : ℕ
  pub window_ms : ℕ
  pub now : ℕ

-- `RateLimitDecision`, or `RateLimitExceededError`.
pub data Decision : Type 0 where
  allowed : ℕ → ℕ → Decision
  exceeded : String → ℕ → Decision

unfoldable pub write : Windows → ℕ → Window → Windows
write m r w = record m { object = λ j. if eqb r j then w else m.object j }

-- A new object, kept under the key.
unfoldable pub open_window : Windows → String → ℕ → ℕ → ℕ × Windows
open_window m key window_ms now = (
  m.fresh,
  record {
    windows = λ k. if key == k then some m.fresh else m.windows k;
    object =
        λ j. if eqb m.fresh j then record { count = 1; reset_at = now + window_ms } else m.object j;
    fresh = m.fresh + 1;
  },
)

unfoldable pub increment_by : Windows → String → ℕ → ℕ → Option ℕ → ℕ × Windows
increment_by m key window_ms now none = open_window m key window_ms now
increment_by m key window_ms now (some r) =
    if leb (m.object r).reset_at now
    then open_window m key window_ms now
    else (r, write m r (record (m.object r) { count = (m.object r).count + 1 }))

-- `InMemoryRateLimitStore.increment`: the reference of the object.
unfoldable pub increment : Windows → String → ℕ → ℕ → ℕ × Windows
increment m key window_ms now = increment_by m key window_ms now (m.windows key)

unfoldable pub decide : String → ℕ → Window → Decision
decide key limit w =
    if ltb limit w.count then exceeded key w.reset_at else allowed (limit - w.count) w.reset_at

-- `assertWithinRateLimit` after its `await`: the object as it then is.
unfoldable pub resume : Windows → ℕ → Call → Decision
resume m r c = decide c.key c.limit (m.object r)

-- The windows, and the calls that wait at their `await`, the first one first.
pub record Limiter : Type 0 where
  pub store : Windows
  pub waiting : List (ℕ × Call)

-- A call up to its `await`, or the first waiting call from there on.
pub data Step : Type 0 where
  begins : Call → Step
  resumes : Step

unfoldable pub begin_call : Limiter → Call → Limiter
begin_call l c =
    let (r, m) = increment l.store c.key c.window_ms c.now in
    record { store = m; waiting = l.waiting ++ ((r, c) ∷ []) }

unfoldable pub resume_first : Windows → List (ℕ × Call) → Option Decision × Limiter
resume_first m [] = (none, record { store = m; waiting = [] })
resume_first m ((r, c) ∷ rest) = (some (resume m r c), record { store = m; waiting = rest })

-- `assertWithinRateLimit`, in its two parts.
unfoldable pub assert_within_rate_limit : Limiter → Step → Option Decision × Limiter
assert_within_rate_limit l (begins c) = (none, begin_call l c)
assert_within_rate_limit l resumes = resume_first l.store l.waiting
