-- ===== src/Events/Delays.antt =====
-- The delays between the attempts of baobab/events/outbox.ts.
use Prim.Native.Nat.{min}
use native.Mathlib.Nat.{pow-suc, pow-zero}
use baobab_trade.Prelude.{ℕ, zero, suc, ◌-◌, ◌*◌, ◌^◌, ◌≤◌, max, ◌≡◌, arith}
use baobab_trade.Events.Outbox.{RetryPolicy, delay_after}

-- The uncapped delay doubles.
doubling : (initial k : ℕ) → initial * 2 ^ suc k ≡ 2 * (initial * 2 ^ k)
doubling initial k = rw (pow-suc 2 k) (omega arith)

no_less : (initial k : ℕ) → initial ≤ initial * 2 ^ k
no_less initial zero = rw (pow-zero 2) (omega arith)
no_less initial (suc k) = omega (arith, doubling initial k, no_less initial k)

module _ (p : RetryPolicy) (caps : p.initial_delay_ms ≤ p.max_delay_ms) where
  -- Where the first delay is within the largest, the delay after every attempt lies between them, the
  -- delay after the first attempt is the first delay, and each further delay is twice the one before
  -- it, up to the largest.
  pub delay_after-IsBounded :
      (k : ℕ)
      → (p.initial_delay_ms ≤ delay_after p (suc k))
        × (delay_after p (suc k) ≤ p.max_delay_ms)
        × (delay_after p 1 ≡ p.initial_delay_ms)
        × (delay_after p (suc (suc k)) ≡ min (2 * delay_after p (suc k)) p.max_delay_ms)
  unfolding delay_after
  delay_after-IsBounded k =
      let plain : max 0 (suc k - 1) ≡ k = omega arith in
      let next : max 0 (suc (suc k) - 1) ≡ suc k = omega arith in
      rw (plain, next, doubling p.initial_delay_ms k)
        (omega (arith, no_less p.initial_delay_ms k, pow-zero 2))
