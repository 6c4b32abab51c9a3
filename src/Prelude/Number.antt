-- ===== src/Prelude/Number.antt =====
-- Numbers of JavaScript: not a number, infinite, or a whole number over a power of two.
use Prim.Native.Nat.{ℕ, suc, ◌*◌, ◌^◌, ◌%◌}
use mathlib.Core.Bool.{Bool, false, not, ◌&&◌}
use baobab_trade.Prelude.Int.{ℤ, pos, negsuc}
use baobab_trade.Prelude.Tests.{leb, ltb, eqb}

pub data Number : Type 0 where
  nan : Number
  infinite : Bool → Number
  dyadic : ℤ → ℕ → Number

abbrev pub is_positive : Number → Bool
is_positive nan = false
is_positive (infinite negative) = not negative
is_positive (dyadic (pos n) scale) = ltb 0 n
is_positive (dyadic (negsuc n) scale) = false

abbrev magnitude : ℤ → ℕ
magnitude (pos n) = n
magnitude (negsuc n) = suc n

-- `Number.isInteger`.
abbrev pub is_integer : Number → Bool
is_integer nan = false
is_integer (infinite negative) = false
is_integer (dyadic n scale) = eqb (magnitude n % 2 ^ scale) 0

abbrev pub is_within : ℕ → Number → Bool
is_within bound nan = false
is_within bound (infinite negative) = false
is_within bound (dyadic n scale) = leb (magnitude n) (bound * 2 ^ scale)

-- `Number.isSafeInteger`.
abbrev pub is_safe_integer : Number → Bool
is_safe_integer n = is_integer n && is_within 9007199254740991 n
