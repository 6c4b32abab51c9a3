-- ===== src/Commercial/Decimals.antt =====
-- baobab/b2b/commercial-lifecycle.ts: decimal texts, and exact arithmetic on them.
use Prim.Native.String.{String}
use baobab_trade.Prelude.{
  ℕ, ◌+◌, ◌-◌, ◌*◌, ◌^◌, leb, eqb, Bool, true, false, not, ◌&&◌, List, [], ◌∷◌, length, any, all,
  if◌then◌else◌, codes, is_digit, units, max,
}

-- `scaled`: a whole number and how many of its digits are behind the point.
pub record Decimal : Type 0 where
  pub n : ℕ
  pub scale : ℕ

-- `BigInt(s.replace(".", ""))` on a text of digits with one point at most.
abbrev pub digits_value : ℕ → List ℕ → ℕ
digits_value acc [] = acc
digits_value acc (c ∷ cs) =
    if eqb c b'.' then digits_value acc cs else digits_value (acc * 10 + (c - b'0')) cs

-- The digits behind the first point.
abbrev pub fraction_length : List ℕ → ℕ
fraction_length [] = 0
fraction_length (c ∷ cs) = let rest = fraction_length cs in if eqb c b'.' then length cs else rest

unfoldable pub scaled : String → Decimal
scaled s = record { n = digits_value 0 (codes s); scale = fraction_length (codes s) }

unfoldable pub equal_decimal : Decimal → Decimal → Bool
equal_decimal a b = eqb (a.n * 10 ^ b.scale) (b.n * 10 ^ a.scale)

-- The product that a line's total is compared with.
unfoldable pub times : Decimal → Decimal → Decimal
times a b = record { n = a.n * b.n; scale = a.scale + b.scale }

-- `Math.max(...scales)`.
unfoldable pub max_scale : List Decimal → ℕ
max_scale [] = 0
max_scale (d ∷ ds) = max d.scale (max_scale ds)

unfoldable pub sum_at : ℕ → List Decimal → ℕ
sum_at scale [] = 0
sum_at scale (d ∷ ds) = d.n * 10 ^ (scale - d.scale) + sum_at scale ds

-- The total of the lines, at the largest of their scales.
unfoldable pub sum_of : List Decimal → Decimal
sum_of ds = record { n = sum_at (max_scale ds) ds; scale = max_scale ds }

-- DECIMAL: `0` or digits that do not start with 0, then a point with digits or nothing.
abbrev pub is_fraction : List ℕ → Bool
is_fraction [] = true
is_fraction (c ∷ []) = false
is_fraction (c ∷ d ∷ cs) = eqb c b'.' && (is_digit d && all is_digit cs)

abbrev pub is_rest : List ℕ → Bool
is_rest [] = true
is_rest (c ∷ cs) = let rest = is_rest cs in if is_digit c then rest else is_fraction (c ∷ cs)

unfoldable pub is_decimal_text : List ℕ → Bool
is_decimal_text [] = false
is_decimal_text (c ∷ cs) =
    let fraction = is_fraction cs in
    let rest = is_rest cs in if eqb c b'0' then fraction else is_digit c && rest

unfoldable pub is_decimal : String → Bool
is_decimal s = leb (units (codes s)) 64 && is_decimal_text (codes s)

-- `/[1-9]/.test(s)`.
unfoldable pub is_nonzero : String → Bool
is_nonzero s = any (λ c. is_digit c && not (eqb c b'0')) (codes s)
