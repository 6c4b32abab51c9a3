-- ===== src/Commercial/Exact.antt =====
-- Exact values of decimals, apart from the way that baobab/b2b/commercial-lifecycle.ts compares them.
use baobab_trade.Prelude.{
  ℕ, zero, suc, ◌+◌, ◌-◌, ◌*◌, ◌^◌, ◌≤◌, ◌<◌, ap₂, ◌≡◌, sym, ap, ◌∙◌, true, List, [], ◌∷◌, All,
  arith,
}
use native.Mathlib.Nat.{
  pow-zero, pow-suc, mul_assoc, mul-one, add-mul, zero-mul, eq_of_mul-eq-mul_right, one-le-pow,
}
use baobab_trade.Commercial.Decimals.{Decimal, equal_decimal, max_scale, sum_at, sum_of}

-- The value of a decimal in units of ten to the power `- K`.
unfoldable pub at_scale : ℕ → Decimal → ℕ
at_scale K d = d.n * 10 ^ (K - d.scale)

-- Two decimals are the same number.
abbrev pub SameValue : Decimal → Decimal → Type 0
SameValue a b = (K : ℕ) → a.scale ≤ K → b.scale ≤ K → at_scale K a ≡ at_scale K b

pow_add : (a b : ℕ) → 10 ^ (a + b) ≡ 10 ^ a * 10 ^ b
pow_add a zero =
    ap (λ x. 10 ^ x) (omega arith)
    ∙ sym (mul-one (10 ^ a))
    ∙ ap (λ x. 10 ^ a * x) (sym (pow-zero 10))
pow_add a (suc b) =
    ap (λ x. 10 ^ x) (omega arith)
    ∙ pow-suc 10 (a + b)
    ∙ ap (λ x. x * 10) (pow_add a b)
    ∙ mul_assoc (10 ^ a) (10 ^ b) 10
    ∙ ap (λ x. 10 ^ a * x) (sym (pow-suc 10 b))

-- What is missing to a larger scale.
pow_split : (s K : ℕ) → s ≤ K → 10 ^ (K - s) * 10 ^ s ≡ 10 ^ K
pow_split s K h = sym (pow_add (K - s) s) ∙ ap (λ x. 10 ^ x) (omega (arith, h))

pow_positive : (s : ℕ) → 0 < 10 ^ s
pow_positive s = one-le-pow s 10 (omega arith)

-- Cross-multiplied, with both sides brought to one power.
cross : (m n A B P Q T : ℕ) → 0 < P → 0 < Q → A * P ≡ T → B * Q ≡ T → m * Q ≡ n * P → m * A ≡ n * B
cross m n A B P Q T p q e f h =
    eq_of_mul-eq-mul_right P p _ _
      (eq_of_mul-eq-mul_right Q q _ _ (step1 ∙ ap₂ (λ x y. x * y) h (e ∙ sym f) ∙ step2))
  where
    step1 : m * A * P * Q ≡ m * Q * (A * P)
    step1 = omega arith

    step2 : n * P * (B * Q) ≡ n * B * P * Q
    step2 = omega arith

-- The comparison of the source is equality of values.
pub equal_decimal-SameValue : (a b : Decimal) → equal_decimal a b ≡ true → SameValue a b
unfolding equal_decimal at_scale
equal_decimal-SameValue a b h K p q =
    cross a.n b.n (10 ^ (K - a.scale)) (10 ^ (K - b.scale)) (10 ^ a.scale) (10 ^ b.scale) (10 ^ K)
      (pow_positive a.scale) (pow_positive b.scale) (pow_split a.scale K p) (pow_split b.scale K q)
      (ground arith)

-- The sum of the values of a list.
unfoldable pub total_at : ℕ → List Decimal → ℕ
total_at K [] = 0
total_at K (d ∷ ds) = at_scale K d + total_at K ds

abbrev pub FitsIn : ℕ → Decimal → Type 0
FitsIn K d = d.scale ≤ K

rescale : (s M K : ℕ) → s ≤ M → M ≤ K → 10 ^ (K - s) ≡ 10 ^ (M - s) * 10 ^ (K - M)
rescale s M K h k = ap (λ x. 10 ^ x) (omega (arith, h, k)) ∙ pow_add (M - s) (K - M)

sum_at-total_at :
    (M K : ℕ) (ds : List Decimal)
    → All (FitsIn M) ds
    → M ≤ K
    → sum_at M ds * 10 ^ (K - M) ≡ total_at K ds
unfolding sum_at total_at at_scale
sum_at-total_at M K [] fits k = zero-mul (10 ^ (K - M))
sum_at-total_at M K (d ∷ ds) (fit, fits) k =
    add-mul (d.n * 10 ^ (M - d.scale)) (sum_at M ds) (10 ^ (K - M))
    ∙ ap₂ (λ x y. x + y)
        (mul_assoc d.n (10 ^ (M - d.scale)) (10 ^ (K - M))
          ∙ ap (λ x. d.n * x) (sym (rescale d.scale M K fit k)))
        (sum_at-total_at M K ds fits k)

max_scale-Fits : (ds : List Decimal) (M : ℕ) → max_scale ds ≤ M → All (FitsIn M) ds
unfolding max_scale
max_scale-Fits [] M h = tt
max_scale-Fits (d ∷ ds) M h = (omega (arith, h), max_scale-Fits ds M (omega (arith, h)))

-- The largest scale is no more than any bound of them all.
max_scale-least : (ds : List Decimal) (K : ℕ) → All (FitsIn K) ds → max_scale ds ≤ K
unfolding max_scale
max_scale-least [] K fits = omega arith
max_scale-least (d ∷ ds) K (fit, fits) = omega (arith, fit, max_scale-least ds K fits)

-- The sum that the source takes has the value of the sum.
pub sum_of-total_at :
    (ds : List Decimal) (K : ℕ) → All (FitsIn K) ds → at_scale K (sum_of ds) ≡ total_at K ds
unfolding sum_of at_scale
sum_of-total_at ds K fits =
    sum_at-total_at (max_scale ds) K ds (max_scale-Fits ds (max_scale ds) (omega arith))
      (max_scale-least ds K fits)

pub max_scale-Bound : (ds : List Decimal) (K : ℕ) → All (FitsIn K) ds → (sum_of ds).scale ≤ K
unfolding sum_of
max_scale-Bound ds K fits = max_scale-least ds K fits
