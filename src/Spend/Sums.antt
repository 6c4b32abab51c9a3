-- ===== src/Spend/Sums.antt =====
-- Sums over the rows of a table, and what one altered row does to them.
use baobab_trade.Prelude.{
  ℕ, ◌+◌, ◌≤◌, ◌≡◌, Bool, true, some, List, [], ◌∷◌, find, Bool-cases, inl, inr, arith,
}
use baobab_trade.Spend.State.{alter}

unfoldable pub sum {ℓ} : {A : Type ℓ} → (A → ℕ) → List A → ℕ
sum g [] = 0
sum g (x ∷ xs) = g x + sum g xs

module _ {ℓ} {A : Type ℓ} (g : A → ℕ) (q : A → Bool) where
  -- Altering the row that a search finds moves the sum by what the row's own value moves.
  pub sum-alter :
      (f : A → A) (xs : List A) {h : A}
      → find q xs ≡ some h
      → sum g (alter q f xs) + g h ≡ sum g xs + g (f h)
  unfolding sum alter
  sum-alter f [] e = ground arith
  sum-alter f (x ∷ xs) {h} e = elim (Bool-cases (q x)) [
    | inl t ↦ let same : x ≡ h = ground arith in rw t (rw same (omega arith))
    | inr n ↦ rw n (omega (arith, sum-alter f xs (rw n at e)))
  ]

  -- A row that the search finds is a part of the sum.
  pub le-sum : (xs : List A) {h : A} → find q xs ≡ some h → g h ≤ sum g xs
  unfolding sum
  le-sum [] e = ground arith
  le-sum (x ∷ xs) {h} e = elim (Bool-cases (q x)) [
    | inl t ↦ let same : x ≡ h = ground arith in rw same (omega arith)
    | inr n ↦ omega (arith, le-sum xs (rw n at e))
  ]

pub find-test {ℓ} :
    {A : Type ℓ} (q : A → Bool) (xs : List A) {h : A} → find q xs ≡ some h → q h ≡ true
find-test q [] e = ground arith
find-test q (x ∷ xs) {h} e = elim (Bool-cases (q x)) [
  | inl t ↦ let same : x ≡ h = ground arith in rw (← same) t
  | inr n ↦ find-test q xs (rw n at e)
]
