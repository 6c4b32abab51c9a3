-- ===== src/Prelude/Lists.antt =====
-- Lists searched by Boolean tests, as the array methods `some`, `every`, `filter`, `find` do.
use Prim.Native.Nat.{ℕ, zero, suc}
use Prim.Native.String.{String}
use mathlib.Core.Path.{◌≡◌, refl}
use mathlib.Core.Logic.{◌⊎◌, inl, inr}
use mathlib.Core.Bool.{Bool, true, false, ◌&&◌, ◌||◌}
use mathlib.Core.Option.{Option, none, some}
use mathlib.Core.List.{List, [], ◌∷◌, Memᴰ}
use native.Mathlib.Omega.{arith}
use text.Mathlib.Text.{◌==◌}
use baobab_trade.Prelude.Tests.{if◌then◌else◌, Bool-cases, and_true}

module _ {ℓ} {A : Type ℓ} where
  abbrev pub length : List A → ℕ
  length [] = 0
  length (x ∷ xs) = suc (length xs)

  abbrev pub any : (A → Bool) → List A → Bool
  any p [] = false
  any p (x ∷ xs) = p x || any p xs

  abbrev pub all : (A → Bool) → List A → Bool
  all p [] = true
  all p (x ∷ xs) = p x && all p xs

  abbrev pub filter : (A → Bool) → List A → List A
  filter p [] = []
  filter p (x ∷ xs) = let rest = filter p xs in if p x then x ∷ rest else rest

  abbrev pub find : (A → Bool) → List A → Option A
  find p [] = none
  find p (x ∷ xs) = if p x then some x else find p xs

  abbrev pub take : ℕ → List A → List A
  take zero xs = []
  take (suc n) [] = []
  take (suc n) (x ∷ xs) = x ∷ take n xs

  pub mem_take : (n : ℕ) (xs : List A) {x : A} → Memᴰ x (take n xs) → Memᴰ x xs
  mem_take zero xs m = elim m [ ]
  mem_take (suc n) [] m = elim m [ ]
  mem_take (suc n) (y ∷ xs) (Memᴰ.head e) = Memᴰ.head e
  mem_take (suc n) (y ∷ xs) (Memᴰ.tail m) = Memᴰ.tail (mem_take n xs m)

module _ {ℓ κ} {A : Type ℓ} (P : A → Type κ) where
  abbrev pub All : List A → Type κ
  All [] = Unit
  All (x ∷ xs) = P x × All xs

module _ {ℓ} {A : Type ℓ} (p : A → Bool) where
  pub any-mem : (xs : List A) → any p xs ≡ true → (x : A) × Memᴰ x xs × (p x ≡ true)
  any-mem [] h = ground arith
  any-mem (x ∷ xs) h = elim (Bool-cases (p x)) [
    | inl e ↦ (x, Memᴰ.head refl, e)
    | inr e ↦ let (y, m, q) = any-mem xs (ground arith) in (y, Memᴰ.tail m, q)
  ]

  -- One round of `filter`.
  mem-kept :
      (y : A) (rest : List A) {x : A}
      → Memᴰ x (if p y then y ∷ rest else rest)
      → ((x ≡ y) × (p y ≡ true)) ⊎ Memᴰ x rest
  mem-kept y rest {x} m = elim (Bool-cases (p y)) [
    | inl e ↦ split e (rw e at m)
    | inr e ↦ inr (rw e at m)
  ]
    where
      split : p y ≡ true → Memᴰ x (y ∷ rest) → ((x ≡ y) × (p y ≡ true)) ⊎ Memᴰ x rest
      split e (Memᴰ.head q) = inl (q, e)
      split e (Memᴰ.tail k) = inr k

  pub filter-mem : (xs : List A) {x : A} → Memᴰ x (filter p xs) → Memᴰ x xs × (p x ≡ true)
  filter-mem [] m = elim m [ ]
  filter-mem (y ∷ xs) {x} m = elim (mem-kept y (filter p xs) m) [
    | inl (q, e) ↦ (Memᴰ.head q, rw q e)
    | inr k ↦ let (l, e) = filter-mem xs k in (Memᴰ.tail l, e)
  ]

  pub all-mem : (xs : List A) {x : A} → all p xs ≡ true → Memᴰ x xs → p x ≡ true
  all-mem [] h m = elim m [ ]
  all-mem (y ∷ xs) h (Memᴰ.head q) = rw q ((and_true (p y) (all p xs) h).0)
  all-mem (y ∷ xs) h (Memᴰ.tail m) = all-mem xs ((and_true (p y) (all p xs) h).1) m

  pub find-mem : (xs : List A) {x : A} → find p xs ≡ some x → Memᴰ x xs × (p x ≡ true)
  find-mem [] h = ground arith
  find-mem (y ∷ xs) {x} h = elim (Bool-cases (p y)) [
    | inl e ↦ let q : x ≡ y = ground arith in (Memᴰ.head q, rw q e)
    | inr e ↦ let (m, q) = find-mem xs (ground arith) in (Memᴰ.tail m, q)
  ]

-- `array.includes(text)`.
abbrev pub includes : List String → String → Bool
includes [] s = false
includes (x ∷ xs) s = x == s || includes xs s

module _ {ℓ} {A : Type ℓ} (p : A → Bool) where
  mem_of_kept :
      (y : A) (rest : List A) {x : A} → Memᴰ x rest → Memᴰ x (if p y then y ∷ rest else rest)
  mem_of_kept y rest m = elim (Bool-cases (p y)) [ inl e ↦ rw e (Memᴰ.tail m) | inr e ↦ rw e m ]

  pub mem-filter : (xs : List A) {x : A} → Memᴰ x xs → p x ≡ true → Memᴰ x (filter p xs)
  mem-filter [] m h = elim m [ ]
  mem-filter (y ∷ xs) {x} (Memᴰ.head e) h = let q : p y ≡ true = rw (← e) h in rw q (Memᴰ.head e)
  mem-filter (y ∷ xs) (Memᴰ.tail m) h = mem_of_kept y (filter p xs) (mem-filter xs m h)
