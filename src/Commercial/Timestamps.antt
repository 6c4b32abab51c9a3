-- ===== src/Commercial/Timestamps.antt =====
-- baobab/b2b/commercial-lifecycle.ts: `timestamp`. The host's `Date` is a parameter: the milliseconds
-- and the text of `toISOString` of a text that it reads, `none` for an invalid date.
use Prim.Native.String.{String}
use baobab_trade.Prelude.{
  ℕ, zero, suc, leb, eqb, Bool, true, false, ◌&&◌, Option, none, some, List, [], ◌∷◌, if◌then◌else◌,
  codes, is_digit, units,
}

-- A template: `d` is any digit, all else stands for itself.
abbrev pub fits : ℕ → ℕ → Bool
fits t c = if eqb t b'd' then is_digit c else eqb t c

abbrev pub after_template : List ℕ → List ℕ → Option (List ℕ)
after_template [] cs = some cs
after_template (t ∷ ts) [] = none
after_template (t ∷ ts) (c ∷ cs) =
    let rest = after_template ts cs in if fits t c then rest else none

abbrev is_zone : List ℕ → Bool
is_zone [] = false
is_zone (c ∷ []) = eqb c b'Z'
is_zone (c ∷ d ∷ cs) = false

-- Digits, at most so many, and then `Z`.
abbrev is_millis : ℕ → List ℕ → Bool
is_millis n [] = false
is_millis zero (c ∷ cs) = is_zone (c ∷ cs)
is_millis (suc n) (c ∷ cs) =
    let rest = is_millis n cs in if is_digit c then rest else is_zone (c ∷ cs)

abbrev is_end : List ℕ → Bool
is_end [] = false
is_end (c ∷ []) = eqb c b'Z'
is_end (c ∷ d ∷ cs) = eqb c b'.' && (is_digit d && is_millis 2 cs)

abbrev ends : Option (List ℕ) → Bool
ends none = false
ends (some cs) = is_end cs

unfoldable pub is_timestamp_text : String → Bool
is_timestamp_text s =
    leb (units (codes s)) 40 && ends (after_template (codes "dddd-dd-ddTdd:dd:dd") (codes s))

-- The first 19 characters are the same: the date was not carried over.
abbrev same_start : ℕ → List ℕ → List ℕ → Bool
same_start zero as_ bs = true
same_start (suc n) (a ∷ as_) (b ∷ bs) = eqb a b && same_start n as_ bs
same_start (suc n) [] [] = true
same_start (suc n) [] (b ∷ bs) = false
same_start (suc n) (a ∷ as_) [] = false

abbrev same_date : String → Option (ℕ × String) → Option ℕ
same_date s none = none
same_date s (some (ms, iso)) = if same_start 19 (codes iso) (codes s) then some ms else none

unfoldable pub timestamp : (String → Option (ℕ × String)) → String → Option ℕ
timestamp date s = let parsed = same_date s (date s) in if is_timestamp_text s then parsed else none
