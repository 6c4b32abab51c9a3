-- ===== src/Prelude/Text.antt =====
-- Texts as their code points, and the classes of characters that the source's patterns name.
use Prim.Native.Nat.{ℕ, ◌+◌}
use Prim.Native.Char.{code}
use Prim.Native.String.{String}
use mathlib.Core.Bool.{Bool, not, ◌&&◌, ◌||◌}
use mathlib.Core.List.{List, [], ◌∷◌}
use baobab_trade.Prelude.Tests.{leb, eqb, if◌then◌else◌}
use baobab_trade.Prelude.Lists.{all, any, length}

abbrev pub codes : String → List ℕ
codes String.[] = []
codes (String.◌∷◌ c s) = code c ∷ codes s

abbrev pub between : ℕ → ℕ → ℕ → Bool
between lo hi c = leb lo c && leb c hi

abbrev pub is_upper : ℕ → Bool
is_upper c = between b'A' b'Z' c

abbrev pub is_digit : ℕ → Bool
is_digit c = between b'0' b'9' c

abbrev pub is_alphanumeric : ℕ → Bool
is_alphanumeric c = is_upper c || (between b'a' b'z' c || is_digit c)

-- `[A-Za-z0-9._:-]`.
abbrev pub is_key_char : ℕ → Bool
is_key_char c = is_alphanumeric c || (eqb c b'.' || (eqb c b'_' || (eqb c b':' || eqb c b'-')))

-- What `trim` removes.
abbrev pub is_space : ℕ → Bool
is_space c =
    between 9 13 c
    || (eqb c 32
        || (eqb c 160
            || (eqb c 0x1680
                || (between 0x2000 0x200a c
                    || (between 0x2028 0x2029 c
                        || (eqb c 0x202f || (eqb c 0x205f || (eqb c 0x3000 || eqb c 0xfeff))))))))

-- `s.trim().length > 0`.
abbrev pub has_text : String → Bool
has_text s = any (λ c. not (is_space c)) (codes s)

-- `s.length`, in UTF-16 code units.
abbrev pub units : List ℕ → ℕ
units [] = 0
units (c ∷ cs) = (if leb 0x10000 c then 2 else 1) + units cs

-- All characters are of the class, and there are between `lo` and `hi` of them.
abbrev pub is_run : (ℕ → Bool) → ℕ → ℕ → String → Bool
is_run p lo hi s = all p (codes s) && between lo hi (length (codes s))
