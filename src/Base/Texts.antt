-- ===== src/Base/Texts.antt =====
-- Go's `string` where the code walks it: a list of runes.
use Prim.Native.Nat.{ℕ}
use Prim.Native.Char.{code}
use Prim.Native.String.{String}
use mathlib.Core.Bool.{Bool, ◌||◌, ◌&&◌}
use mathlib.Core.List.{List, [], ◌∷◌, reverse}
use mwanachama_backend_comm.Base.Tests.{leb, eqb, if◌then◌else◌}
use mwanachama_backend_comm.Base.Lists.{all}

abbrev pub Text : Type 0
Text = List ℕ

abbrev pub codes : String → Text
codes String.[] = []
codes (String.◌∷◌ c s) = code c ∷ codes s

-- `unicode.IsSpace`.
abbrev pub is_space : ℕ → Bool
is_space r =
    (leb 9 r && leb r 13)
    || eqb r 32
    || eqb r 0x85
    || eqb r 0xa0
    || eqb r 0x1680
    || (leb 0x2000 r && leb r 0x200a)
    || eqb r 0x2028
    || eqb r 0x2029
    || eqb r 0x202f
    || eqb r 0x205f
    || eqb r 0x3000

-- `strings.TrimLeft(s, space)`, then the same from the right.
abbrev pub trim_left : Text → Text
trim_left [] = []
trim_left (r ∷ rs) = let rest = trim_left rs in if is_space r then rest else r ∷ rs

abbrev pub trim_space : Text → Text
trim_space s = reverse (trim_left (reverse (trim_left s)))

-- `strings.TrimSpace(s) == ""`.
abbrev pub is_blank : String → Bool
is_blank s = all is_space (codes s)

-- `strings.TrimSpace` of a string that is kept as one.
abbrev trim_head : String → String
trim_head String.[] = String.[]
trim_head (String.◌∷◌ c s) =
    let rest = trim_head s in if is_space (code c) then rest else String.◌∷◌ c s

abbrev trim_tail : String → String
trim_tail String.[] = String.[]
trim_tail (String.◌∷◌ c s) = elim (trim_tail s) [
  | String.[] ↦ if is_space (code c) then String.[] else String.◌∷◌ c String.[]
  | String.◌∷◌ d rest ↦ String.◌∷◌ c (String.◌∷◌ d rest)
]

abbrev pub trimmed : String → String
trimmed s = trim_tail (trim_head s)
