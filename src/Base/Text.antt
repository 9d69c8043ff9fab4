-- ===== src/Base/Text.antt =====
-- What the program uses of the package `strings`, on the characters of a text. A separator is given
-- by its code, since the program only ever splits and trims at one character.
pub mod Laws
pub mod Split
use Prim.Native.Nat.{ℕ}
use Prim.Native.Char.{code}
use Prim.Native.String.{String}
use mathlib.Core.Bool.{Bool, true, false, ◌&&◌, ◌||◌}
use mathlib.Core.List.{List, [], ◌∷◌}
use workbench_operator.Base.Equality.{◌==◌, nat_eq, if◌then◌else◌}

abbrev pub is_empty : String → Bool
is_empty String.[] = true
is_empty (String.◌∷◌ _ _) = false

-- One more character in front of the first part.
abbrev onto_first : String → List String → List String
onto_first t [] = t ∷ []
onto_first String.[] (p ∷ ps) = p ∷ ps
onto_first (String.◌∷◌ c _) (p ∷ ps) = String.◌∷◌ c p ∷ ps

-- `strings.Split(s, sep)`
unfoldable pub split : ℕ → String → List String
split sep String.[] = "" ∷ []
split sep (String.◌∷◌ c s) =
    let rest = split sep s in if code c == sep then "" ∷ rest else onto_first (String.◌∷◌ c "") rest

-- `parts[len(parts)-1]`; a split has at least one part.
unfoldable pub last_part : List String → String
last_part [] = ""
last_part (p ∷ []) = p
last_part (p ∷ q ∷ ps) = last_part (q ∷ ps)

-- `strings.TrimRight(s, sep)`
unfoldable pub trim_right : ℕ → String → String
trim_right sep String.[] = ""
trim_right sep (String.◌∷◌ c s) =
    let rest = trim_right sep s in if code c == sep && is_empty rest then "" else String.◌∷◌ c rest

unfoldable pub trim_left : ℕ → String → String
trim_left sep String.[] = ""
trim_left sep (String.◌∷◌ c s) = if code c == sep then trim_left sep s else String.◌∷◌ c s

-- `strings.Trim(s, sep)`
unfoldable pub trim : ℕ → String → String
unfolding trim_left trim_right
trim sep s = trim_right sep (trim_left sep s)

unfoldable pub has_prefix : String → String → Bool
has_prefix s String.[] = true
has_prefix String.[] (String.◌∷◌ d t) = false
has_prefix (String.◌∷◌ c s) (String.◌∷◌ d t) = code c == code d && has_prefix s t

-- `strings.Contains(s, t)`
unfoldable pub contains : String → String → Bool
unfolding has_prefix
contains String.[] t = has_prefix "" t
contains (String.◌∷◌ c s) t = has_prefix (String.◌∷◌ c s) t || contains s t

-- `strings.HasSuffix(s, t)`
unfoldable pub has_suffix : String → String → Bool
unfolding has_prefix
has_suffix String.[] t = is_empty t
has_suffix (String.◌∷◌ c s) t =
    (has_prefix (String.◌∷◌ c s) t && has_prefix t (String.◌∷◌ c s)) || has_suffix s t
