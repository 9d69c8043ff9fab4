-- ===== src/Base/Text/Split.antt =====
-- Splitting a text that was put together from parts without the separator.
use Prim.Native.Nat.{ℕ, ◌<◌}
use Prim.Native.Char.{Char, code}
use Prim.Native.String.append
use Prim.Native.String.{String, ◌++◌ as ◌<>◌}
use mathlib.Core.Path.{◌≡◌, refl}
use mathlib.Core.Logic.{◌⊎◌}
use mathlib.Core.List.{[], ◌∷◌}
use native.Mathlib.Omega.{arith}
use workbench_operator.Base.Equality.{nat_eq}
use workbench_operator.Base.Number.Laws.{IsNumeral}
use workbench_operator.Base.Text.{split}
use workbench_operator.Base.Text.Laws.{Lacks}

pub append-Lacks : (sep : ℕ) (s t : String) → Lacks sep s → Lacks sep t → Lacks sep (s <> t)
append-Lacks sep String.[] t h k = rw append.nil k
append-Lacks sep (String.◌∷◌ c s) t (n, h) k = rw append.cons (n, append-Lacks sep s t h k)

-- A numeral holds no character but digits.
pub numeral-Lacks : (sep : ℕ) (s : String) → (sep < b'0') ⊎ (b'9' < sep) → IsNumeral s → Lacks sep s
numeral-Lacks sep String.[] o h = tt
numeral-Lacks sep (String.◌∷◌ c s) o (l, u, h) = ((λ e. omega arith), numeral-Lacks sep s o h)

-- A part without the separator, in front of it.
pub split-append :
    (sep : ℕ) (a : String) (c : Char) (b : String)
    → code c ≡ sep
    → Lacks sep a
    → split sep (a <> String.◌∷◌ c b) ≡ a ∷ split sep b
unfolding split
split-append sep String.[] c b e h = rw append.nil (ground arith)
split-append sep (String.◌∷◌ d a) c b e (n, h) =
    rw append.cons (let ih = split-append sep a c b e h in ground arith)

-- A text without the separator is one part.
split-whole : (sep : ℕ) (a : String) → Lacks sep a → split sep a ≡ a ∷ []
unfolding split
split-whole sep String.[] h = refl
split-whole sep (String.◌∷◌ d a) (n, h) = let ih = split-whole sep a h in ground arith
