-- ===== src/Base/Text/Laws.antt =====
-- Laws of the text functions.
use Prim.Native.Nat.{ℕ}
use Prim.Native.Char.{Char, code}
use Prim.Native.String.append
use text.Mathlib.TextLemmas.{append_assoc}
use Prim.Native.String.{String, ◌++◌ as ◌<>◌}
use mathlib.Core.Path.{◌≡◌, refl, sym, ap, ◌∙◌}
use mathlib.Core.Logic.{◌≢◌, ◌⊎◌, inl, inr}
use mathlib.Core.List.{List, [], ◌∷◌}
use native.Mathlib.Omega.{arith}
use text.Mathlib.TextEquality.{Char-path}
use workbench_operator.Base.Equality.{◌==◌, nat_eq, Bool-cases}
use workbench_operator.Base.Lists.{All}
use workbench_operator.Base.Text.{split, last_part, trim_right, onto_first}

-- No character of the text has this code.
abbrev pub Lacks : ℕ → String → Type 0
Lacks sep String.[] = Unit
Lacks sep (String.◌∷◌ c s) = (code c ≢ sep) × Lacks sep s

onto_first-Lacks :
    (sep : ℕ) (c : Char) (ps : List String)
    → code c ≢ sep
    → All (Lacks sep) ps
    → All (Lacks sep) (onto_first (String.◌∷◌ c "") ps)
onto_first-Lacks sep c [] n h = ((n, tt), tt)
onto_first-Lacks sep c (p ∷ ps) n (h, hs) = ((n, h), hs)

pub split-Lacks : (sep : ℕ) (s : String) → All (Lacks sep) (split sep s)
unfolding split
split-Lacks sep String.[] = (tt, tt)
split-Lacks sep (String.◌∷◌ c s) =
    ground (arith, split-Lacks sep s, onto_first-Lacks sep c (split sep s))

pub last_part-Lacks : (sep : ℕ) (ps : List String) → All (Lacks sep) ps → Lacks sep (last_part ps)
unfolding last_part
last_part-Lacks sep [] h = tt
last_part-Lacks sep (p ∷ []) h = h.0
last_part-Lacks sep (p ∷ q ∷ ps) h = last_part-Lacks sep (q ∷ ps) h.1

-- `strings.Join(parts, "/")`
pub join : List String → String
join [] = ""
join (p ∷ []) = p
join (p ∷ q ∷ ps) = p <> "/" <> join (q ∷ ps)

join-onto_first :
    (c : Char) (ps : List String) → join (onto_first (String.◌∷◌ c "") ps) ≡ String.◌∷◌ c (join ps)
unfolding join
join-onto_first c [] = refl
join-onto_first c (p ∷ []) = refl
join-onto_first c (p ∷ q ∷ ps) = append.cons c p _

slash : (c : Char) (s : String) → code c ≡ b'/' → String.◌∷◌ c s ≡ "/" <> s
slash c s e =
    ap (λ d. String.◌∷◌ d s) (Char-path c "/" e)
    ∙ sym (append.cons "/" "" s ∙ ap (String.◌∷◌ "/") (append.nil s))

split-cons : (sep : ℕ) (s : String) → split sep s ≢ []
unfolding split
split-cons sep String.[] e = cc
split-cons sep (String.◌∷◌ c s) e = ground (arith, split-cons sep s)

join-cons_empty : (ps : List String) → ps ≢ [] → join ("" ∷ ps) ≡ "/" <> join ps
unfolding join
join-cons_empty [] n = absurd (n refl)
join-cons_empty (p ∷ ps) n = append.nil _

join-split : (s : String) → join (split b'/' s) ≡ s
unfolding split join
join-split String.[] = refl
join-split (String.◌∷◌ c s) = elim (Bool-cases (code c == b'/')) [
  | inl e ↦ rw e (
      rw (join-cons_empty (split b'/' s) (split-cons b'/' s), join-split s)
        (sym (slash c s (ground arith))))
  | inr n ↦ rw n (rw (join-onto_first c (split b'/' s), join-split s))
]

-- `t` is the text, or what stands behind a slash in it.
abbrev pub IsLastPart : String → String → Type 0
IsLastPart t s = (s ≡ t) ⊎ ((dir : String) × (s ≡ dir <> "/" <> t))

join-last_part : (p : String) (ps : List String) → IsLastPart (last_part (p ∷ ps)) (join (p ∷ ps))
unfolding last_part join
join-last_part p [] = inl refl
join-last_part p (q ∷ ps) = elim (join-last_part q ps) [
  | inl e ↦ inr (p, ap (λ t. p <> "/" <> t) e)
  | inr (dir, e) ↦ inr (p <> "/" <> dir, rw e (simp append_assoc))
]

cons-shape : (ps : List String) → ps ≢ [] → IsLastPart (last_part ps) (join ps)
cons-shape [] n = absurd (n refl)
cons-shape (p ∷ ps) n = join-last_part p ps

pub split-IsLastPart : (s : String) → IsLastPart (last_part (split b'/' s)) s
split-IsLastPart s = rw join-split at (cons-shape (split b'/' s) (split-cons b'/' s))

trim_right_idem : (sep : ℕ) (s : String) → trim_right sep (trim_right sep s) ≡ trim_right sep s
unfolding trim_right
trim_right_idem sep String.[] = refl
trim_right_idem sep (String.◌∷◌ c s) = ground (arith, trim_right_idem sep s)

-- One more slash at the end is trimmed away too.
pub trim_right-slash : (s : String) → trim_right b'/' (s <> "/") ≡ trim_right b'/' s
unfolding trim_right nat_eq
trim_right-slash String.[] = refl
trim_right-slash (String.◌∷◌ c s) = rw (append.cons, trim_right-slash s)
