-- ===== src/Names.antt =====
-- `slices.Sort` and `slices.BinarySearch` on names, as the reconciler uses them. Texts are ordered
-- by their characters, which is the order of their UTF-8 bytes.
pub mod Laws
pub mod Order
use Prim.Native.Char.{code}
use workbench_operator.Base.{
  ℕ, zero, suc, ◌+◌, ◌/◌, String, Bool, true, false, List, [], ◌∷◌, ◌&&◌, ◌||◌, length, ltb, nat_eq,
  string_eq, ◌==◌, if◌then◌else◌,
}

-- `s < t`
unfoldable pub less : String → String → Bool
less String.[] String.[] = false
less String.[] (String.◌∷◌ _ _) = true
less (String.◌∷◌ _ _) String.[] = false
less (String.◌∷◌ c s) (String.◌∷◌ d t) = ltb (code c) (code d) || (code c == code d && less s t)

unfoldable pub insert_sorted : String → List String → List String
insert_sorted s [] = s ∷ []
insert_sorted s (t ∷ ts) = if less t s then t ∷ insert_sorted s ts else s ∷ t ∷ ts

-- The sorted list of the same names; there is only one.
unfoldable pub sort : List String → List String
unfolding insert_sorted
sort [] = []
sort (s ∷ ss) = insert_sorted s (sort ss)

-- `x[i]`; every index that the search reads is in range.
unfoldable pub get_elem : List String → ℕ → String
get_elem [] i = ""
get_elem (s ∷ ss) zero = s
get_elem (s ∷ ss) (suc i) = get_elem ss i

-- The loop `for i < j`, on fuel.
unfoldable pub search_loop : ℕ → List String → String → ℕ → ℕ → ℕ
search_loop zero xs target i j = i
search_loop (suc fuel) xs target i j =
    let h = (i + j) / 2 in
    let above = search_loop fuel xs target (h + 1) j in
    let below = search_loop fuel xs target i h in
    if ltb i j then (if less (get_elem xs h) target then above else below) else i

-- The second result of `slices.BinarySearch`. Each round shrinks the range, so a round for each
-- item is enough.
unfoldable pub binary_search : List String → String → Bool
unfolding search_loop get_elem
binary_search xs target =
    let i = search_loop (length xs) xs target 0 (length xs) in
    ltb i (length xs) && get_elem xs i == target
