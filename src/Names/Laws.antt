-- ===== src/Names/Laws.antt =====
-- The sort and the binary search of names, as the clean-up uses them together.
use text.Mathlib.TextEquality.{Char-path}
use workbench_operator.Base.{
  ℕ, zero, suc, ◌+◌, ◌/◌, ◌≤◌, ◌<◌, String, true, false, List, [], ◌∷◌, ◌≡◌, refl, ◌↔◌, inl, inr,
  arith, length, ltb, All, Any, Bool-cases, ◌==◌, ◌&&◌, string_eq, nat_eq,
}
use workbench_operator.Names.{less, insert_sorted, sort, get_elem, search_loop, binary_search}

pub less_trans : (s t u : String) → less s t ≡ true → less t u ≡ true → less s u ≡ true
unfolding less
less_trans String.[] String.[] u h k = cc
less_trans String.[] (String.◌∷◌ d t) String.[] h k = cc
less_trans String.[] (String.◌∷◌ d t) (String.◌∷◌ e u) h k = refl
less_trans (String.◌∷◌ c s) String.[] u h k = cc
less_trans (String.◌∷◌ c s) (String.◌∷◌ d t) String.[] h k = cc
less_trans (String.◌∷◌ c s) (String.◌∷◌ d t) (String.◌∷◌ e u) h k = ground (arith, less_trans s t u)

less_irrefl : (s : String) → less s s ≡ false
unfolding less
less_irrefl String.[] = refl
less_irrefl (String.◌∷◌ c s) = ground (arith, less_irrefl s)

pub less_total : (s t : String) → less s t ≡ false → less t s ≡ false → s ≡ t
unfolding less
less_total String.[] String.[] h k = refl
less_total String.[] (String.◌∷◌ d t) h k = cc
less_total (String.◌∷◌ c s) String.[] h k = cc
less_total (String.◌∷◌ c s) (String.◌∷◌ d t) h k = ground (arith, Char-path c d, less_total s t)

-- If `b` is not below `a` and `b` is below `t`, then `a` is below `t`.
pub less_of_not_less : (a b t : String) → less b a ≡ false → less b t ≡ true → less a t ≡ true
less_of_not_less a b t h k = ground (arith, less_total a b, less_trans a b t)

-- No item is below one that stands before it.
IsSorted : List String → Type 0
IsSorted [] = Unit
IsSorted (x ∷ xs) = All (λ y. less y x ≡ false) xs × IsSorted xs

All-insert_sorted :
    (P : String → Type 0) (s : String) (xs : List String)
    → P s
    → All P xs
    → All P (insert_sorted s xs)
unfolding insert_sorted
All-insert_sorted P s [] h k = (h, tt)
All-insert_sorted P s (x ∷ xs) h (k, ks) = ground (arith, All-insert_sorted P s xs h ks)

All-below :
    (s x : String) (xs : List String)
    → less x s ≡ false
    → All (λ y. less y x ≡ false) xs
    → All (λ y. less y s ≡ false) xs
All-below s x [] h k = tt
All-below s x (y ∷ xs) h (k, ks) = (ground (arith, less_of_not_less x y s), All-below s x xs h ks)

pub less_asym : (s t : String) → less s t ≡ true → less t s ≡ false
less_asym s t h = ground (arith, less_trans s t s, less_irrefl s)

insert_sorted-IsSorted :
    (s : String) (xs : List String) → IsSorted xs → IsSorted (insert_sorted s xs)
unfolding insert_sorted IsSorted
insert_sorted-IsSorted s [] k = (tt, tt)
insert_sorted-IsSorted s (x ∷ xs) (k, ks) = elim (Bool-cases (less x s)) [
  | inl e ↦ rw e (
    All-insert_sorted (λ y. less y x ≡ false) s xs (less_asym x s e) k,
    insert_sorted-IsSorted s xs ks,
  )
  | inr e ↦ rw e ((e, All-below s x xs e k), (k, ks))
]

sort-IsSorted : (xs : List String) → IsSorted (sort xs)
unfolding sort IsSorted
sort-IsSorted [] = tt
sort-IsSorted (x ∷ xs) = insert_sorted-IsSorted x (sort xs) (sort-IsSorted xs)

-- The name is one of the list.
abbrev pub Listed : String → List String → Type 0
Listed t = Any (λ x. x ≡ t)

Listed-insert_sorted :
    (t s : String) (xs : List String) → Listed t (insert_sorted s xs) ↔ Listed t (s ∷ xs)
unfolding insert_sorted
Listed-insert_sorted t s [] = (λ m. m, λ m. m)
Listed-insert_sorted t s (x ∷ xs) =
    let ih = Listed-insert_sorted t s xs in (λ m. ground arith, λ m. ground arith)

Listed-sort : (t : String) (xs : List String) → Listed t (sort xs) ↔ Listed t xs
unfolding sort
Listed-sort t [] = (λ m. m, λ m. m)
Listed-sort t (x ∷ xs) =
    let ih = Listed-sort t xs in
    let here = Listed-insert_sorted t x (sort xs) in (λ m. ground arith, λ m. ground arith)

All-get_elem :
    (P : String → Type 0) (xs : List String) (k : ℕ) → All P xs → k < length xs → P (get_elem xs k)
unfolding get_elem
All-get_elem P [] k h l = absurd (omega arith)
All-get_elem P (x ∷ xs) zero h l = h.0
All-get_elem P (x ∷ xs) (suc k) h l = All-get_elem P xs k h.1 (omega arith)

-- In a sorted list no item is below one at a lower index.
IsSorted-get_elem :
    (xs : List String) (i j : ℕ)
    → IsSorted xs
    → i ≤ j
    → j < length xs
    → less (get_elem xs j) (get_elem xs i) ≡ false
unfolding IsSorted get_elem
IsSorted-get_elem [] i j s l m = absurd (omega arith)
IsSorted-get_elem (x ∷ xs) zero zero s l m = less_irrefl x
IsSorted-get_elem (x ∷ xs) zero (suc j) s l m =
    All-get_elem (λ y. less y x ≡ false) xs j s.0 (omega arith)
IsSorted-get_elem (x ∷ xs) (suc i) zero s l m = absurd (omega arith)
IsSorted-get_elem (x ∷ xs) (suc i) (suc j) s l m =
    IsSorted-get_elem xs i j s.1 (omega arith) (omega arith)

-- `i` is where the items below the target end.
record Splits (xs : List String) (target : String) (i : ℕ) : Type 0 where
  bounded : i ≤ length xs
  below : (k : ℕ) → k < i → less (get_elem xs k) target ≡ true
  above : (k : ℕ) → i ≤ k → k < length xs → less (get_elem xs k) target ≡ false

module _ (xs : List String) (target : String) (sorted : IsSorted xs) where
  below_middle :
      (h : ℕ)
      → h < length xs
      → less (get_elem xs h) target ≡ true
      → (k : ℕ) → k < suc h
      → less (get_elem xs k) target ≡ true
  below_middle h l e k m =
      less_of_not_less (get_elem xs k) (get_elem xs h) target
        (IsSorted-get_elem xs k h sorted (omega arith) l) e

  above_middle :
      (h : ℕ)
      → less (get_elem xs h) target ≡ false
      → (k : ℕ) → h ≤ k
      → k < length xs
      → less (get_elem xs k) target ≡ false
  above_middle h e k m l = ground (
    arith,
    IsSorted-get_elem xs h k sorted m l,
    less_of_not_less (get_elem xs h) (get_elem xs k) target,
  )

  search_loop-Splits :
      (fuel i j : ℕ)
      → i ≤ j
      → j ≤ length xs
      → j ≤ i + fuel
      → ((k : ℕ) → k < i → less (get_elem xs k) target ≡ true)
      → ((k : ℕ) → j ≤ k → k < length xs → less (get_elem xs k) target ≡ false)
      → Splits xs target (search_loop fuel xs target i j)
  unfolding search_loop
  search_loop-Splits zero i j a b c d e = record {
    bounded = omega arith;
    below = d;
    above = λ k m l. e k (omega arith) l;
  }
  search_loop-Splits (suc fuel) i j a b c d e = elim (Bool-cases (ltb i j)) [
    | inr stop ↦
        rw stop (record { bounded = omega arith; below = d; above = λ k m l. e k (ground arith) l })
    | inl more ↦ elim (Bool-cases (less (get_elem xs ((i + j) / 2)) target)) [
      | inl lower ↦
          rw (more, lower)
            (search_loop-Splits fuel ((i + j) / 2 + 1) j (ground arith) b (ground arith)
              (λ k m. below_middle ((i + j) / 2) (ground arith) lower k (omega arith)) e)
      | inr upper ↦
          rw (more, upper)
            (search_loop-Splits fuel i ((i + j) / 2) (ground arith) (ground arith) (ground arith) d
              (above_middle ((i + j) / 2) upper))
    ]
  ]

Listed-get_elem : (xs : List String) (k : ℕ) → k < length xs → Listed (get_elem xs k) xs
unfolding get_elem
Listed-get_elem [] k l = absurd (omega arith)
Listed-get_elem (x ∷ xs) zero l = inl refl
Listed-get_elem (x ∷ xs) (suc k) l = inr (Listed-get_elem xs k (omega arith))

index_of :
    (t : String) (xs : List String) → Listed t xs → (k : ℕ) × (k < length xs) × (get_elem xs k ≡ t)
unfolding get_elem
index_of t [] m = absurd m
index_of t (x ∷ xs) (inl e) = (0, omega arith, e)
index_of t (x ∷ xs) (inr m) = let (k, l, e) = index_of t xs m in (suc k, omega arith, e)

Splits-found :
    (xs : List String) (target : String) (i : ℕ)
    → IsSorted xs
    → Splits xs target i
    → Listed target xs
    → (i < length xs) × (get_elem xs i ≡ target)
Splits-found xs target i sorted s m =
    let (k, l, e) = index_of target xs m in
    elim (Bool-cases (ltb k i)) [
      | inl lower ↦ ground (arith, s.below k (ground arith), less_irrefl target)
      | inr upper ↦
          let le : i ≤ k = ground arith in
          (
            omega arith,
            less_total (get_elem xs i) target (s.above i (omega arith) (omega arith))
                (rw e at (IsSorted-get_elem xs i k sorted le l)),
          )
    ]

binary_search-Listed :
    (xs : List String) (target : String)
    → IsSorted xs
    → (binary_search xs target ≡ true) ↔ Listed target xs
unfolding binary_search
binary_search-Listed xs target sorted =
    let s =
      search_loop-Splits xs target sorted (length xs) 0 (length xs) (omega arith) (omega arith)
        (omega arith) (λ k l. absurd (omega arith)) (λ k m l. absurd (omega arith)) in
    let i = search_loop (length xs) xs target 0 (length xs) in
    (
      λ e. hit i e (Listed-get_elem xs i (ground arith)),
      λ m. ground (arith, Splits-found xs target i sorted s m),
    )
  where
    hit :
        (i : ℕ)
        → (ltb i (length xs) && (get_elem xs i == target)) ≡ true
        → Listed (get_elem xs i) xs
        → Listed target xs
    hit i e m = ground arith

-- A name is found in the sorted list exactly if it is in the list.
pub binary_search-sort :
    (names : List String) (name : String)
    → (binary_search (sort names) name ≡ true) ↔ Listed name names
binary_search-sort names name =
    let found = binary_search-Listed (sort names) name (sort-IsSorted names) in
    let same = Listed-sort name names in (λ e. same.0 (found.0 e), λ m. found.1 (same.1 m))
