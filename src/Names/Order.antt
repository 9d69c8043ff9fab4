-- ===== src/Names/Order.antt =====
-- The sort of names and the order in which they come.
use mathlib.Core.List.{Permᴰ}
use workbench_operator.Base.{
  String, List, [], ◌∷◌, ◌≡◌, refl, sym, ap, ◌∙◌, inl, inr, Bool-cases, string_eq, if◌then◌else◌,
}
use workbench_operator.Names.{less, insert_sorted, sort}
use workbench_operator.Names.Laws.{less_asym, less_total, less_of_not_less}

-- The smaller of two names comes first, whichever is looked at.
smaller_first :
    (s t : String) (xs : List String)
    → (if less t s then t ∷ s ∷ xs else s ∷ t ∷ xs) ≡ (if less s t then s ∷ t ∷ xs else t ∷ s ∷ xs)
smaller_first s t xs = elim (Bool-cases (less t s)) [
  | inl below ↦ rw (below, less_asym t s below) refl
  | inr not_below ↦ elim (Bool-cases (less s t)) [
    | inl above ↦ rw (not_below, above) refl
    | inr not_above ↦
        rw (not_below, not_above)
          (ap (λ z. z ∷ t ∷ xs) (less_total s t not_above not_below)
            ∙ ap (λ z. t ∷ z ∷ xs) (sym (less_total s t not_above not_below)))
  ]
]

-- Two names can be inserted in either order.
insert_sorted_comm :
    (s t : String) (xs : List String)
    → insert_sorted s (insert_sorted t xs) ≡ insert_sorted t (insert_sorted s xs)
unfolding insert_sorted
insert_sorted_comm s t [] = smaller_first s t []
insert_sorted_comm s t (x ∷ xs) = elim (Bool-cases (less x t)) [
  | inl x_t ↦ elim (Bool-cases (less x s)) [
    | inl x_s ↦ rw (x_t, x_s, x_t) (ap (λ ys. x ∷ ys) (insert_sorted_comm s t xs))
    | inr s_x ↦ rw (x_t, s_x, less_of_not_less s x t s_x x_t, x_t) refl
  ]
  | inr t_x ↦ elim (Bool-cases (less x s)) [
    | inl x_s ↦ rw (t_x, x_s, less_of_not_less t x s t_x x_s, t_x) refl
    | inr s_x ↦ rw (t_x, s_x, t_x) (smaller_first s t (x ∷ xs))
  ]
]

pub sort_any_order : (xs ys : List String) → Permᴰ xs ys → sort xs ≡ sort ys
unfolding sort
sort_any_order _ _ Permᴰ.nil = refl
sort_any_order _ _ (Permᴰ.cons {b = b} {l₁ = xs} e p) =
    ap (λ z. insert_sorted z (sort xs)) e ∙ ap (insert_sorted b) (sort_any_order _ _ p)
sort_any_order _ _ (Permᴰ.swap {a = a} {b = b} {a' = a'} {l = xs} e f) =
    insert_sorted_comm a b (sort xs)
    ∙ ap (λ z. insert_sorted z (insert_sorted a (sort xs))) f
    ∙ ap (λ z. insert_sorted a' (insert_sorted z (sort xs))) e
sort_any_order _ _ (Permᴰ.trans p q) = sort_any_order _ _ p ∙ sort_any_order _ _ q
