-- ===== src/Kube/Distinct.antt =====
-- Lists of texts without a repetition, as the names of the volumes of a pod and the mount paths of a
-- container have to be.
use workbench_operator.Base.{
  String, Bool, true, false, List, [], ◌∷◌, ◌++◌, map, ◌≡◌, refl, ◌≢◌, ap, All, if◌then◌else◌, not,
  ◌&&◌, ◌==◌, string_eq, arith,
}
use mathlib.Core.Path.{subst, sym}
use mathlib.Core.List.{Sublistᴰ}
use mathlib.Core.List.Sublistᴰ
use workbench_operator.Kube.{Volume, VolumeMount}

abbrev pub Distinct : List String → Type 0
Distinct [] = Unit
Distinct (x ∷ xs) = All (λ y. x ≢ y) xs × Distinct xs

-- The test of it.
abbrev is_new : String → List String → Bool
is_new x [] = true
is_new x (y ∷ ys) = not (x == y) && is_new x ys

abbrev pub are_distinct : List String → Bool
are_distinct [] = true
are_distinct (x ∷ xs) = is_new x xs && are_distinct xs

is_new_lem : (x : String) (ys : List String) → is_new x ys ≡ true → All (λ y. x ≢ y) ys
is_new_lem x [] e = tt
is_new_lem x (y ∷ ys) e = ground (arith, is_new_lem x ys)

pub are_distinct_lem : (xs : List String) → are_distinct xs ≡ true → Distinct xs
are_distinct_lem [] e = tt
are_distinct_lem (x ∷ xs) e = ground (arith, is_new_lem x xs, are_distinct_lem xs)

abbrev pub volume_names : List Volume → List String
volume_names vs = map (λ v. v.name) vs

abbrev pub mount_paths : List VolumeMount → List String
mount_paths ms = map (λ m. m.mount_path) ms

All-Sublist : {A : Type 0} (Q : A → Type 0) {xs ys : List A} → Sublistᴰ xs ys → All Q ys → All Q xs
All-Sublist Q Sublistᴰ.slnil h = tt
All-Sublist Q (Sublistᴰ.cons s) (h, hs) = All-Sublist Q s hs
All-Sublist Q (Sublistᴰ.cons-cons e s) (h, hs) = (subst Q (sym e) h, All-Sublist Q s hs)

pub Distinct-Sublist : {xs ys : List String} → Sublistᴰ xs ys → Distinct ys → Distinct xs
Distinct-Sublist Sublistᴰ.slnil h = tt
Distinct-Sublist (Sublistᴰ.cons s) (h, hs) = Distinct-Sublist s hs
Distinct-Sublist (Sublistᴰ.cons-cons {l₁} e s) (h, hs) =
    (subst (λ x. All (λ y. x ≢ y) l₁) (sym e) (All-Sublist _ s h), Distinct-Sublist s hs)

pub map-Sublist :
    {A B : Type 0} (f : A → B) {xs ys : List A} → Sublistᴰ xs ys → Sublistᴰ (map f xs) (map f ys)
map-Sublist f Sublistᴰ.slnil = Sublistᴰ.slnil
map-Sublist f (Sublistᴰ.cons s) = Sublistᴰ.cons (map-Sublist f s)
map-Sublist f (Sublistᴰ.cons-cons e s) = Sublistᴰ.cons-cons (ap f e) (map-Sublist f s)

-- A part that is there or not, between two others.
pub if-Sublist :
    {A : Type 0} (b : Bool) (xs ys zs : List A)
    → Sublistᴰ ((xs ++ (if b then ys else [])) ++ zs) (xs ++ (ys ++ zs))
if-Sublist true [] ys zs = Sublistᴰ.refl _
if-Sublist false [] ys zs = Sublistᴰ.append (Sublistᴰ.nil-sublist ys) (Sublistᴰ.refl zs)
if-Sublist b (x ∷ xs) ys zs = Sublistᴰ.cons-cons refl (if-Sublist b xs ys zs)
