-- ===== src/Kube/Mounts.antt =====
-- Volumes and the mounts that name them.
use workbench_operator.Base.{List, [], ◌∷◌, ◌++◌, ◌≡◌, All}
use mathlib.Core.List.{Memᴰ}
use workbench_operator.Kube.{Volume, VolumeMount}

-- The volume of a name is among the volumes.
abbrev pub Declared : List Volume → VolumeMount → Type 0
Declared volumes m = (v : Volume) × Memᴰ v volumes × (v.name ≡ m.name)

pub Declared-cons :
    (v : Volume) (vs : List Volume) (m : VolumeMount) → Declared vs m → Declared (v ∷ vs) m
Declared-cons v vs m (u, i, e) = (u, Memᴰ.tail i, e)

pub Declared-append :
    (us vs : List Volume) (m : VolumeMount) → Declared vs m → Declared (us ++ vs) m
Declared-append [] vs m d = d
Declared-append (u ∷ us) vs m d = Declared-cons u (us ++ vs) m (Declared-append us vs m d)

pub Declared-append_left :
    (us vs : List Volume) (m : VolumeMount) → Declared us m → Declared (us ++ vs) m
Declared-append_left [] vs m (w, i, e) = elim i [ ]
Declared-append_left (u ∷ us) vs m (w, Memᴰ.head p, e) = (w, Memᴰ.head p, e)
Declared-append_left (u ∷ us) vs m (w, Memᴰ.tail i, e) =
    Declared-cons u (us ++ vs) m (Declared-append_left us vs m (w, i, e))

pub All-map :
    {A : Type 0} {P Q : A → Type 0} (xs : List A) → ((x : A) → P x → Q x) → All P xs → All Q xs
All-map [] f h = tt
All-map (x ∷ xs) f (h, hs) = (f x h, All-map xs f hs)

pub All-append_intro :
    {A : Type 0} (P : A → Type 0) (xs ys : List A) → All P xs → All P ys → All P (xs ++ ys)
All-append_intro P [] ys h k = k
All-append_intro P (x ∷ xs) ys (h, hs) k = (h, All-append_intro P xs ys hs k)
