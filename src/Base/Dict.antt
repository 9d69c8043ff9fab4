-- ===== src/Base/Dict.antt =====
-- Go's maps as association lists. A lookup takes the first entry of its key.
use mathlib.Core.Path.{◌≡◌, refl}
use mathlib.Core.Option.{Option, none, some}
use mathlib.Core.List.{List, [], ◌∷◌}
use native.Mathlib.Omega.{arith}
use Prim.Native.String.{String}
use mathlib.Core.Logic.{inl, inr}
use workbench_operator.Base.Equality.{◌==◌, string_eq, if◌then◌else◌, Bool-cases}

abbrev pub Dict {ℓ} : Type ℓ → Type ℓ
Dict V = List (String × V)

module _ {ℓ} {V : Type ℓ} where
  unfoldable pub lookup : String → Dict V → Option V
  lookup k [] = none
  lookup k ((j, v) ∷ d) = if k == j then some v else lookup k d

  -- `d[k] = v`
  unfoldable pub insert : String → V → Dict V → Dict V
  insert k v [] = (k, v) ∷ []
  insert k v ((j, w) ∷ d) = if k == j then (k, v) ∷ d else (j, w) ∷ insert k v d

  lookup-insert :
      (j k : String) (v : V) (d : Dict V)
      → lookup j (insert k v d) ≡ (if j == k then some v else lookup j d)
  unfolding lookup insert
  lookup-insert j k v [] = refl
  lookup-insert j k v (_ ∷ d) = ground (arith, lookup-insert j k v d)

  pub lookup-insert_self : (k : String) (v : V) (d : Dict V) → lookup k (insert k v d) ≡ some v
  lookup-insert_self k v d = ground (arith, lookup-insert k k v d)

  pub lookup-insert_other :
      (j k : String) (v : V) (d : Dict V) → ¬ (j ≡ k) → lookup j (insert k v d) ≡ lookup j d
  lookup-insert_other j k v d n = ground (arith, lookup-insert j k v d)

module _ {V : Type 0} where
  -- Every key stands once.
  abbrev pub HasUniqueKeys : Dict V → Type 0
  HasUniqueKeys [] = Unit
  HasUniqueKeys ((k, _) ∷ d) = (lookup k d ≡ none) × HasUniqueKeys d

  pub insert-HasUniqueKeys :
      (k : String) (v : V) (d : Dict V) → HasUniqueKeys d → HasUniqueKeys (insert k v d)
  unfolding insert lookup
  insert-HasUniqueKeys k v [] u = (refl, tt)
  insert-HasUniqueKeys k v ((j, w) ∷ d) (f, u) =
      ground (arith, insert-HasUniqueKeys k v d u, lookup-insert j k v d)

  -- A predicate of the values.
  abbrev pub AllValues : (V → Type 0) → Dict V → Type 0
  AllValues Q [] = Unit
  AllValues Q ((_, v) ∷ d) = Q v × AllValues Q d

  pub insert-AllValues :
      (Q : V → Type 0) (k : String) (v : V) (d : Dict V)
      → Q v
      → AllValues Q d
      → AllValues Q (insert k v d)
  unfolding insert
  insert-AllValues Q k v [] q a = (q, tt)
  insert-AllValues Q k v ((j, w) ∷ d) q (p, a) = elim (Bool-cases (k == j)) [
    | inl same ↦ rw same (q, a)
    | inr other ↦ rw other (p, insert-AllValues Q k v d q a)
  ]
