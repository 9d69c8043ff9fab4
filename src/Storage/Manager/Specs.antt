-- ===== src/Storage/Manager/Specs.antt =====
-- The volumes and the mounts that GetVolumeAndMountSpecs gives (storage.go).
use workbench_operator.Base.{
  String, Bool, true, false, List, [], ◌∷◌, ◌++◌, refl, All, if◌then◌else◌, Bool-cases, inl, inr,
}
use mathlib.Core.List.{Memᴰ}
use workbench_operator.Config.{Config}
use workbench_operator.Kube.{Volume, VolumeMount}
use workbench_operator.Workbench.{Workbench}
use workbench_operator.Storage.{BaseProvider, get_volume_spec, get_pvc_name, get_volume_mount_specs}
use workbench_operator.Platform.{Platform}
use workbench_operator.Platform.Monad.{Result, returned, error}
use workbench_operator.Platform.Contract.{Contract, Contract-pure, Contract-bind, Contract-Total}
use workbench_operator.Kube.Mounts.{
  Declared, All-map, All-append_intro, Declared-append, Declared-append_left,
}
use workbench_operator.Storage.Manager.{collect_specs, get_volume_and_mount_specs}
use workbench_operator.Storage.Manager.Total.{has_secret-Total}

get_volume_mount_specs-Declared :
    (b : BaseProvider) (claim user namespace : String)
    → All (Declared (get_volume_spec b claim ∷ [])) (get_volume_mount_specs b user namespace)
unfolding get_volume_spec get_volume_mount_specs
get_volume_mount_specs-Declared b claim user namespace = elim (Bool-cases b.mount_app_data) [
  | inl e ↦ rw e ((_, Memᴰ.head refl, refl), ((_, Memᴰ.head refl, refl), tt))
  | inr e ↦ rw e ((_, Memᴰ.head refl, refl), tt)
]

one_more :
    (b : BaseProvider) (claim user namespace : String) (secret : Bool) (vs : List Volume)
    (ms : List VolumeMount)
    → All (Declared vs) ms
    → All
        (Declared (vs ++ (if secret then get_volume_spec b claim ∷ [] else [])))
        (ms ++ (if secret then get_volume_mount_specs b user namespace else []))
one_more b claim user namespace true vs ms h =
    All-append_intro _ ms (get_volume_mount_specs b user namespace)
      (All-map ms (λ m d. Declared-append_left vs (get_volume_spec b claim ∷ []) m d) h)
      (All-map (get_volume_mount_specs b user namespace)
        (λ m d. Declared-append vs (get_volume_spec b claim ∷ []) m d)
        (get_volume_mount_specs-Declared b claim user namespace))
one_more b claim user namespace false vs ms h =
    All-append_intro _ ms [] (All-map ms (λ m d. Declared-append_left vs [] m d) h) tt

abbrev pub GivesDeclared : Result (List Volume × List VolumeMount) → Type 0
GivesDeclared (returned (vs, ms)) = All (Declared vs) ms
GivesDeclared (error _) = ⊥

module _ (P : Platform) (config : Config) where
  collect_specs-Declared :
      (wb : Workbench) (user namespace : String) (bs : List BaseProvider) (vs : List Volume)
      (ms : List VolumeMount)
      → All (Declared vs) ms
      → Contract
          (λ _. Unit {0})
          (collect_specs P config wb user namespace bs vs ms)
          (λ (us, ns) _. All (Declared us) ns)
          (λ _ _. ⊥)
  unfolding collect_specs
  collect_specs-Declared wb user namespace [] vs ms h = Contract-pure _ (λ _ _. h)
  collect_specs-Declared wb user namespace (b ∷ bs) vs ms h =
      Contract-bind (λ _ _. Unit {0}) _ _ (Contract-Total (has_secret-Total P config b))
        (λ secret.
          collect_specs-Declared wb user namespace bs _ _
            (one_more b (get_pvc_name b wb.metadata.namespace) user namespace secret vs ms h))

  -- Whatever the platform answers, the manager gives specs, and each of their mounts names one of
  -- their volumes.
  pub get_volume_and_mount_specs-Declared :
      (wb : Workbench) (user namespace : String)
      → Contract
          (λ _. Unit {0})
          (get_volume_and_mount_specs P config wb user namespace)
          (λ r _. GivesDeclared r)
          (λ _ _. ⊥)
  unfolding get_volume_and_mount_specs
  get_volume_and_mount_specs-Declared wb user namespace =
      Contract-bind (λ (us, ns) _. All (Declared us) ns) _ _
        (collect_specs-Declared wb user namespace _ [] [] tt)
        (λ (us, ns). Contract-pure _ (λ _ h. h))
