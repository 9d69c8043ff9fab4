-- ===== src/Storage/Manager/Picked.antt =====
-- Which volumes and mounts GetVolumeAndMountSpecs takes from the enabled providers (storage.go).
use workbench_operator.Base.{
  String, Bool, true, false, List, [], ◌∷◌, ◌++◌, ◌≡◌, refl, ◌⊎◌, inl, inr, none, some,
  if◌then◌else◌,
}
use mathlib.Core.List.{Sublistᴰ, map-append, append-nil}
use mathlib.Core.List.Sublistᴰ
use workbench_operator.Config.{Config}
use workbench_operator.Kube.{Volume, VolumeMount}
use workbench_operator.Workbench.{Workbench, StorageConfig}
use workbench_operator.Storage.{
  BaseProvider, get_volume_spec, get_pvc_name, get_volume_name, get_volume_mount_specs, provider_of,
  or_default, if_wanted, get_enabled_providers, new_s3_provider, new_nfs_provider,
  new_local_provider,
}
use workbench_operator.Platform.{Platform}
use workbench_operator.Platform.Monad.{Result, returned, error}
use workbench_operator.Platform.Contract.{
  Contract, Contract-pure, Contract-bind, Contract-Total, Contract-weaken,
}
use workbench_operator.Kube.Distinct.{volume_names, mount_paths, map-Sublist, if-Sublist}
use workbench_operator.Storage.Manager.{collect_specs, get_volume_and_mount_specs}
use workbench_operator.Storage.Manager.Total.{has_secret-Total}

-- All that the providers have to give.
module _ (user namespace claims : String) where
  abbrev all_volumes : List BaseProvider → List Volume
  all_volumes [] = []
  all_volumes (b ∷ bs) = get_volume_spec b (get_pvc_name b claims) ∷ all_volumes bs

  abbrev all_mounts : List BaseProvider → List VolumeMount
  all_mounts [] = []
  all_mounts (b ∷ bs) = get_volume_mount_specs b user namespace ++ all_mounts bs

-- The S3 storage and the local storage are both on.
abbrev pub HasBoth : Config → StorageConfig → Type 0
HasBoth config storage =
    (storage.s3 ≡ true) × (storage.local ≡ true) × (config.local_storage_enabled ≡ true)

abbrev pub storage_names : List String
storage_names = "workspace-archive" ∷ "workspace-scratch" ∷ "workspace-local" ∷ []

-- The mount paths without the local storage, and those without S3.
abbrev pub remote_paths : List String
remote_paths = "/mnt/workspace-archive" ∷ "/mnt/app_data" ∷ "/mnt/workspace-scratch" ∷ []

abbrev pub local_paths : List String
local_paths = "/mnt/workspace-scratch" ∷ "/mnt/workspace-local" ∷ "/mnt/app_data" ∷ []

abbrev pub AreApart : List String → Type 0
AreApart paths = Sublistᴰ paths remote_paths ⊎ Sublistᴰ paths local_paths

abbrev pub ArePicked : Config → StorageConfig → List String → List String → Type 0
ArePicked config storage names paths =
    Sublistᴰ names storage_names × (HasBoth config storage ⊎ AreApart paths)

abbrev pub GivesPicked : Config → Workbench → Result (List Volume × List VolumeMount) → Type 0
GivesPicked config wb (returned (vs, ms)) =
    ArePicked config (or_default wb.spec.storage) (volume_names vs) (mount_paths ms)
GivesPicked config wb (error _) = ⊥

picked-paths :
    {Both : Type 0} {xs ys : List String} → Both ⊎ AreApart ys → Sublistᴰ xs ys → Both ⊎ AreApart xs
picked-paths (inl both) s = inl both
picked-paths (inr (inl k)) s = inr (inl (Sublistᴰ.trans s k))
picked-paths (inr (inr k)) s = inr (inr (Sublistᴰ.trans s k))

module _ (user namespace claims : String) where
  one-names :
      (b : Bool) (p : BaseProvider) (bs : List BaseProvider) (names : List String)
      → Sublistᴰ (volume_names (all_volumes user namespace claims bs)) names
      → Sublistᴰ
          (volume_names (all_volumes user namespace claims (if_wanted b (some p) ++ bs)))
          (get_volume_name p ∷ names)
  unfolding get_volume_spec
  one-names true p bs names s = Sublistᴰ.cons-cons refl s
  one-names false p bs names s = Sublistᴰ.cons s

  one-paths :
      (b : Bool) (p : BaseProvider) (bs : List BaseProvider) (paths : List String)
      → Sublistᴰ (mount_paths (all_mounts user namespace claims bs)) paths
      → Sublistᴰ
          (mount_paths (all_mounts user namespace claims (if_wanted b (some p) ++ bs)))
          (mount_paths (get_volume_mount_specs p user namespace) ++ paths)
  one-paths true p bs paths s =
      rw
        (map-append (λ m. m.mount_path) (get_volume_mount_specs p user namespace)
          (all_mounts user namespace claims bs))
        (Sublistᴰ.append (Sublistᴰ.refl _) s)
  one-paths false p bs paths s = Sublistᴰ.append (Sublistᴰ.nil-sublist _) s

  module _ (config : Config) where
    local-names :
        (l e : Bool)
        → Sublistᴰ
            (volume_names (
              all_volumes user namespace claims
                (if_wanted l (if e then some (new_local_provider config) else none))))
            ("workspace-local" ∷ [])
    unfolding get_volume_spec get_volume_name new_local_provider
    local-names true true = Sublistᴰ.refl _
    local-names true false = Sublistᴰ.nil-sublist _
    local-names false e = Sublistᴰ.nil-sublist _

    enabled-names :
        (wb : Workbench)
        → Sublistᴰ
            (volume_names (all_volumes user namespace claims (get_enabled_providers config wb)))
            storage_names
    unfolding get_enabled_providers provider_of new_s3_provider new_nfs_provider get_volume_name
    enabled-names wb = one-names (or_default wb.spec.storage).s3 (new_s3_provider config) _ _ (
        one-names (or_default wb.spec.storage).nfs (new_nfs_provider config) _ _
          (local-names (or_default wb.spec.storage).local config.local_storage_enabled))

    local-paths :
        (l e : Bool)
        → Sublistᴰ
            (mount_paths (
              all_mounts user namespace claims
                (if_wanted l (if e then some (new_local_provider config) else none))))
            ("/mnt/workspace-local" ∷ "/mnt/app_data" ∷ [])
    unfolding get_volume_mount_specs new_local_provider
    local-paths true true = Sublistᴰ.refl _
    local-paths true false = Sublistᴰ.nil-sublist _
    local-paths false e = Sublistᴰ.nil-sublist _

    paths_by :
        (s n l e : Bool)
        → ((s ≡ true) × (l ≡ true) × (e ≡ true))
          ⊎ AreApart (
              mount_paths (
                all_mounts user namespace claims (
                  if_wanted s (some (new_s3_provider config))
                  ++ (if_wanted n (some (new_nfs_provider config))
                      ++ if_wanted l (if e then some (new_local_provider config) else none)))))
    unfolding get_volume_mount_specs new_s3_provider new_nfs_provider
    paths_by true n true true = inl (refl, refl, refl)
    paths_by true n true false = inr (
        inl (
          one-paths true (new_s3_provider config) _ _
            (one-paths n (new_nfs_provider config) [] [] (Sublistᴰ.refl []))))
    paths_by true n false e = inr (
        inl (
          one-paths true (new_s3_provider config) _ _
            (one-paths n (new_nfs_provider config) [] [] (Sublistᴰ.refl []))))
    paths_by false n l e = inr (inr (one-paths n (new_nfs_provider config) _ _ (local-paths l e)))

module _ (P : Platform) (config : Config) (wb : Workbench) (user namespace : String) where
  collect_specs-Sublist :
      (bs : List BaseProvider) (vs : List Volume) (ms : List VolumeMount)
      → Contract
          (λ _. Unit {0})
          (collect_specs P config wb user namespace bs vs ms)
          (λ (us, ns) _.
            Sublistᴰ us (vs ++ all_volumes user namespace wb.metadata.namespace bs)
            × Sublistᴰ ns (ms ++ all_mounts user namespace wb.metadata.namespace bs))
          (λ _ _. ⊥)
  unfolding collect_specs
  collect_specs-Sublist [] vs ms =
      Contract-pure _
        (λ _ _. rw (append-nil vs) (rw (append-nil ms) (Sublistᴰ.refl vs, Sublistᴰ.refl ms)))
  collect_specs-Sublist (b ∷ bs) vs ms =
      Contract-bind (λ _ _. Unit {0}) _ _ (Contract-Total (has_secret-Total P config b))
        (λ secret.
          Contract-weaken (λ _ h. h)
            (λ (us, ns) _ (p, q). (
              Sublistᴰ.trans p (
                  if-Sublist secret vs
                    (get_volume_spec b (get_pvc_name b wb.metadata.namespace) ∷ []) _),
              Sublistᴰ.trans q (if-Sublist secret ms (get_volume_mount_specs b user namespace) _),
            ))
            (λ _ _ h. h) (collect_specs-Sublist bs _ _))

  -- Whatever the platform answers, the manager gives specs, and they are picked from those of the
  -- enabled providers.
  pub get_volume_and_mount_specs-ArePicked :
      Contract
        (λ _. Unit {0})
        (get_volume_and_mount_specs P config wb user namespace)
        (λ r _. GivesPicked config wb r)
        (λ _ _. ⊥)
  unfolding get_volume_and_mount_specs get_enabled_providers provider_of
  get_volume_and_mount_specs-ArePicked =
      Contract-bind
        (λ (us, ns) _.
          ArePicked config (or_default wb.spec.storage) (volume_names us) (mount_paths ns))
        _ _
        (Contract-weaken (λ _ h. h)
          (λ (us, ns) _ (p, q). (
            Sublistᴰ.trans (map-Sublist (λ v. v.name) p)
                (enabled-names user namespace wb.metadata.namespace config wb),
            picked-paths
                (paths_by user namespace wb.metadata.namespace config
                  (or_default wb.spec.storage).s3 (or_default wb.spec.storage).nfs
                  (or_default wb.spec.storage).local config.local_storage_enabled)
                (map-Sublist (λ m. m.mount_path) q),
          ))
          (λ _ _ h. h) (collect_specs-Sublist (get_enabled_providers config wb) [] []))
        (λ (us, ns). Contract-pure _ (λ _ h. h))
