-- ===== src/Job/Init/Distinct.antt =====
-- The names of the volumes and the mount paths of the jobs of initJob (job.go).
use workbench_operator.Base.{
  String, none, some, List, ◌∷◌, ◌++◌, ◌≡◌, refl, ◌⊎◌, inl, inr, All, string_eq, ◌==◌,
  if◌then◌else◌, Bool-cases, Option,
}
use mathlib.Core.List.{Sublistᴰ}
use workbench_operator.Config.{Config}
use workbench_operator.Kube.{Service, Job, Volume, VolumeMount, Container, Quantity}
use workbench_operator.Kube.Distinct.{
  Distinct, volume_names, mount_paths, Distinct-Sublist, are_distinct_lem,
}
use workbench_operator.Workbench.{Workbench, WorkbenchApp}
use workbench_operator.Storage.{or_default}
use workbench_operator.Job.{build_job, shm_volumes_of, shm_mounts_of, get_app_name}
use workbench_operator.Platform.{Platform, World}
use workbench_operator.Platform.Monad.{Error, Result, returned, error, value}
use workbench_operator.Platform.Contract.{Contract-result}
use workbench_operator.Storage.Manager.Picked.{
  HasBoth, GivesPicked, storage_names, remote_paths, local_paths,
  get_volume_and_mount_specs-ArePicked,
}
use workbench_operator.Job.Init.{specs_or_none, init_job}
use workbench_operator.Job.Init.Fits.{init_job-Contract}

abbrev pub HasDistinctPaths : Container → Type 0
HasDistinctPaths c = Distinct (mount_paths c.volume_mounts)

abbrev pub FitsPod : Config → Workbench → Result Job → Type 0
FitsPod config wb (returned job) =
    Distinct (volume_names job.template.spec.volumes)
    × (HasBoth config (or_default wb.spec.storage)
        ⊎ (All HasDistinctPaths job.template.spec.containers
            × All HasDistinctPaths job.template.spec.init_containers))
FitsPod config wb (error _) = Unit

names-Distinct : Distinct ("shm" ∷ "home" ∷ storage_names)
unfolding string_eq
names-Distinct = are_distinct_lem ("shm" ∷ "home" ∷ storage_names) refl

remote_paths-Distinct : Distinct ("/dev/shm" ∷ "/home" ∷ remote_paths)
unfolding string_eq
remote_paths-Distinct = are_distinct_lem ("/dev/shm" ∷ "/home" ∷ remote_paths) refl

local_paths-Distinct : Distinct ("/dev/shm" ∷ "/home" ∷ local_paths)
unfolding string_eq
local_paths-Distinct = are_distinct_lem ("/dev/shm" ∷ "/home" ∷ local_paths) refl

-- The memory of the app stands first, if it has any.
shm_volumes-Sublist :
    (size : Option Quantity) (v : Volume) (vs : List Volume) {names : List String}
    → Sublistᴰ (volume_names vs) names
    → Sublistᴰ (volume_names (shm_volumes_of size ++ v ∷ vs)) ("shm" ∷ v.name ∷ names)
unfolding shm_volumes_of
shm_volumes-Sublist none v vs s = Sublistᴰ.cons (Sublistᴰ.cons-cons refl s)
shm_volumes-Sublist (some _) v vs s = Sublistᴰ.cons-cons refl (Sublistᴰ.cons-cons refl s)

shm_mounts-Sublist :
    (size : Option Quantity) (m : VolumeMount) (ms : List VolumeMount) {paths : List String}
    → Sublistᴰ (mount_paths ms) paths
    → Sublistᴰ (mount_paths (shm_mounts_of size ++ m ∷ ms)) ("/dev/shm" ∷ m.mount_path ∷ paths)
unfolding shm_mounts_of
shm_mounts-Sublist none m ms s = Sublistᴰ.cons (Sublistᴰ.cons-cons refl s)
shm_mounts-Sublist (some _) m ms s = Sublistᴰ.cons-cons refl (Sublistᴰ.cons-cons refl s)

module _ (config : Config) (wb : Workbench) (uid : String) (app : WorkbenchApp)
    (service : Service) where
  paths-Distinct :
      (vs : List Volume) (ms : List VolumeMount) {paths : List String}
      → Distinct ("/dev/shm" ∷ "/home" ∷ paths)
      → Sublistᴰ (mount_paths ms) paths
      → let p = (build_job wb config uid app service vs ms).template.spec in
        All HasDistinctPaths p.containers × All HasDistinctPaths p.init_containers
  unfolding build_job
  paths-Distinct vs ms d s = (
    (Distinct-Sublist (shm_mounts-Sublist app.shm_size _ ms s) d, tt),
    (Distinct-Sublist (Sublistᴰ.cons-cons refl s) d.1, tt),
  )

  build_job-FitsPod :
      (vs : List Volume) (ms : List VolumeMount)
      → GivesPicked config wb (returned (vs, ms))
      → FitsPod config wb (returned (build_job wb config uid app service vs ms))
  unfolding build_job
  build_job-FitsPod vs ms (n, p) = (
    Distinct-Sublist (shm_volumes-Sublist app.shm_size _ vs n) names-Distinct,
    elim p [
      | inl both ↦ inl both
      | inr (inl s) ↦ inr (paths-Distinct vs ms remote_paths-Distinct s)
      | inr (inr s) ↦ inr (paths-Distinct vs ms local_paths-Distinct s)
    ],
  )

  named-FitsPod :
      (specs : Result (List Volume × List VolumeMount)) (e : Error)
      → GivesPicked config wb specs
      → FitsPod config wb (
          if get_app_name app == ""
          then error e
          else returned
              (build_job wb config uid app service (specs_or_none specs).0 (specs_or_none specs).1))
  named-FitsPod (returned (vs, ms)) e d = elim (Bool-cases (get_app_name app == "")) [
    | inl unnamed ↦ rw unnamed tt
    | inr named ↦ rw named (build_job-FitsPod vs ms d)
  ]
  named-FitsPod (error _) e d = absurd d

-- Whatever the platform answers, the volumes of a job that `initJob` gives have different names, and
-- each of its containers mounts at different paths, unless S3 and the local storage are both on.
pub init_job-FitsPod :
    (P : Platform) (config : Config) (wb : Workbench) (uid : String) (app : WorkbenchApp)
    (service : Service) (w : World P)
    → (r : Result Job) × ((init_job P wb config uid app service w).0 ≡ value r)
      × FitsPod config wb r
init_job-FitsPod P config wb uid app service w =
    Contract-result
      (init_job-Contract wb config uid app service P (GivesPicked config wb) (FitsPod config wb)
        (get_volume_and_mount_specs-ArePicked P config wb wb.spec.server.user wb.metadata.namespace)
        (named-FitsPod config wb uid app service) (λ e why p. tt))
      w tt
