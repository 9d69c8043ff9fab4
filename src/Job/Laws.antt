-- ===== src/Job/Laws.antt =====
-- The job of an app: its name and image, its privileges, its volumes and its suspension.
use workbench_operator.Base.{
  String, Bool, true, false, Option, none, some, List, [], ◌∷◌, ◌++◌, ◌≡◌, refl, ◌≢◌, ◌↔◌, arith,
  All, pos, string_eq, bool_eq,
}
use mathlib.Core.List.{Memᴰ}
use workbench_operator.Base.Text.Laws.{
  Lacks, IsLastPart, split-Lacks, last_part-Lacks, split-IsLastPart,
}
use workbench_operator.Base.Text.{split}
use workbench_operator.Kube.{Volume, VolumeMount, SecurityContext, Service, Job, PodSpec}
use workbench_operator.Kube.Mounts.{Declared, Declared-cons, Declared-append, All-map}
use workbench_operator.Config.{Config}
use workbench_operator.Workbench.{Workbench, WorkbenchApp, Image}
use workbench_operator.Job.{
  get_app_name, build_job, shm_volumes_of, shm_mounts_of, home_mount, build_app_security_context,
  suspend_as, update_job, init_security_context, home_volume,
}

-- Where the app has an image, its name is the last part of the image's repository: it has no slash,
-- and the repository is the name alone or ends in a slash and the name.
pub get_app_name_lem :
    (app : WorkbenchApp) (image : Image)
    → app.image ≡ some image
    → Lacks b'/' (get_app_name app) × IsLastPart (get_app_name app) image.repository
unfolding get_app_name
get_app_name_lem app image e =
    rw (e, get_app_name)
      (
        last_part-Lacks b'/' (split b'/' image.repository) (split-Lacks b'/' image.repository),
        split-IsLastPart image.repository,
      )

-- Every mount of every container of the pod names a volume of the pod.
abbrev pub MountsDeclared : PodSpec → Type 0
MountsDeclared p =
    All (λ c. All (Declared p.volumes) c.volume_mounts) p.init_containers
    × All (λ c. All (Declared p.volumes) c.volume_mounts) p.containers

module _ (vs : List Volume) (ms : List VolumeMount) (h : All (Declared vs) ms) where
  shared_mounts : (us : List Volume) → All (Declared (us ++ home_volume ∷ vs)) (home_mount ∷ ms)
  shared_mounts us = (
    Declared-append us (home_volume ∷ vs) home_mount (home_volume, Memᴰ.head refl, refl),
    All-map ms (λ m d. Declared-append us (home_volume ∷ vs) m (Declared-cons home_volume vs m d))
        h,
  )

  mounts-Declared :
      (o : Option String)
      → All (Declared (shm_volumes_of o ++ home_volume ∷ vs)) (shm_mounts_of o ++ home_mount ∷ ms)
  unfolding shm_volumes_of shm_mounts_of
  mounts-Declared none = shared_mounts []
  mounts-Declared (some size) =
      ((_, Memᴰ.head refl, refl), shared_mounts (shm_volumes_of (some size)))

-- In the job of an app every mount of both containers names a volume of the pod, where the mounts of
-- the storage name volumes of the storage.
pub build_job-MountsDeclared :
    (wb : Workbench) (config : Config) (uid : String) (app : WorkbenchApp) (service : Service)
    (vs : List Volume) (ms : List VolumeMount)
    → All (Declared vs) ms
    → MountsDeclared (build_job wb config uid app service vs ms).template.spec
unfolding build_job
build_job-MountsDeclared wb config uid app service vs ms h = (
  (shared_mounts vs ms h (shm_volumes_of app.shm_size), tt),
  (mounts-Declared vs ms h app.shm_size, tt),
)

-- The container cannot run as root or gain privileges, is not privileged, and has no capability.
abbrev pub IsConfined : SecurityContext → Type 0
IsConfined s =
    (s.run_as_non_root ≡ some true)
    × (s.allow_privilege_escalation ≡ some false)
    × (s.privileged ≢ some true)
    × (s.capabilities ≡ some (record { add = []; drop = "ALL" ∷ [] }))

-- Debug mode is off exactly where the app's containers all run as the user of the workbench, cannot
-- run as root or gain privileges, are not privileged, and drop all capabilities and add none. The
-- init container has the same security context in both modes.
pub build_job-security :
    (wb : Workbench) (config : Config) (uid : String) (app : WorkbenchApp) (service : Service)
    (vs : List Volume) (ms : List VolumeMount)
    → let p = (build_job wb config uid app service vs ms).template.spec in
      (config.debug_mode_enabled ≡ false
        ↔ All
            (λ c.
              (s : SecurityContext) × (c.security_context ≡ some s)
              × IsConfined s
              × (s.run_as_user ≡ some wb.spec.server.user_id))
            p.containers)
      × All (λ c. c.security_context ≡ some init_security_context) p.init_containers
unfolding build_job
build_job-security wb config uid app service vs ms = (
  (
    λ e. (
      (
        build_app_security_context config.debug_mode_enabled wb.spec.server.user_id (pos 1001),
        refl,
        (ground arith, ground arith, ground arith, ground arith),
        ground arith,
      ),
      tt,
    ),
    λ ((s, e, c, u), _). ground arith,
  ),
  (refl, tt),
)

-- Where the model says whether the job is suspended, the update makes the job say the same and keeps
-- all else of it; the result is false exactly where it said so before; and a second update changes
-- nothing.
pub update_job_lem :
    (model found : Job) (s : Bool)
    → model.suspend ≡ some s
    → let (j, changed) = update_job model found in
      (j ≡ record found { suspend = some s })
      × ((changed ≡ false) ↔ (found.suspend ≡ some s))
      × (update_job model j ≡ (j, false))
unfolding update_job
update_job_lem model found s e =
    (ground arith, (λ h. ground arith, λ h. ground arith), ground arith)

suspend_as-metadata :
    (new old : Option Bool) (d : Job) → (suspend_as new old d).0.metadata ≡ d.metadata
unfolding suspend_as
suspend_as-metadata none old d = refl
suspend_as-metadata (some s) none d = refl
suspend_as-metadata (some s) (some o) d = ground arith

pub update_job-metadata : (model found : Job) → (update_job model found).0.metadata ≡ found.metadata
unfolding update_job
update_job-metadata model found = suspend_as-metadata model.suspend found.suspend found
