-- ===== src/Tests.antt =====
-- The theorems applied to sample objects.
mod Samples
mod Clusters
mod Cases
mod Settled
mod Stores
use workbench_operator.Base.{
  List, ◌≤◌, ◌<>◌, String, true, false, Option, none, some, arith, [], ◌∷◌, ◌≡◌, refl, ◌≢◌, ◌↔◌,
  ◌⊎◌, All, Any, differ, string_eq, nat_eq,
}
use workbench_operator.Base.Dict.{Dict, lookup}
use workbench_operator.Config.{Config}
use workbench_operator.Kube.{ContainerStatus, Service, Deployment, Volume, VolumeMount}
use workbench_operator.Kube.Zero.{object_meta}
use workbench_operator.Workbench.{ServerPodHealth, Workbench, ready, server_running}
use workbench_operator.Workbench.Status.{
  condition_status, update_status_from_deployment, update_status_from_job, set_app_status_failed,
}
use workbench_operator.Workbench.Status.Laws.{
  IsRevisionOf, IsStatusOf, IsStatusByJob, condition_status_values, IsServerStatus,
  update_status_from_deployment_lem, update_status_from_deployment_settles,
  update_status_from_job_lem, app_status,
}
use workbench_operator.Health.{set_server_pod_health}
use workbench_operator.Deployment.{
  server_container, sidecar_container, workbench_labels, server_image, init_deployment,
  update_deployment, one_item, with_containers,
}
use workbench_operator.Deployment.Laws.{
  IsSyncedFrom, first_image, server_containers, sidecars, update_deployment-none,
  update_deployment_lem,
}
use workbench_operator.Service.{init_service}
use mathlib.Core.List.{Permᴰ}
use workbench_operator.Reconcile.{clean_up}
use workbench_operator.Reconcile.Cleanup.{clean_up_any_order}
use workbench_operator.Job.{get_app_name, build_job, update_job, init_security_context}
use workbench_operator.Base.Text.{split}
use workbench_operator.Job.Passwd.{collisions}
use workbench_operator.Job.Passwd.Laws.{TakesReserved, collisions-TakesReserved}
use workbench_operator.Job.Laws.{
  MountsDeclared, IsConfined, build_job-MountsDeclared, build_job-security,
}
use workbench_operator.Storage.Manager.{get_volume_and_mount_specs, process_enabled_storage}
use workbench_operator.Storage.Manager.Laws.{process_enabled_storage-Only}
use workbench_operator.Storage.Manager.Specs.{GivesDeclared, get_volume_and_mount_specs-Declared}
use workbench_operator.Platform.{ok, get_workbench}
use workbench_operator.Platform.Monad.{returned, value}
use workbench_operator.Platform.Contract.{Contract}
use workbench_operator.Platform.Only.{Only, Extends}
use workbench_operator.Platform.Requests.{StorageRequest}
use workbench_operator.Reconcile.{reconcile, reconcile_deleted, reconcile_live, storage_phase}
use workbench_operator.Reconcile.Phases.{DeletedRequest, storage_phase_lem, reconcile-teardown}
use workbench_operator.Reconcile.Released.{IsReleased, reconcile_deleted-IsReleased}
use workbench_operator.Reconcile.KeptJobs.{IsSafe}
use workbench_operator.Reconcile.Kept.{reconcile_live-IsSafe}
use workbench_operator.Tests.Samples.{
  config, image, app, bench, deleted_bench, available, deployment, bare_deployment, job, paused_job,
  server_status, health, service, serving_platform, deleting_platform, start, key, serving,
  deleting,
}

reconcile_live-IsSafe_example :
    IsSafe (reconcile_live serving_platform config bench (start serving_platform tt)).1.history
reconcile_live-IsSafe_example =
    reconcile_live-IsSafe serving_platform config bench (start serving_platform tt) refl

reconcile_deleted-IsReleased_example :
    IsReleased
      (workbench_labels deleted_bench)
      (reconcile_deleted deleting_platform config deleted_bench
        (start deleting_platform tt)).1.history
reconcile_deleted-IsReleased_example =
    reconcile_deleted-IsReleased deleting_platform config deleted_bench (start deleting_platform tt)
      refl

reconcile-teardown_example :
    Extends
      (DeletedRequest key)
      []
      (reconcile deleting_platform config key (start deleting_platform tt)).1.history
unfolding deleting
reconcile-teardown_example =
    reconcile-teardown deleting_platform config key (start deleting_platform tt) deleted_bench 7
      refl refl

abbrev owned_service : Service
owned_service = record (init_service bench) {
  metadata = record (init_service bench).metadata { owners = "bench" ∷ [] };
}

get_volume_and_mount_specs-Declared_example :
    Contract
      (λ _. Unit {0})
      (get_volume_and_mount_specs serving_platform config bench "ada" "team")
      (λ r _. GivesDeclared r)
      (λ _ _. ⊥)
get_volume_and_mount_specs-Declared_example =
    get_volume_and_mount_specs-Declared serving_platform config bench "ada" "team"

storage_phase_lem_example :
    ((names : Dict String) × ((process_enabled_storage serving_platform config bench
          (start serving_platform tt)).0
        ≡ value (returned names)))
    × ((storage_phase serving_platform config bench (start serving_platform tt)).0 ≡ value tt)
storage_phase_lem_example =
    storage_phase_lem serving_platform config bench (start serving_platform tt)

process_enabled_storage-Only_example :
    Only StorageRequest (process_enabled_storage serving_platform config bench)
process_enabled_storage-Only_example = process_enabled_storage-Only serving_platform config bench

abbrev passwd : String
passwd = "root:x:0:0\nada:x:1001:1001"

collisions-TakesReserved_example : (collisions passwd ≢ []) ↔ Any TakesReserved (split b'\n' passwd)
collisions-TakesReserved_example = collisions-TakesReserved passwd

build_job-MountsDeclared_example :
    MountsDeclared (build_job bench config "app1" app service [] []).template.spec
build_job-MountsDeclared_example = build_job-MountsDeclared bench config "app1" app service [] [] tt

build_job-security_example :
    let p = (build_job bench config "app1" app service [] []).template.spec in
    (config.debug_mode_enabled ≡ false
      ↔ All
          (λ c.
            (s : _) × (c.security_context ≡ some s)
            × IsConfined s
            × (s.run_as_user ≡ some bench.spec.server.user_id))
          p.containers)
    × All (λ c. c.security_context ≡ some init_security_context) p.init_containers
build_job-security_example = build_job-security bench config "app1" app service [] []

some_registry : config.registry ≢ ""
some_registry = differ "harbor.example" "" refl

update_deployment-none_example :
    (update_deployment (init_deployment bench config) bare_deployment ≡ none)
    ↔ ((server_containers bare_deployment ≡ []) ⊎ (sidecars bare_deployment ≡ []))
update_deployment-none_example = update_deployment-none bench config bare_deployment

abbrev source : Deployment
source = init_deployment bench config

update_deployment_lem_example :
    (first_image (server_containers source) ≡ first_image (server_containers source))
    × (first_image (sidecars source) ≡ first_image (sidecars source))
    × (one_item (server_containers source) ≡ true)
    × (one_item (sidecars source) ≡ true)
    × (source ≡ with_containers source (sidecars source) (server_containers source))
    × ((false ≡ false) ↔ (source ≡ source))
    × (update_deployment source source ≡ some (source, false))
    × IsSyncedFrom
        (server_container bench config)
        (server_containers source)
        (server_containers source)
    × IsSyncedFrom (sidecar_container config) (sidecars source) (sidecars source)
unfolding update_deployment init_deployment string_eq nat_eq
update_deployment_lem_example = update_deployment_lem bench config source source false refl

condition_status_values_example :
    ((available.condition_type ≡ "ReplicaFailure") × (condition_status available ≡ ""))
    ⊎ ((available.condition_type ≢ "ReplicaFailure") × IsServerStatus (condition_status available))
condition_status_values_example = condition_status_values available

update_status_from_deployment_lem_example :
    let s = (update_status_from_deployment bench deployment).0.status in
    IsRevisionOf deployment s.server_deployment.revision
    × IsStatusOf available s.server_deployment.status
    × (s.server_deployment.server_pod ≡ bench.status.server_deployment.server_pod)
    × (s.apps ≡ bench.status.apps)
update_status_from_deployment_lem_example =
    update_status_from_deployment_lem bench deployment available [] refl

no_conditions : available ∷ [] ≢ []
no_conditions e = cc

update_status_from_deployment_settles_example :
    let (wb', changed) = update_status_from_deployment bench deployment in
    ((changed ≡ false) ↔ (wb' ≡ bench))
    × (update_status_from_deployment wb' deployment ≡ (wb', false))
update_status_from_deployment_settles_example =
    update_status_from_deployment_settles bench deployment no_conditions

some_differs : {A : Type 0} {o : Option A} {a : A} → o ≡ some a → o ≢ none
some_differs e n = ground arith

app_wanted : lookup "app1" bench.spec.apps ≢ none
unfolding lookup string_eq
app_wanted = some_differs refl

app_known : lookup "app1" bench.status.apps ≢ none
unfolding lookup string_eq
app_known = some_differs refl

update_status_from_job_lem_example :
    let (wb', changed) = update_status_from_job bench "app1" job in
    ((s : String) × (app_status "app1" wb' ≡ some s) × IsStatusByJob job.status s)
    × (lookup "app2" wb'.status.apps ≡ lookup "app2" bench.status.apps)
    × (wb'.status.server_deployment ≡ bench.status.server_deployment)
    × ((changed ≡ false) ↔ (wb' ≡ bench))
update_status_from_job_lem_example =
    update_status_from_job_lem bench "app1" "app2" job app_wanted app_known
      (differ "app2" "app1" refl)

clean_up_any_order_example :
    clean_up serving_platform config bench ("bench-b" ∷ "bench-a" ∷ []) (start serving_platform tt)
    ≡ clean_up serving_platform config bench
        ("bench-a" ∷ "bench-b" ∷ [])
        (start serving_platform tt)
clean_up_any_order_example =
    clean_up_any_order serving_platform config bench ("bench-b" ∷ "bench-a" ∷ [])
      ("bench-a" ∷ "bench-b" ∷ []) (start serving_platform tt) (Permᴰ.swap refl refl)
