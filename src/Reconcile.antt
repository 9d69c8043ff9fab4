-- ===== src/Reconcile.antt =====
-- `Reconcile` of internal/controller/workbench_controller.go. The handler is cut into its phases,
-- in the order of the code; an early return of the code stops the whole computation. What is only
-- logged has no part in the model. The recorder is set, as in cmd/main.go.
-- A `range` over a map gives its entries in any order: the list of the apps is any such order.
pub mod Calls
pub mod Phases
pub mod Kept
pub mod KeptJobs
pub mod Live
pub mod Guarded
pub mod Settled
pub mod Saves
pub mod Converge
pub mod Teardown
pub mod Cleanup
pub mod Role
pub mod Jobs
pub mod Reached
pub mod Released
use workbench_operator.Base.{
  ℕ, zero, suc, String, ◌<>◌, Bool, true, false, Option, none, some, List, [], ◌∷◌, ◌++◌, ◌||◌,
  string_eq, ◌==◌, if◌then◌else◌,
}
use workbench_operator.Base.Dict.{Dict}
use workbench_operator.Kube.{ObjectKey, ObjectMeta, Time, Deployment, Service, Job}
use workbench_operator.Config.{Config}
use workbench_operator.Workbench.{Workbench, WorkbenchApp}
use workbench_operator.Workbench.Status.{
  update_status_from_deployment, update_status_from_job, set_app_status_failed,
}
use workbench_operator.Deployment.{init_deployment, update_deployment, workbench_labels}
use workbench_operator.Service.{init_service}
use workbench_operator.Job.{update_job}
use workbench_operator.Job.Init.{init_job}
use workbench_operator.Names.{sort, binary_search}
use workbench_operator.Storage.Manager.{process_enabled_storage}
use workbench_operator.Cluster.{
  create_deployment_if_missing, create_service_if_missing, create_job_if_missing,
  update_server_pod_health, find_jobs, delete_external_resources,
}
use workbench_operator.Platform.{
  ApiError, not_found, other, Answer, ok, err, get_workbench, update_workbench,
  update_workbench_status, update_deployment as update_deployment_request,
  update_job as update_job_request, delete_job, record_event, Platform, World,
}
use workbench_operator.Platform.Monad.{
  Error, api, message, Result, returned, error, Verdict, done, requeue_after, failed, panicked, M,
  call, pure, stop, ◌>>=◌, ◌>>◌, on_answer, on_result, is_suspended_job, Outcome, value, stopped,
}

abbrev pub finalizer : String
finalizer = "default.k8s.chorus-tre.ch/finalizer"

-- `client.IgnoreNotFound(err)`
abbrev pub ignore_not_found : ApiError → Verdict
ignore_not_found not_found = done
ignore_not_found (other e) = failed (api (other e))

abbrev pub xpra_ready : Workbench → Bool
xpra_ready wb = elim wb.status.server_deployment.server_pod [
  | none ↦ false
  | some health ↦ health.is_ready
]

abbrev with_metadata : Workbench → ObjectMeta → Workbench
with_metadata wb m = record wb { metadata = m }

-- `foundJobNames = append(foundJobNames, job.Name)`, where there is a job to keep.
abbrev pub append_name : List String → Option String → List String
append_name names none = names
append_name names (some name) = names ++ name ∷ []

module _ (P : Platform) (config : Config) where
  -- `r.Update(ctx, &workbench)`, whose error ends the reconciliation.
  save_workbench : Workbench → M P Workbench
  save_workbench wb = do
    saved ← call P (update_workbench wb)
    on_answer saved pure (λ e. stop (failed (api e)))

  remove_finalizer : Workbench → M P (Unit {0})
  unfolding save_workbench
  remove_finalizer wb =
      let (m, changed) = P.remove_finalizer wb.metadata finalizer in
      if changed then (do _ ← save_workbench (with_metadata wb m); stop done) else stop done

  after_count : Workbench → ℕ → M P (Unit {0})
  unfolding remove_finalizer
  after_count wb zero = remove_finalizer wb
  after_count wb (suc _) = stop (requeue_after 5)

  -- The branch of a workbench that is being deleted.
  unfoldable pub reconcile_deleted : Workbench → M P (Unit {0})
  unfolding after_count
  reconcile_deleted wb =
      if P.contains_finalizer wb.metadata finalizer
      then (do
        count ← delete_external_resources P wb
        on_result count (after_count wb) (λ e. stop (failed e)))
      else stop done

  unfoldable pub ensure_finalizer : Workbench → M P Workbench
  unfolding save_workbench
  ensure_finalizer wb =
      let (m, changed) = P.add_finalizer wb.metadata finalizer in
      if P.contains_finalizer wb.metadata finalizer
      then pure wb
      else if changed
      then save_workbench (with_metadata wb m)
      else pure (with_metadata wb m)

  -- `r.Status().Update(ctx, &workbench)`, whose error is only logged.
  pub save_status : Bool → Workbench → M P Workbench
  save_status false wb = pure wb
  save_status true wb = do
    saved ← call P (update_workbench_status wb)
    on_answer saved pure (λ _. pure wb)

  -- `controllerutil.SetControllerReference`, whose error ends the reconciliation.
  pub own : Workbench → ObjectMeta → M P ObjectMeta
  own wb m = on_answer (P.set_controller_reference wb m) pure (λ e. stop (failed (api e)))

  pub push_deployment : Deployment → Option (Deployment × Bool) → M P (Unit {0})
  push_deployment model none = stop panicked
  push_deployment model (some (d, false)) = pure tt
  push_deployment model (some (d, true)) = do
    _ ← call P (
        record_event "Normal" "UpdatingDeployment" (
          "Updating deployment \"" <> model.metadata.name <> "\" into the namespace \""
          <> model.metadata.namespace <> "\""))
    saved ← call P (update_deployment_request d)
    on_answer saved (λ _. pure tt) (λ e. stop (failed (api e)))

  pub update_found_deployment : Deployment → Deployment → M P (Unit {0})
  unfolding push_deployment
  update_found_deployment model found = push_deployment model (update_deployment model found)

  pub follow_deployment : Workbench → Deployment → Deployment → M P Workbench
  unfolding save_status update_found_deployment
  follow_deployment wb model found = do
    let (wb1, status_updated) = update_status_from_deployment wb found
    (wb2, health_updated) ← update_server_pod_health P wb1 found
    wb3 ← save_status (status_updated || health_updated) wb2
    _ ← update_found_deployment model found
    pure wb3

  -- An error of the creation is logged, and the reconciliation goes on without the deployment.
  unfoldable pub server_phase : Workbench → M P Workbench
  unfolding follow_deployment own
  server_phase wb = do
    let d = init_deployment wb config
    m ← own wb d.metadata
    found ← create_deployment_if_missing P (record d { metadata = m })
    on_result found (follow_deployment wb (record d { metadata = m })) (λ _. pure wb)

  unfoldable pub service_phase : Workbench → M P Service
  unfolding own
  service_phase wb = do
    let s = init_service wb
    m ← own wb s.metadata
    made ← create_service_if_missing P (record s { metadata = m })
    on_result made (λ _. pure (record s { metadata = m })) (λ e. stop (failed e))

  unfoldable pub storage_phase : Workbench → M P (Unit {0})
  storage_phase wb = do
    processed ← process_enabled_storage P config wb
    on_result processed (λ _. pure tt) (λ e. stop (failed e))

  pub update_found_job : Job → Job → M P (Unit {0})
  update_found_job model found =
      let (j, updated) = update_job model found in
      if updated
      then (do
        saved ← call P (update_job_request j)
        on_answer saved (λ _. pure tt) (λ e. stop (failed (api e))))
      else pure tt

  pub follow_job : Workbench → String → Job → Job → M P Workbench
  unfolding save_status update_found_job
  follow_job wb uid model found = do
    let (wb1, updated) = update_status_from_job wb uid found
    wb2 ← save_status updated wb1
    if model.metadata.name == found.metadata.name
        then (do _ ← update_found_job model found; pure wb2)
        else stop (
            failed (
              message (
                "One simply cannot change the application name: " <> model.metadata.name <> " != "
                <> found.metadata.name)))

  pub keep_job : Workbench → String → Job → Option Job → M P (Workbench × Option String)
  unfolding follow_job
  keep_job wb uid job none = pure (wb, some job.metadata.name)
  keep_job wb uid job (some found) = do
    wb' ← follow_job wb uid job found
    pure (wb', some job.metadata.name)

  -- One round of the loop over the apps below the setting of the owner: the workbench, and the name
  -- of the job if it is one to keep.
  pub run_job : Workbench → String → Job → M P (Workbench × Option String)
  unfolding keep_job
  run_job wb uid job = do
    result ← create_job_if_missing P job
    on_result result (keep_job wb uid job)
        (λ e. if is_suspended_job e then pure (wb, none) else stop (failed e))

  -- One round of the loop over the apps.
  unfoldable pub reconcile_app :
      Workbench → Service → String → WorkbenchApp → M P (Workbench × Option String)
  unfolding save_status run_job own
  reconcile_app wb service uid app = do
    result ← init_job P wb config uid app service
    on_result result
        (λ job. do m ← own wb job.metadata; run_job wb uid (record job { metadata = m }))
        (λ _. do
          let (wb1, updated) = set_app_status_failed wb uid
          wb2 ← save_status updated wb1
          pure (wb2, none))

  unfoldable pub reconcile_apps :
      Service → Dict WorkbenchApp → Workbench → List String → M P (Workbench × List String)
  reconcile_apps service [] wb names = pure (wb, names)
  reconcile_apps service ((uid, app) ∷ apps) wb names = do
    (wb', name) ← reconcile_app wb service uid app
    reconcile_apps service apps wb' (append_name names name)

  pub delete_if_extra : List String → Job → M P (Unit {0})
  delete_if_extra sorted job = if binary_search sorted job.metadata.name then pure tt else (do
    gone ← call P (delete_job job)
    on_answer gone (λ _. pure tt) (λ e. stop (failed (api e))))

  unfoldable pub delete_extra_jobs : List String → List Job → M P (Unit {0})
  unfolding delete_if_extra
  delete_extra_jobs sorted [] = pure tt
  delete_extra_jobs sorted (job ∷ jobs) = do
    _ ← delete_if_extra sorted job
    delete_extra_jobs sorted jobs

  unfoldable pub clean_up : Workbench → List String → M P (Unit {0})
  clean_up wb names = do
    listed ← find_jobs P wb
    on_answer listed (delete_extra_jobs (sort names)) (λ e. stop (failed (api e)))

  -- The apps, behind the test of the server.
  unfoldable pub apps_phase : Workbench → Service → M P (Unit {0})
  apps_phase wb service =
      if xpra_ready wb
      then (do (wb', names) ← reconcile_apps service wb.spec.apps wb []; clean_up wb' names)
      else stop (requeue_after 2)

  -- The part of the handler above the test of the server.
  unfoldable pub prepare : Workbench → M P (Workbench × Service)
  prepare wb = do
    wb1 ← ensure_finalizer wb
    wb2 ← server_phase wb1
    service ← service_phase wb2
    _ ← storage_phase wb2
    pure (wb2, service)

  unfoldable pub reconcile_live : Workbench → M P (Unit {0})
  reconcile_live wb = do (wb', service) ← prepare wb; apps_phase wb' service

  by_deletion : Workbench → Option Time → M P (Unit {0})
  by_deletion wb (some _) = reconcile_deleted wb
  by_deletion wb none = reconcile_live wb

  reconcile_found : Workbench → M P (Unit {0})
  unfolding by_deletion
  reconcile_found wb = by_deletion wb wb.metadata.deletion_timestamp

  abbrev pub verdict : Outcome (Unit {0}) → Verdict
  verdict (value _) = done
  verdict (stopped v) = v

  reconcile_key : ObjectKey → M P (Unit {0})
  unfolding reconcile_found
  reconcile_key key = do
    found ← call P (get_workbench key)
    on_answer found reconcile_found (λ e. stop (ignore_not_found e))

  unfoldable pub reconcile : ObjectKey → World P → Verdict × World P
  unfolding reconcile_key
  reconcile key w = (verdict (reconcile_key key w).0, (reconcile_key key w).1)
