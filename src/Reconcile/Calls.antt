-- ===== src/Reconcile/Calls.antt =====
-- Which calls the phases of a reconciliation make, whatever the platform answers.
use workbench_operator.Base.{ℕ, zero, suc, String, Bool, true, false, Option, none, some}
use workbench_operator.Config.{Config}
use workbench_operator.Kube.{Deployment, Job, ObjectMeta}
use workbench_operator.Workbench.{Workbench}
use workbench_operator.Platform.{Platform}
use workbench_operator.Platform.Only.{Only, Only-map, only_rules}
use workbench_operator.Platform.Requests.{
  TeardownRequest, ServerRequest, QuietRequest, storage_server, server_quiet,
}
use workbench_operator.Storage.Manager.Laws.{process_enabled_storage-Only}
use workbench_operator.Cluster.Laws.{
  delete_external_resources-Only, create_deployment_if_missing-Only, create_service_if_missing-Only,
  update_server_pod_health-Only,
}
use workbench_operator.Reconcile.{
  remove_finalizer, after_count, reconcile_deleted, ensure_finalizer, save_status, own,
  push_deployment, update_found_deployment, follow_deployment, server_phase, service_phase,
  storage_phase, update_found_job, follow_job, prepare,
}

module _ (P : Platform) (config : Config) where
  remove_finalizer-Only : (wb : Workbench) → Only TeardownRequest (remove_finalizer P config wb)
  unfolding remove_finalizer
  remove_finalizer-Only wb = search (only_rules, tt) depth 8

  after_count-Only : (wb : Workbench) (n : ℕ) → Only TeardownRequest (after_count P config wb n)
  unfolding after_count
  after_count-Only wb zero = remove_finalizer-Only wb
  after_count-Only wb (suc n) = search only_rules

  pub reconcile_deleted-Only :
      (wb : Workbench) → Only TeardownRequest (reconcile_deleted P config wb)
  unfolding reconcile_deleted
  reconcile_deleted-Only wb =
      search (only_rules, delete_external_resources-Only P, after_count-Only)

  -- A live workbench, up to the test of the server.
  pub ensure_finalizer-Only : (wb : Workbench) → Only ServerRequest (ensure_finalizer P config wb)
  unfolding ensure_finalizer
  ensure_finalizer-Only wb = search (only_rules, tt) depth 8

  pub save_status-Only :
      (b : Bool) (wb : Workbench) → Only ServerRequest (save_status P config b wb)
  unfolding save_status
  save_status-Only false wb = search only_rules
  save_status-Only true wb = search (only_rules, tt)

  pub own-Only : (wb : Workbench) (m : ObjectMeta) → Only ServerRequest (own P config wb m)
  unfolding own
  own-Only wb m = search only_rules

  push_deployment-Only :
      (d : Deployment) (o : Option (Deployment × Bool))
      → Only ServerRequest (push_deployment P config d o)
  unfolding push_deployment
  push_deployment-Only d none = search only_rules
  push_deployment-Only d (some (_, false)) = search only_rules
  push_deployment-Only d (some (_, true)) = search (only_rules, tt)

  update_found_deployment-Only :
      (d found : Deployment) → Only ServerRequest (update_found_deployment P config d found)
  unfolding update_found_deployment
  update_found_deployment-Only d found = push_deployment-Only d _

  follow_deployment-Only :
      (wb : Workbench) (d found : Deployment)
      → Only ServerRequest (follow_deployment P config wb d found)
  unfolding follow_deployment
  follow_deployment-Only wb d found =
      search (
        only_rules,
        update_server_pod_health-Only P,
        save_status-Only,
        update_found_deployment-Only,
      )

  pub server_phase-Only : (wb : Workbench) → Only ServerRequest (server_phase P config wb)
  unfolding server_phase
  server_phase-Only wb =
      search (only_rules, own-Only, create_deployment_if_missing-Only P, follow_deployment-Only)

  pub service_phase-Only : (wb : Workbench) → Only ServerRequest (service_phase P config wb)
  unfolding service_phase
  service_phase-Only wb = search (only_rules, own-Only, create_service_if_missing-Only P)

  pub storage_phase-Only : (wb : Workbench) → Only ServerRequest (storage_phase P config wb)
  unfolding storage_phase
  storage_phase-Only wb =
      search (only_rules, Only-map storage_server (process_enabled_storage-Only P config wb))

  pub prepare-Only : (wb : Workbench) → Only ServerRequest (prepare P config wb)
  unfolding prepare
  prepare-Only wb =
      search (
        only_rules, ensure_finalizer-Only, server_phase-Only, service_phase-Only,
        storage_phase-Only,
      )

  -- The apps.
  update_found_job-Only : (j found : Job) → Only QuietRequest (update_found_job P config j found)
  unfolding update_found_job
  update_found_job-Only j found = search (only_rules, tt)

  pub follow_job-Only :
      (wb : Workbench) (uid : String) (j found : Job)
      → Only QuietRequest (follow_job P config wb uid j found)
  unfolding follow_job
  follow_job-Only wb uid j found =
      search (only_rules, Only-map server_quiet (save_status-Only _ _), update_found_job-Only)
