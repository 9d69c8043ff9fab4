-- ===== src/Reconcile/Live.antt =====
-- The calls of the phase of the apps.
use workbench_operator.Base.{Bool, true, false, String, Option, none, some, List, [], ◌∷◌}
use workbench_operator.Base.Dict.{Dict}
use workbench_operator.Config.{Config}
use workbench_operator.Kube.{Service, Job, ObjectMeta}
use workbench_operator.Workbench.{Workbench, WorkbenchApp}
use workbench_operator.Platform.{Platform}
use workbench_operator.Platform.Only.{Only, Only-map, Only-bind, only_rules}
use workbench_operator.Platform.Requests.{AppsRequest, init_apps}
use workbench_operator.Cluster.Laws.{create_job_if_missing-Only, find_jobs-apps}
use workbench_operator.Job.Init.{init_job}
use workbench_operator.Job.Init.Laws.{init_job-Only}
use workbench_operator.Reconcile.{
  update_found_job, follow_job, keep_job, run_job, reconcile_app, reconcile_apps, delete_if_extra,
  delete_extra_jobs, clean_up, apps_phase, own, save_status,
}

module _ (P : Platform) (config : Config) where
  own_live : (wb : Workbench) (m : ObjectMeta) → Only AppsRequest (own P config wb m)
  unfolding own
  own_live wb m = search only_rules

  save_live : (b : Bool) (wb : Workbench) → Only AppsRequest (save_status P config b wb)
  unfolding save_status
  save_live false wb = search only_rules
  save_live true wb = search (only_rules, tt)

  init_live :
      (wb : Workbench) (service : Service) (uid : String) (app : WorkbenchApp)
      → Only AppsRequest (init_job P wb config uid app service)
  init_live wb service uid app = Only-map init_apps (init_job-Only P wb config uid app service)

  update_found_job-Only : (j found : Job) → Only AppsRequest (update_found_job P config j found)
  unfolding update_found_job
  update_found_job-Only j found = search (only_rules, tt)

  follow_job-Only :
      (wb : Workbench) (uid : String) (j found : Job)
      → Only AppsRequest (follow_job P config wb uid j found)
  unfolding follow_job
  follow_job-Only wb uid j found = search (only_rules, save_live, update_found_job-Only)

  keep_job-Only :
      (wb : Workbench) (uid : String) (j : Job) (o : Option Job)
      → Only AppsRequest (keep_job P config wb uid j o)
  unfolding keep_job
  keep_job-Only wb uid j none = search only_rules
  keep_job-Only wb uid j (some found) = search (only_rules, follow_job-Only)

  run_job-Only :
      (wb : Workbench) (uid : String) (j : Job) → Only AppsRequest (run_job P config wb uid j)
  unfolding run_job
  run_job-Only wb uid j = search (only_rules, create_job_if_missing-Only P, keep_job-Only)

  reconcile_app-Only :
      (wb : Workbench) (service : Service) (uid : String) (app : WorkbenchApp)
      → Only AppsRequest (reconcile_app P config wb service uid app)
  unfolding reconcile_app
  reconcile_app-Only wb service uid app =
      search (only_rules, init_live, own_live, run_job-Only, save_live) depth 8

  reconcile_apps-Only :
      (service : Service) (apps : Dict WorkbenchApp) (wb : Workbench) (names : List String)
      → Only AppsRequest (reconcile_apps P config service apps wb names)
  unfolding reconcile_apps
  reconcile_apps-Only service [] wb names = search only_rules
  reconcile_apps-Only service ((uid, app) ∷ apps) wb names =
      search (only_rules, reconcile_app-Only, reconcile_apps-Only service apps)

  delete_if_extra-Only :
      (names : List String) (j : Job) → Only AppsRequest (delete_if_extra P config names j)
  unfolding delete_if_extra
  delete_if_extra-Only names j = search (only_rules, tt)

  delete_extra_jobs-Only :
      (names : List String) (js : List Job) → Only AppsRequest (delete_extra_jobs P config names js)
  unfolding delete_extra_jobs
  delete_extra_jobs-Only names [] = search only_rules
  delete_extra_jobs-Only names (j ∷ js) =
      Only-bind (delete_if_extra-Only names j) (λ _. delete_extra_jobs-Only names js)

  clean_up-Only :
      (wb : Workbench) (names : List String) → Only AppsRequest (clean_up P config wb names)
  unfolding clean_up
  clean_up-Only wb names = search (only_rules, find_jobs-apps P, delete_extra_jobs-Only)

  pub apps_phase-Only :
      (wb : Workbench) (service : Service) → Only AppsRequest (apps_phase P config wb service)
  unfolding apps_phase
  apps_phase-Only wb service = search (only_rules, reconcile_apps-Only, clean_up-Only)
