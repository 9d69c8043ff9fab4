-- ===== src/Cluster/Laws.antt =====
-- The calls of the operations on the cluster.
use workbench_operator.Base.{ℕ, zero, suc, Option, none, some, List, [], ◌∷◌}
use workbench_operator.Kube.{Deployment, Service, Job, Labels}
use workbench_operator.Workbench.{Workbench}
use workbench_operator.Deployment.{workbench_labels}
use workbench_operator.Platform.{Platform, list_jobs}
use workbench_operator.Platform.Only.{Only, Only-call, only_rules}
use workbench_operator.Platform.Requests.{TeardownRequest, ServerRequest, AppsRequest, QuietRequest}
use workbench_operator.Cluster.{
  create_deployment_if_missing, create_service_if_missing, create_job_if_missing,
  health_by_selector, update_server_pod_health, find_jobs, delete_listed_jobs, delete_jobs,
  delete_listed_deployments, delete_deployments, after_jobs, delete_external_resources,
}

module _ (P : Platform) where
  find_jobs-Only : (wb : Workbench) → Only TeardownRequest (find_jobs P wb)
  unfolding find_jobs
  find_jobs-Only wb = Only-call P (list_jobs (workbench_labels wb)) tt

  delete_listed_jobs-Only :
      (wb : Workbench) (js : List Job) → Only TeardownRequest (delete_listed_jobs P wb js)
  unfolding delete_listed_jobs
  delete_listed_jobs-Only wb [] = search only_rules
  delete_listed_jobs-Only wb (j ∷ js) = search (only_rules, tt)

  delete_listed_deployments-Only :
      (wb : Workbench) (ds : List Deployment)
      → Only TeardownRequest (delete_listed_deployments P wb ds)
  unfolding delete_listed_deployments
  delete_listed_deployments-Only wb [] = search only_rules
  delete_listed_deployments-Only wb (d ∷ ds) = search (only_rules, tt)

  delete_jobs-Only : (wb : Workbench) → Only TeardownRequest (delete_jobs P wb)
  unfolding delete_jobs
  delete_jobs-Only wb = search (only_rules, find_jobs-Only, delete_listed_jobs-Only)

  delete_deployments-Only : (wb : Workbench) → Only TeardownRequest (delete_deployments P wb)
  unfolding delete_deployments
  delete_deployments-Only wb = search (only_rules, tt, delete_listed_deployments-Only)

  after_jobs-Only : (wb : Workbench) (n : ℕ) → Only TeardownRequest (after_jobs P wb n)
  unfolding after_jobs
  after_jobs-Only wb zero = delete_deployments-Only wb
  after_jobs-Only wb (suc n) = search only_rules

  pub delete_external_resources-Only :
      (wb : Workbench) → Only TeardownRequest (delete_external_resources P wb)
  unfolding delete_external_resources
  delete_external_resources-Only wb = search (only_rules, tt, delete_jobs-Only, after_jobs-Only)

  pub create_deployment_if_missing-Only :
      (d : Deployment) → Only ServerRequest (create_deployment_if_missing P d)
  unfolding create_deployment_if_missing
  create_deployment_if_missing-Only d = search (only_rules, tt)

  pub create_service_if_missing-Only :
      (s : Service) → Only ServerRequest (create_service_if_missing P s)
  unfolding create_service_if_missing
  create_service_if_missing-Only s = search (only_rules, tt)

  pub create_job_if_missing-Only : (j : Job) → Only AppsRequest (create_job_if_missing P j)
  unfolding create_job_if_missing
  create_job_if_missing-Only j = search (only_rules, tt) depth 8

  health_by_selector-Only :
      (wb : Workbench) (o : Option Labels) → Only ServerRequest (health_by_selector P wb o)
  unfolding health_by_selector
  health_by_selector-Only wb none = search only_rules
  health_by_selector-Only wb (some labels) = search (only_rules, tt)

  pub update_server_pod_health-Only :
      (wb : Workbench) (d : Deployment) → Only ServerRequest (update_server_pod_health P wb d)
  unfolding update_server_pod_health
  update_server_pod_health-Only wb d = health_by_selector-Only wb d.selector

  pub find_jobs-apps : (wb : Workbench) → Only AppsRequest (find_jobs P wb)
  unfolding find_jobs
  find_jobs-apps wb = Only-call P (list_jobs (workbench_labels wb)) tt

  pub find_jobs-quiet : (wb : Workbench) → Only QuietRequest (find_jobs P wb)
  unfolding find_jobs
  find_jobs-quiet wb = Only-call P (list_jobs (workbench_labels wb)) tt
