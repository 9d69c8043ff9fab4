-- ===== src/Cluster.antt =====
-- The operations of the reconciler on one kind of object: createDeployment, createService,
-- createJob and updateServerPodHealth of internal/controller/workbench_controller.go, and findJobs,
-- deleteJob, deleteJobs and deleteDeployments of job.go and deployment.go.
pub mod Laws
pub mod Ensure
pub mod Settled
pub mod Converge
pub mod Jobs
use workbench_operator.Base.{
  ℕ, zero, suc, String, ◌<>◌, Bool, true, false, Option, none, some, List, [], ◌∷◌, length, bool_eq,
  ◌==◌, if◌then◌else◌,
}
use workbench_operator.Kube.{ObjectKey, ObjectMeta, Labels, Deployment, Service, Job, Pod, Time}
use workbench_operator.Workbench.{Workbench, ServerPodHealth}
use workbench_operator.Deployment.{workbench_labels}
use workbench_operator.Health.{pods_health, list_failed_health, set_server_pod_health}
use workbench_operator.Platform.{
  not_found, other, Answer, ok, err, get_deployment, create_deployment, list_deployments,
  delete_all_deployments, get_service, create_service, get_job, create_job, list_jobs, delete_job,
  delete_all_jobs, list_pods, record_event, Platform,
}
use workbench_operator.Platform.Monad.{
  Error, api, suspended_job, wrapped, Result, returned, error, panicked, M, call, read_clock, pure,
  stop, ◌>>=◌, ◌>>◌, on_answer, on_result, on_found,
}

abbrev pub key_of : ObjectMeta → ObjectKey
key_of m = record { name = m.name; namespace = m.namespace }

-- `job.Spec.Suspend != nil && *job.Spec.Suspend == true`
abbrev pub asks_suspend : Option Bool → Bool
asks_suspend none = false
asks_suspend (some b) = b

abbrev listed_health : Time → Answer (List Pod) → ServerPodHealth
listed_health now (ok pods) = pods_health now pods
listed_health now (err _) = list_failed_health

module _ (P : Platform) where
  -- The deployment as it was found or created.
  unfoldable pub create_deployment_if_missing : Deployment → M P (Result Deployment)
  create_deployment_if_missing d = do
    found ← call P (get_deployment (key_of d.metadata))
    on_found found (λ f. pure (returned f))
        (do
          made ← call P (create_deployment d)
          on_answer made (λ f. pure (returned f)) (λ e. pure (error (api e))))
        (λ e. pure (error (api e)))

  unfoldable pub create_service_if_missing : Service → M P (Result (Unit {0}))
  create_service_if_missing s = do
    found ← call P (get_service (key_of s.metadata))
    on_found found (λ _. pure (returned tt))
        (do
          made ← call P (create_service s)
          on_answer made (λ _. pure (returned tt)) (λ e. pure (error (api e))))
        (λ e. pure (error (api e)))

  -- The existing job, or `none` where the job was created. A missing job that is to be suspended is
  -- not created.
  unfoldable pub create_job_if_missing : Job → M P (Result (Option Job))
  create_job_if_missing j = do
    found ← call P (get_job (key_of j.metadata))
    on_found found (λ f. pure (returned (some f)))
        (if asks_suspend j.suspend
          then pure (error (wrapped ("skipping job \"" <> j.metadata.name <> "\"") suspended_job))
          else (do
            made ← call P (create_job j)
            on_answer made (λ _. pure (returned none)) (λ e. pure (error (api e)))))
        (λ e. pure (error (api e)))

  -- `none` for the selector is the nil pointer that the code would follow.
  health_by_selector : Workbench → Option Labels → M P (Workbench × Bool)
  health_by_selector wb none = stop panicked
  health_by_selector wb (some labels) = do
    listed ← call P (list_pods wb.metadata.namespace labels)
    now ← read_clock P
    pure (set_server_pod_health wb (listed_health now listed))

  unfoldable pub update_server_pod_health : Workbench → Deployment → M P (Workbench × Bool)
  unfolding health_by_selector
  update_server_pod_health wb d = health_by_selector wb d.selector

  -- The jobs with the label of the workbench, in every namespace.
  unfoldable pub find_jobs : Workbench → M P (Answer (List Job))
  find_jobs wb = call P (list_jobs (workbench_labels wb))

  unfoldable pub delete_listed_jobs : Workbench → List Job → M P (Result ℕ)
  delete_listed_jobs wb [] = pure (returned 0)
  delete_listed_jobs wb (j ∷ js) = do
    gone ← call P (delete_all_jobs wb.metadata.namespace (workbench_labels wb))
    on_answer gone (λ _. pure (returned (length (j ∷ js)))) (λ e. pure (error (api e)))

  -- How many jobs were found, and with this asked to go.
  unfoldable pub delete_jobs : Workbench → M P (Result ℕ)
  unfolding find_jobs delete_listed_jobs
  delete_jobs wb = do
    found ← find_jobs wb
    on_answer found (delete_listed_jobs wb) (λ e. pure (error (api e)))

  unfoldable pub delete_listed_deployments : Workbench → List Deployment → M P (Result ℕ)
  delete_listed_deployments wb [] = pure (returned 0)
  delete_listed_deployments wb (d ∷ ds) = do
    gone ← call P (delete_all_deployments wb.metadata.namespace (workbench_labels wb))
    on_answer gone (λ _. pure (returned (length (d ∷ ds)))) (λ e. pure (error (api e)))

  unfoldable pub delete_deployments : Workbench → M P (Result ℕ)
  unfolding delete_listed_deployments
  delete_deployments wb = do
    found ← call P (list_deployments (workbench_labels wb))
    on_answer found (delete_listed_deployments wb) (λ e. pure (error (api e)))

  unfoldable pub after_jobs : Workbench → ℕ → M P (Result ℕ)
  after_jobs wb zero = delete_deployments wb
  after_jobs wb (suc n) = pure (returned (suc n))

  -- First the apps, then the server.
  unfoldable pub delete_external_resources : Workbench → M P (Result ℕ)
  unfolding after_jobs
  delete_external_resources wb = do
    _ ← call P (
        record_event "Normal" "DeletingDeployments" (
          "Deleting deployment \"workbench=" <> wb.metadata.name <> "\" from the namespace \""
          <> wb.metadata.namespace <> "\""))
    jobs ← delete_jobs wb
    on_result jobs (after_jobs wb) (λ e. pure (error e))
