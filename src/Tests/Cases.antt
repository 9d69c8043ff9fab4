-- ===== src/Tests/Cases.antt =====
-- The theorems about whole runs, applied to sample objects and clusters.
use workbench_operator.Base.{
  pos, String, List, true, false, none, some, [], ◌∷◌, ◌≡◌, refl, ◌≢◌, ◌⊎◌, inl, inr, All, arith,
  string_eq,
}
use workbench_operator.Base.Dict.{lookup}
use workbench_operator.Deployment.{workbench_labels}
use workbench_operator.Kube.{Container, SecurityContext, Job, Volume, VolumeMount}
use workbench_operator.Kube.Zero.{object_meta}
use workbench_operator.Job.Passwd.{collisions}
use workbench_operator.Job.Passwd.Print.{
  Entry, IsEntry, print_passwd, reserved_users, collisions-print,
}
use workbench_operator.Job.Init.{init_job}
use workbench_operator.Job.Init.Fits.{FitsApp, init_job_lem}
use workbench_operator.Job.Init.Distinct.{FitsPod, init_job-FitsPod}
use workbench_operator.Job.{build_job}
use workbench_operator.Job.Laws.{IsConfined}
use workbench_operator.Main.{TlsConfig, config_of, default_flags, manager_options}
use workbench_operator.Main.Laws.{apply_all, manager_options-http2, default_flags_are_safe}
use workbench_operator.Storage.{local, get_enabled_providers, get_volume_mount_specs}
use workbench_operator.Storage.Manager
use workbench_operator.Platform.Monad
use workbench_operator.Tests.Samples
use workbench_operator.Storage.Manager.{process_enabled_storage, get_volume_and_mount_specs}
use workbench_operator.Kube.Distinct.{mount_paths}
use workbench_operator.Storage.Manager.Order.{IsBacked, process_enabled_storage-IsBacked}
use workbench_operator.Platform.{list_jobs, ok}
use workbench_operator.Platform.Monad.{
  value, Outcome, returned, error, requeue_after, is_suspended_job, Result,
}
use workbench_operator.Cluster.{key_of, create_deployment_if_missing, create_job_if_missing}
use workbench_operator.Cluster.Ensure.{
  IsEnsured, create_deployment_if_missing-IsEnsured, create_job_if_missing-IsEnsured,
}
use workbench_operator.Reconcile.{reconcile_deleted, reconcile_live, clean_up, verdict}
use workbench_operator.Reconcile.Cleanup.{deleted, extra_jobs, clean_up-deleted}
use workbench_operator.Reconcile.Guarded.{IsGuarded, with_finalizer, reconcile_live-IsGuarded}
use workbench_operator.Reconcile.Teardown.{outside}
use workbench_operator.Reconcile.Teardown.Runs.{runs}
use workbench_operator.Reconcile.Teardown.Progress.{
  Step, view, GivesUp, reconcile_deleted-Step, runs-GivesUp, runs-requeue,
}
use workbench_operator.Workbench.{Workbench}
use workbench_operator.Workbench.Status.{set_app_status_failed, update_status_from_job}
use workbench_operator.Workbench.Status.Allowed.{
  IsAllowed, here, next, failure, from_job, IsUpdateOf, Updates-IsUpdateOf,
}
use workbench_operator.Tests.Samples.{
  config, app, bench, deleted_bench, deployment, job, service, serving_platform, fresh_platform,
  storing_platform, full_bench, provisioning_platform, local_config, local_bench, start,
}
use workbench_operator.Tests.Clusters.{
  deleting_cluster, deployment_cluster, job_cluster, deletes_each, deleting_keeps_word,
  stores_deployments, stores_jobs, deleting,
}

init_job_lem_example :
    (r : Result Job) × ((init_job serving_platform bench config "app1" app service
        (start serving_platform tt)).0
      ≡ value r)
    × FitsApp bench config "app1" app r
init_job_lem_example =
    init_job_lem serving_platform bench config "app1" app service (start serving_platform tt)

init_job-FitsPod_example :
    (r : Result Job) × ((init_job serving_platform bench config "app1" app service
        (start serving_platform tt)).0
      ≡ value r)
    × FitsPod config bench r
init_job-FitsPod_example =
    init_job-FitsPod serving_platform config bench "app1" app service (start serving_platform tt)

abbrev given_paths : Outcome (Result (List Volume × List VolumeMount)) → List String
given_paths (value (returned (_, ms))) = mount_paths ms
given_paths _ = []

-- With every storage on, two of the mounts have one path.
shared_path :
    given_paths
      (get_volume_and_mount_specs storing_platform local_config full_bench "ada" "team"
        (start storing_platform tt)).0
    ≡ "/mnt/workspace-archive" ∷ "/mnt/app_data" ∷ "/mnt/workspace-scratch" ∷ "/mnt/workspace-local"
      ∷ "/mnt/app_data" ∷ []
unfolding get_volume_and_mount_specs Monad.◌>>=◌ get_enabled_providers Manager.has_secret
    Manager.s3_secret_config Manager.get_provider_secret Samples.storing Manager.nfs_secret_config
    string_eq get_volume_mount_specs
shared_path = refl

-- Of the two jobs that are listed one is to be kept.
abbrev other_job : Job
other_job = record job { metadata = object_meta "bench-old-wezterm" "team" [] }

clean_up-deleted_example :
    ((clean_up deleting_cluster config bench
        ("bench-app1-wezterm" ∷ [])
        (start deleting_cluster (job ∷ other_job ∷ [], []))).0
      ≡ value tt)
    × ((clean_up deleting_cluster config bench
          ("bench-app1-wezterm" ∷ [])
          (start deleting_cluster (job ∷ other_job ∷ [], []))).1.history
        ≡ deleted
            (extra_jobs ("bench-app1-wezterm" ∷ []) (job ∷ other_job ∷ []))
            ((list_jobs (workbench_labels bench), ok (job ∷ other_job ∷ [])) ∷ []))
unfolding deleting
clean_up-deleted_example =
    clean_up-deleted deleting_cluster config bench ("bench-app1-wezterm" ∷ [])
      (job ∷ other_job ∷ []) (start deleting_cluster (job ∷ other_job ∷ [], [])) deletes_each refl

process_enabled_storage-IsBacked_example :
    IsBacked
      (process_enabled_storage provisioning_platform local_config local_bench
        (start provisioning_platform tt)).1.history
process_enabled_storage-IsBacked_example =
    process_enabled_storage-IsBacked provisioning_platform local_config local_bench
      (start provisioning_platform tt) refl

reconcile_deleted-Step_example :
    let (o, w') =
      reconcile_deleted deleting_cluster config deleted_bench
        (start deleting_cluster (job ∷ [], deployment ∷ [])) in
    Step "team"
      (view deleted_bench deleting_keeps_word (job ∷ [], deployment ∷ []))
      (verdict deleting_cluster config o)
      (view deleted_bench deleting_keeps_word w'.state)
reconcile_deleted-Step_example =
    reconcile_deleted-Step deleting_cluster config deleted_bench deleting_keeps_word
      (start deleting_cluster (job ∷ [], deployment ∷ [])) refl refl

runs-GivesUp_example : GivesUp deleting_cluster deleted_bench (
    runs deleting_cluster config deleted_bench 3
      (start deleting_cluster (job ∷ [], deployment ∷ [])))
unfolding string_eq deleting_keeps_word
runs-GivesUp_example =
    runs-GivesUp deleting_cluster config deleted_bench deleting_keeps_word
      (start deleting_cluster (job ∷ [], deployment ∷ [])) refl refl refl refl

-- A job of a workbench of the same name in another namespace.
abbrev foreign_job : Job
foreign_job = record job { metadata = object_meta "bench-app1-wezterm" "other" [] }

foreign : outside (λ j. j.metadata) "team" (deleting_keeps_word.jobs (foreign_job ∷ [], [])) ≢ []
unfolding string_eq deleting_keeps_word
foreign e = ground arith

runs-requeue_example :
    (runs deleting_cluster config deleted_bench 20
      (start deleting_cluster (foreign_job ∷ [], []))).0
    ≡ requeue_after 5
unfolding string_eq deleting_keeps_word
runs-requeue_example =
    runs-requeue deleting_cluster config deleted_bench deleting_keeps_word
      (start deleting_cluster (foreign_job ∷ [], [])) 20 refl foreign

create_deployment_if_missing-IsEnsured_example :
    let (o, w') =
      create_deployment_if_missing deployment_cluster deployment
        (start deployment_cluster (λ _. none)) in
    (b : _) × (o ≡ value (returned b))
    × IsEnsured stores_deployments.holds (key_of deployment.metadata) b (λ _. none) w'.state
create_deployment_if_missing-IsEnsured_example =
    create_deployment_if_missing-IsEnsured deployment_cluster stores_deployments deployment
      (start deployment_cluster (λ _. none))

create_job_if_missing-IsEnsured_example :
    let (o, w') = create_job_if_missing job_cluster job (start job_cluster (λ _. none)) in
    ((f : Job) × (stores_jobs.holds (key_of job.metadata) (λ _. none) ≡ some f)
      × (o ≡ value (returned (some f)))
      × (w'.state ≡ λ _. none))
    ⊎ ((stores_jobs.holds (key_of job.metadata) (λ _. none) ≡ none)
        × (job.suspend ≡ some true)
        × ((e : _) × (o ≡ value (error e)) × (is_suspended_job e ≡ true))
        × (w'.state ≡ λ _. none))
    ⊎ ((stores_jobs.holds (key_of job.metadata) (λ _. none) ≡ none)
        × (job.suspend ≢ some true)
        × (o ≡ value (returned none))
        × ((b : Job) × IsEnsured stores_jobs.holds (key_of job.metadata) b (λ _. none) w'.state))
create_job_if_missing-IsEnsured_example =
    create_job_if_missing-IsEnsured job_cluster stores_jobs job (start job_cluster (λ _. none))

reconcile_live-IsGuarded_example :
    IsGuarded
      (with_finalizer fresh_platform config bench)
      (reconcile_live fresh_platform config bench (start fresh_platform tt)).1.history
reconcile_live-IsGuarded_example =
    reconcile_live-IsGuarded fresh_platform config bench (start fresh_platform tt) refl refl refl

allowed : IsAllowed bench.status
unfolding lookup
allowed = record {
  server = inr (inr (inl refl));
  known = (inr (inr (inl refl)), tt);
  keys = (refl, tt);
}

abbrev failed_bench : Workbench
failed_bench = (set_app_status_failed bench "app1").0

Updates-IsUpdateOf_example : IsUpdateOf bench (update_status_from_job failed_bench "app1" job).0
Updates-IsUpdateOf_example =
    Updates-IsUpdateOf (next (next here (failure "app1" refl)) (from_job "app1" job refl)) allowed

abbrev offered : TlsConfig
offered = record { next_protos = "h2" ∷ [] }

manager_options-http2_example :
    let metrics = apply_all (manager_options default_flags).metrics_tls_opts offered in
    let webhook = apply_all (manager_options default_flags).webhook_tls_opts offered in
    ((default_flags.enable_http2 ≡ false)
      × (metrics.next_protos ≡ "http/1.1" ∷ [])
      × (webhook.next_protos ≡ "http/1.1" ∷ []))
    ⊎ ((default_flags.enable_http2 ≡ true) × (metrics ≡ offered) × (webhook ≡ offered))
manager_options-http2_example = manager_options-http2 default_flags offered

default_flags_are_safe_example :
    let p = (build_job bench (config_of default_flags) "app1" app service [] []).template.spec in
    All (λ b. b.storage_type ≢ local) (get_enabled_providers (config_of default_flags) bench)
    × ((c : Container) × (s : SecurityContext) × (p.containers ≡ c ∷ [])
        × (c.security_context ≡ some s)
        × IsConfined s
        × (s.run_as_user ≡ some bench.spec.server.user_id))
    × ((c : Container) × (s : SecurityContext) × (p.init_containers ≡ c ∷ [])
        × (c.security_context ≡ some s)
        × (s.run_as_user ≡ some (pos 0))
        × (s.allow_privilege_escalation ≡ some false)
        × (s.privileged ≢ some true)
        × (s.capabilities
            ≡ some (record {
              add = "CHOWN" ∷ "SETUID" ∷ "SETGID" ∷ "DAC_OVERRIDE" ∷ "FOWNER" ∷ [];
              drop = "ALL" ∷ [];
            })))
default_flags_are_safe_example = default_flags_are_safe bench "app1" app service [] []

abbrev ada : Entry
ada = record { user = "ada"; uid = 1001; others = "1001::/home/ada:/bin/sh" }

ada-IsEntry : IsEntry ada
ada-IsEntry = record {
  no_colon = omega arith;
  user_line = omega arith;
  others_line = omega arith;
  small = omega arith;
}

collisions-print_example : collisions (print_passwd (ada ∷ [])) ≡ reserved_users (ada ∷ [])
collisions-print_example = collisions-print (ada ∷ []) (ada-IsEntry, tt)
