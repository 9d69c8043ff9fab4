-- ===== src/Tests/Settled.antt =====
-- A workbench with one app whose server runs, on a cluster that is as it should be.
use workbench_operator.Base.{
  true, false, some, [], ◌∷◌, ◌≡◌, refl, inl, inr, string_eq, pos, negsuc, int_eq, atoi, nat_eq,
  bool_eq, differ,
}
use workbench_operator.Base.Dict.{lookup}
use workbench_operator.Kube.{Deployment}
use workbench_operator.Workbench.{Workbench, server_running, app_running, ready}
use workbench_operator.Workbench.Status.{update_status_from_deployment, update_status_from_job}
use workbench_operator.Deployment
use workbench_operator.Deployment.{init_deployment, update_deployment}
use workbench_operator.Health
use workbench_operator.Health.{set_server_pod_health, pods_health}
use workbench_operator.Job.{get_app_name, is_suspended, job_name}
use workbench_operator.Storage.{local_pv, new_local_provider, create_pvc as pvc_of}
use workbench_operator.Platform.{
  Answer, ok, err, not_found, Request, Response, get_workbench, update_workbench,
  update_workbench_status, get_deployment, create_deployment,
  update_deployment as update_deployment_request, list_deployments, delete_all_deployments,
  get_service, create_service, get_job, create_job, update_job, delete_job, list_jobs,
  delete_all_jobs, list_pods, get_pv, create_pv, get_pvc, create_pvc, get_csi_driver, get_secret,
  record_event, look_path, read_passwd, Platform,
}
use workbench_operator.Cluster.Settled.{AllRead, Target, SettledAnswer}
use workbench_operator.Reconcile.{reconcile_live}
use workbench_operator.Reconcile.Settled.{IsSettled, IsSettledApp}
use workbench_operator.Reconcile.Settled.Apps.{reconcile_live-AllRead}
use workbench_operator.Tests.Samples.{config, bench, app, job, pod, service, available, start}

abbrev running_deployment : Deployment
running_deployment = record (init_deployment bench config) { conditions = available ∷ [] }

abbrev running_bench : Workbench
running_bench = record bench {
  status = record {
    server_deployment = record {
      revision = negsuc 0;
      status = server_running;
      server_pod = some (record {
        status = ready;
        is_ready = true;
        restart_count = pos 0;
        message = "Container is ready";
      });
    };
    apps = ("app1", record { revision = negsuc 0; status = app_running }) ∷ [];
  };
}

unfoldable answers : (q : Request) → Answer (Response q)
answers (get_deployment _) = ok running_deployment
answers (list_pods _ _) = ok (pod ∷ [])
answers (get_service _) = ok service
answers (get_pv _) = ok (local_pv config (new_local_provider config) "team")
answers (get_pvc _) = ok (pvc_of (new_local_provider config) bench)
answers (get_job _) = ok job
answers (list_jobs _) = ok (job ∷ [])
answers _ = err not_found

abbrev running_platform : Platform
running_platform = record {
  State = Unit {0};
  answer = λ q s. (answers q, s);
  clock = λ _. 1000;
  set_controller_reference = λ wb m. ok (record m { owners = wb.metadata.name ∷ [] });
  contains_finalizer = λ _ _. true;
  add_finalizer = λ m _. (m, false);
  remove_finalizer = λ m _. (m, true);
}

abbrev target : Target
target = record {
  deployment = running_deployment;
  jobs = λ _. some job;
  kept = "bench-app1-wezterm" ∷ [];
}

running_status :
    update_status_from_deployment running_bench running_deployment ≡ (running_bench, false)
unfolding string_eq update_status_from_deployment int_eq nat_eq atoi init_deployment
running_status = refl

running_images :
    update_deployment (init_deployment running_bench config) running_deployment
    ≡ some (running_deployment, false)
unfolding string_eq update_deployment init_deployment Deployment.server_image nat_eq
running_images = refl

running_app : IsSettledApp target running_bench "app1" app
unfolding string_eq int_eq nat_eq update_status_from_job job_name is_suspended get_app_name lookup
running_app = (differ "wezterm" "" refl, inr (job, refl, refl, refl, refl))

settled_answers :
    (q : Request) (s : running_platform.State)
    → SettledAnswer running_bench target (q, (running_platform.answer q s).0)
unfolding answers string_eq int_eq nat_eq set_server_pod_health pods_health Health.status_eq bool_eq
settled_answers (get_workbench _) s = tt
settled_answers (update_workbench _) s = tt
settled_answers (update_workbench_status _) s = tt
settled_answers (get_deployment _) s = refl
settled_answers (create_deployment _) s = tt
settled_answers (update_deployment_request _) s = tt
settled_answers (list_deployments _) s = tt
settled_answers (delete_all_deployments _ _) s = tt
settled_answers (get_service _) s = tt
settled_answers (create_service _) s = tt
settled_answers (get_job _) s = refl
settled_answers (create_job _) s = tt
settled_answers (update_job _) s = tt
settled_answers (delete_job _) s = tt
settled_answers (list_jobs _) s = (inl refl, tt)
settled_answers (delete_all_jobs _ _) s = tt
settled_answers (list_pods _ _) s = λ now. refl
settled_answers (get_pv _) s = tt
settled_answers (create_pv _) s = tt
settled_answers (get_pvc _) s = tt
settled_answers (create_pvc _) s = tt
settled_answers (get_csi_driver _) s = tt
settled_answers (get_secret _) s = tt
settled_answers (record_event _ _ _) s = tt
settled_answers (look_path _) s = tt
settled_answers (read_passwd _ _) s = tt

running_bench-IsSettled : IsSettled running_platform config running_bench target
unfolding string_eq job_name
running_bench-IsSettled = record {
  held = refl;
  images = running_images;
  status = running_status;
  owner = λ m. refl;
  apps = (running_app, tt);
  kept = refl;
  answers = settled_answers;
}

reconcile_live-AllRead_example :
    AllRead
      (reconcile_live running_platform config running_bench (start running_platform tt)).1.history
reconcile_live-AllRead_example =
    reconcile_live-AllRead running_platform config running_bench target (start running_platform tt)
      running_bench-IsSettled refl
