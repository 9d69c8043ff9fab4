-- ===== src/Tests/Stores/Cluster.antt =====
-- A cluster that keeps deployments, services and jobs in lists.
mod Runs
use workbench_operator.Base.{
  true, false, some, List, [], ◌∷◌, ◌≡◌, refl, ◌≢◌, ◌&&◌, arith, ap, ◌∙◌, string_eq, nat_eq, ◌==◌,
  if◌then◌else◌,
}
use mathlib.Core.Path.{subst}
use workbench_operator.Kube.{ObjectKey, Deployment, Service, Job}
use workbench_operator.Workbench.{Workbench}
use workbench_operator.Deployment
use workbench_operator.Deployment.{init_deployment, update_deployment as update_deployment_of}
use workbench_operator.Platform.{
  Answer, ok, err, not_found, Request, Response, update_workbench, update_workbench_status,
  get_deployment, create_deployment, update_deployment, get_service, create_service, get_job,
  create_job, update_job, delete_job, delete_all_jobs, list_jobs, list_pods, Platform,
}
use workbench_operator.Platform.Monad.{value}
use workbench_operator.Cluster.{key_of}
use workbench_operator.Cluster.Ensure.{found_answer}
use workbench_operator.Cluster.Converge.{
  init_deployment-IsUsable, InSync, LeavesDeployments, LeavesServices, IsUsable, IsStoredAs,
  IsSameBench, StoresServer,
}
use workbench_operator.Cluster.Converge.Calls.{Holds, HoldsUsable, HasService}
use workbench_operator.Reconcile.{prepare, reconcile}
use workbench_operator.Reconcile.Converge.{HoldsInSync}
use workbench_operator.Reconcile.Converge.Prepare.{prepare-Converges}
use workbench_operator.Reconcile.Converge.Stays.{prepare-Stays}
use workbench_operator.Platform.Only.{Extends}
use workbench_operator.Reconcile.Role.{IsGranted, are_granted, role, watched, reconcile-IsGranted}
use workbench_operator.Cluster.Jobs.{TakesNothing, StoresApps}
use workbench_operator.Tests.Samples.{pod, key, config, bench, deployment, start}
use workbench_operator.Tests.Stores.{
  same_key, some-injective, find, find-keyed, add, replace, add-stores, add-other, add-same,
  replace-stores, add-kept, replace-kept, remove, remove-other,
}

abbrev pub Kept : Type 0
Kept = List Deployment × (List Service × List Job)

abbrev pub deployment_key : Deployment → ObjectKey
deployment_key d = key_of d.metadata

abbrev service_key : Service → ObjectKey
service_key x = key_of x.metadata

abbrev job_key : Job → ObjectKey
job_key j = key_of j.metadata

pub serving : (q : Request) → Kept → Answer (Response q) × Kept
unfolding find add replace remove
serving (get_deployment k) (ds, (xs, js)) =
    (found_answer (find deployment_key k ds), (ds, (xs, js)))
serving (create_deployment d) (ds, (xs, js)) =
    let (a, ds') = add deployment_key d ds (find deployment_key (deployment_key d) ds) in
    (a, (ds', (xs, js)))
serving (update_deployment d) (ds, (xs, js)) =
    let (a, ds') = replace deployment_key d ds (find deployment_key (deployment_key d) ds) in
    (a, (ds', (xs, js)))
serving (get_service k) (ds, (xs, js)) = (found_answer (find service_key k xs), (ds, (xs, js)))
serving (create_service x) (ds, (xs, js)) =
    let (a, xs') = add service_key x xs (find service_key (service_key x) xs) in
    (a, (ds, (xs', js)))
serving (update_workbench wb) s = (ok wb, s)
serving (update_workbench_status wb) s = (ok wb, s)
serving (get_job k) (ds, (xs, js)) = (found_answer (find job_key k js), (ds, (xs, js)))
serving (create_job j) (ds, (xs, js)) =
    let (a, js') = add job_key j js (find job_key (job_key j) js) in (a, (ds, (xs, js')))
serving (update_job j) (ds, (xs, js)) =
    let (a, js') = replace job_key j js (find job_key (job_key j) js) in (a, (ds, (xs, js')))
serving (delete_job j) (ds, (xs, js)) = (ok tt, (ds, (xs, remove job_key (job_key j) js)))
serving (list_jobs _) (ds, (xs, js)) = (ok js, (ds, (xs, js)))
serving (list_pods _ _) s = (ok (pod ∷ []), s)
serving _ s = (err not_found, s)

abbrev pub serving_cluster : Platform
serving_cluster = record {
  State = Kept;
  answer = serving;
  clock = λ _. 1000;
  set_controller_reference = λ wb m. ok (record m { owners = wb.metadata.name ∷ [] });
  contains_finalizer = λ _ _. false;
  add_finalizer = λ m f. (record m { finalizers = f ∷ [] }, true);
  remove_finalizer = λ m _. (record m { finalizers = [] }, true);
}

deployments_left : (q : Request) (s : Kept) → LeavesDeployments q → (serving q s).1.0 ≡ s.0
unfolding serving
deployments_left (create_deployment _) s l = absurd l
deployments_left (update_deployment _) s l = absurd l
deployments_left _ s l = refl

services_left : (q : Request) (s : Kept) → LeavesServices q → (serving q s).1.1.0 ≡ s.1.0
unfolding serving
services_left (create_service _) s l = absurd l
services_left _ s l = refl

pub stores_server : StoresServer serving_cluster
unfolding serving
stores_server = record {
  deployments = record {
    holds = λ k s. find deployment_key k s.0;
    gets = λ k s. refl;
    creates = λ d s free.
        add-stores deployment_key d s.0 (find deployment_key (deployment_key d) s.0) free;
    spares =
        λ d s k n. add-other deployment_key k d s.0 (find deployment_key (deployment_key d) s.0) n;
  };
  services = record {
    holds = λ k s. find service_key k s.1.0;
    gets = λ k s. refl;
    creates =
        λ x s free. add-stores service_key x s.1.0 (find service_key (service_key x) s.1.0) free;
    spares = λ x s k n. add-other service_key k x s.1.0 (find service_key (service_key x) s.1.0) n;
  };
  keyed = λ k d s held. find-keyed deployment_key k s.0 d held;
  created = λ d b s made.
      subst (IsStoredAs d)
        (add-same deployment_key d b s.0 (find deployment_key (deployment_key d) s.0) made)
        (record { servers = refl; inits = refl; selector = refl });
  updates = λ d c s held.
      let (done, there) =
        replace-stores deployment_key d c s.0 (find deployment_key (deployment_key d) s.0) held in
      (d, done, there, record { servers = refl; inits = refl; selector = refl });
  deployments_stay = λ q s k l. ap (find deployment_key k) (deployments_left q s l);
  services_stay = λ q s k l. ap (find service_key k) (services_left q s l);
  saves = λ wb s. (wb, refl, (refl, refl));
  saves_status = λ wb s. (wb, refl, (refl, refl));
  owns = λ wb m. (record m { owners = wb.metadata.name ∷ [] }, refl, refl);
  finalizes = λ m f. refl;
}

jobs_left :
    (q : Request) (s : Kept)
    → TakesNothing q
    → (k : ObjectKey) → (b : Job) × (find job_key k s.1.1 ≡ some b)
    → (b : Job) × (find job_key k (serving q s).1.1.1 ≡ some b)
unfolding serving
jobs_left (create_job j) s t k h = add-kept job_key k j s.1.1 (find job_key (job_key j) s.1.1) h
jobs_left (update_job j) s t k h = replace-kept job_key k j s.1.1 (find job_key (job_key j) s.1.1) h
jobs_left (delete_job _) s t k h = absurd t
jobs_left (delete_all_jobs _ _) s t k h = absurd t
jobs_left _ s t k h = h

pub stores_apps : StoresApps serving_cluster
unfolding serving
stores_apps = record {
  jobs = record {
    holds = λ k s. find job_key k s.1.1;
    gets = λ k s. refl;
    creates = λ j s free. add-stores job_key j s.1.1 (find job_key (job_key j) s.1.1) free;
    spares = λ j s k n. add-other job_key k j s.1.1 (find job_key (job_key j) s.1.1) n;
  };
  keyed = λ k j s held. find-keyed job_key k s.1.1 j held;
  kept = λ q s k t h. jobs_left q s t k h;
  updates =
      λ j c s held. (j, (replace-stores job_key j c s.1.1 (find job_key (job_key j) s.1.1) held).0);
  deletes = λ j s. refl;
  spares = λ j s k n. remove-other job_key (job_key j) k s.1.1 n;
  lists = λ labels s. (s.1.1, refl);
  saves_status = λ wb s. (wb, refl, (refl, refl));
  owns = λ wb m. (record m { owners = wb.metadata.name ∷ [] }, refl, refl);
}
