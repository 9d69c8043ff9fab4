-- ===== src/Tests/Clusters.antt =====
-- Clusters that meet the hypotheses on the platform: one whose objects go when they are deleted, and
-- two that keep their objects as maps.
use workbench_operator.Base.{
  Bool, true, Option, none, some, List, [], ◌≡◌, refl, ◌≢◌, ◌&&◌, arith, string_eq, ◌==◌,
  if◌then◌else◌,
}
use workbench_operator.Kube.{ObjectKey, Job, Deployment}
use workbench_operator.Deployment.{workbench_labels}
use workbench_operator.Platform.{
  Answer, ok, err, not_found, other, Request, Response, list_jobs, list_deployments,
  delete_all_jobs, delete_all_deployments, update_workbench, get_deployment, create_deployment,
  get_job, create_job, delete_job, Platform,
}
use workbench_operator.Cluster.{key_of}
use workbench_operator.Cluster.Ensure.{found_answer, StoresDeployments, StoresJobs}
use workbench_operator.Reconcile.Teardown.{KeepsWord, outside}
use workbench_operator.Tests.Samples.{deleted_bench}

abbrev Held : Type 0
Held = List Job × List Deployment

-- Deletions take the objects of the namespace away.
unfoldable pub deleting : (q : Request) → Held → Answer (Response q) × Held
deleting (list_jobs _) (js, ds) = (ok js, (js, ds))
deleting (list_deployments _) (js, ds) = (ok ds, (js, ds))
deleting (delete_all_jobs ns _) (js, ds) = (ok tt, (outside (λ j. j.metadata) ns js, ds))
deleting (delete_all_deployments ns _) (js, ds) = (ok tt, (js, outside (λ d. d.metadata) ns ds))
deleting (update_workbench wb) s = (ok wb, s)
deleting (delete_job j) s = (ok tt, s)
deleting _ s = (err not_found, s)

-- A map of objects, by their keys.
abbrev Objects : Type 0 → Type 0
Objects A = ObjectKey → Option A

same_key : ObjectKey → ObjectKey → Bool
same_key k j = k.name == j.name && k.namespace == j.namespace

pub put : {A : Type 0} → ObjectKey → A → Objects A → Objects A
unfolding same_key
put k a m j = if same_key j k then some a else m j

put_self : {A : Type 0} (k : ObjectKey) (a : A) (m : Objects A) → put k a m k ≡ some a
unfolding put same_key
put_self k a m = ground arith

put-other : {A : Type 0} (k j : ObjectKey) (a : A) (m : Objects A) → j ≢ k → put k a m j ≡ m j
unfolding put same_key
put-other k j a m n = ground arith

-- A create, with what the map holds under the key.
create_in : {A : Type 0} → ObjectKey → A → Objects A → Option A → Answer A × Objects A
create_in k a m none = (ok a, put k a m)
create_in k a m (some _) = (err (other "AlreadyExists"), m)

create_in-stores :
    {A : Type 0} (k : ObjectKey) (a : A) (m : Objects A) (o : Option A)
    → o ≡ none
    → (b : A) × ((create_in k a m o).0 ≡ ok b) × ((create_in k a m o).1 k ≡ some b)
unfolding create_in
create_in-stores k a m none e = (a, refl, put_self k a m)
create_in-stores k a m (some _) e = cc

create_in-spares :
    {A : Type 0} (k j : ObjectKey) (a : A) (m : Objects A) (o : Option A)
    → j ≢ k
    → (create_in k a m o).1 j ≡ m j
unfolding create_in
create_in-spares k j a m none n = put-other k j a m n
create_in-spares k j a m (some _) n = refl

unfoldable pub storing_deployments :
    (q : Request) → Objects Deployment → Answer (Response q) × Objects Deployment
unfolding create_in
storing_deployments (get_deployment k) m = (found_answer (m k), m)
storing_deployments (create_deployment d) m =
    create_in (key_of d.metadata) d m (m (key_of d.metadata))
storing_deployments _ m = (err not_found, m)

unfoldable pub storing_jobs : (q : Request) → Objects Job → Answer (Response q) × Objects Job
unfolding create_in
storing_jobs (get_job k) m = (found_answer (m k), m)
storing_jobs (create_job j) m = create_in (key_of j.metadata) j m (m (key_of j.metadata))
storing_jobs _ m = (err not_found, m)

-- A platform with such a cluster, that finds and removes the finalizer.
abbrev with_cluster : (S : Type 0) → ((q : Request) → S → Answer (Response q) × S) → Platform
with_cluster S run = record {
  State = S;
  answer = run;
  clock = λ _. 1000;
  set_controller_reference = λ wb m. ok m;
  contains_finalizer = λ _ _. true;
  add_finalizer = λ m _. (m, true);
  remove_finalizer = λ m _. (record m { finalizers = [] }, true);
}

abbrev pub deleting_cluster : Platform
deleting_cluster = with_cluster Held deleting

abbrev pub deployment_cluster : Platform
deployment_cluster = with_cluster (Objects Deployment) storing_deployments

abbrev pub job_cluster : Platform
job_cluster = with_cluster (Objects Job) storing_jobs

pub deletes_each : (j : Job) (s : Held) → (deleting_cluster.answer (delete_job j) s).0 ≡ ok tt
unfolding deleting
deletes_each j (js, ds) = refl

unfoldable pub deleting_keeps_word : KeepsWord deleting_cluster (workbench_labels deleted_bench)
unfolding deleting
deleting_keeps_word = record {
  jobs = λ s. s.0;
  deployments = λ s. s.1;
  listed_jobs = λ s. refl;
  listed_deployments = λ s. refl;
  deletes_jobs = λ ns s. refl;
  jobs_left = λ ns s. refl;
  deployments_kept = λ ns s. refl;
  deletes_deployments = λ ns s. refl;
  deployments_left = λ ns s. refl;
  jobs_kept = λ ns s. refl;
  event_jobs = λ kind reason text s. refl;
  event_deployments = λ kind reason text s. refl;
  saves = λ wb s. (wb, refl);
}

pub stores_deployments : StoresDeployments deployment_cluster
unfolding storing_deployments
stores_deployments = record {
  holds = λ k m. m k;
  gets = λ k m. refl;
  creates = λ d m free. create_in-stores (key_of d.metadata) d m (m (key_of d.metadata)) free;
  spares = λ d m k n. create_in-spares (key_of d.metadata) k d m (m (key_of d.metadata)) n;
}

pub stores_jobs : StoresJobs job_cluster
unfolding storing_jobs
stores_jobs = record {
  holds = λ k m. m k;
  gets = λ k m. refl;
  creates = λ j m free. create_in-stores (key_of j.metadata) j m (m (key_of j.metadata)) free;
  spares = λ j m k n. create_in-spares (key_of j.metadata) k j m (m (key_of j.metadata)) n;
}
