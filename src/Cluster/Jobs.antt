-- ===== src/Cluster/Jobs.antt =====
-- A cluster that stores jobs, and createJob on it (workbench_controller.go).
use workbench_operator.Base.{
  String, true, Option, none, some, List, ◌≡◌, refl, ◌≢◌, ◌⊎◌, inl, inr, Option-cases, Bool-cases,
  arith, string_eq,
}
use workbench_operator.Kube.{ObjectKey, ObjectMeta, Job, Labels}
use workbench_operator.Workbench.{Workbench}
use workbench_operator.Workbench.Status.{update_status_from_job, set_app_status_failed, grow_apps}
use workbench_operator.Platform.{
  ok, Request, create_job, update_job, delete_job, delete_all_jobs, list_jobs,
  update_workbench_status, Platform,
}
use workbench_operator.Platform.Monad.{Error, returned, error, Result, is_suspended_job, ◌>>=◌}
use workbench_operator.Platform.Ensures.{Ensures}
use workbench_operator.Cluster.{key_of, asks_suspend, create_job_if_missing}
use workbench_operator.Cluster.Ensure.{StoresJobs}
use workbench_operator.Cluster.Converge.{IsSameBench, IsOwnedBy}

-- The requests that take no job away.
abbrev pub TakesNothing : Request → Type 0
TakesNothing q = elim q [ delete_job _ ↦ ⊥ | delete_all_jobs _ _ ↦ ⊥ | _ ↦ Unit ]

abbrev pub HasKey : {S : Type 0} → (ObjectKey → S → Option Job) → ObjectKey → S → Type 0
HasKey holds k s = (j : Job) × (holds k s ≡ some j)

-- A server that keeps jobs as a map, lists them, updates those that it holds and deletes the one that
-- it is asked to, with the laws of the status of the workbench and of the owner reference.
pub record StoresApps (P : Platform) : Type 0 where
  pub jobs : StoresJobs P
  pub keyed :
      (k : ObjectKey) (j : Job) (s : P.State) → jobs.holds k s ≡ some j → key_of j.metadata ≡ k
  pub kept :
      (q : Request) (s : P.State) (k : ObjectKey)
      → TakesNothing q
      → HasKey jobs.holds k s
      → HasKey jobs.holds k (P.answer q s).1
  pub updates :
      (j c : Job) (s : P.State)
      → jobs.holds (key_of j.metadata) s ≡ some c
      → (b : Job) × ((P.answer (update_job j) s).0 ≡ ok b)
  pub deletes : (j : Job) (s : P.State) → (P.answer (delete_job j) s).0 ≡ ok tt
  pub spares :
      (j : Job) (s : P.State) (k : ObjectKey)
      → k ≢ key_of j.metadata
      → jobs.holds k (P.answer (delete_job j) s).1 ≡ jobs.holds k s
  pub lists :
      (labels : Labels) (s : P.State)
      → (js : List Job) × ((P.answer (list_jobs labels) s).0 ≡ ok js)
  pub saves_status :
      (wb : Workbench) (s : P.State)
      → (wb' : Workbench) × ((P.answer (update_workbench_status wb) s).0 ≡ ok wb')
        × IsSameBench wb' wb
  pub owns : (wb : Workbench) (m : ObjectMeta) → IsOwnedBy m (P.set_controller_reference wb m)

module _ (P : Platform) (cluster : StoresApps P) where
  open cluster use {jobs}

  abbrev pub HasJob : ObjectKey → P.State → Type 0
  HasJob k s = HasKey jobs.holds k s

  -- The creation found the job, made it, or left out one that is to be suspended.
  abbrev pub Made : Job → Result (Option Job) → P.State → Type 0
  Made j r s =
      ((f : Job) × (r ≡ returned (some f)) × (jobs.holds (key_of j.metadata) s ≡ some f))
      ⊎ ((r ≡ returned none) × HasJob (key_of j.metadata) s)
      ⊎ ((asks_suspend j.suspend ≡ true)
          × ((e : Error) × (r ≡ error e) × (is_suspended_job e ≡ true)))

  pub create_job_if_missing-Made :
      (I : P.State → Type 0) (j : Job)
      → ((q : Request) (s : P.State) → TakesNothing q → I s → I (P.answer q s).1)
      → Ensures I (create_job_if_missing P j) (λ r s. Made j r s × I s)
  unfolding create_job_if_missing ◌>>=◌
  create_job_if_missing-Made I j keep = record {
    at = λ w i. elim (Option-cases (jobs.holds (key_of j.metadata) w.state)) [
      | inr (f, held) ↦
          rw (jobs.gets (key_of j.metadata) w.state, held) (_, refl, (inl (f, refl, held), i))
      | inl free ↦ elim (Bool-cases (asks_suspend j.suspend)) [
        | inl asked ↦
            rw (jobs.gets (key_of j.metadata) w.state, free, asked)
              (_, refl, (inr (inr (refl, (_, refl, refl))), i))
        | inr not_asked ↦
            let (b, made, there) = jobs.creates j w.state free in
            rw (jobs.gets (key_of j.metadata) w.state, free, not_asked, made)
              (_, refl, (inr (inl (refl, (b, there))), keep (create_job j) w.state tt i))
      ]
    ];
  }

pub update_status_from_job-same :
    (wb : Workbench) (uid : String) (job : Job)
    → IsSameBench (update_status_from_job wb uid job).0 wb
unfolding update_status_from_job grow_apps
update_status_from_job-same wb uid job = (ground arith, ground arith)

pub set_app_status_failed-same :
    (wb : Workbench) (uid : String) → IsSameBench (set_app_status_failed wb uid).0 wb
unfolding set_app_status_failed
set_app_status_failed-same wb uid = (ground arith, ground arith)
