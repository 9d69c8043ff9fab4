-- ===== src/Reconcile/Jobs.antt =====
-- The loop of Reconcile over the apps, on a cluster that stores jobs (workbench_controller.go).
pub mod Apps
use workbench_operator.Base.{
  String, Bool, true, false, Option, none, some, List, [], ◌∷◌, ◌≡◌, refl, ◌≢◌, ap, sym, ◌∙◌, ◌⊎◌,
  inl, inr, Bool-cases, arith, string_eq, ◌==◌, if◌then◌else◌,
}
use mathlib.Core.Path.{subst}
use workbench_operator.Kube.{ObjectKey, ObjectMeta, Job}
use workbench_operator.Config.{Config}
use workbench_operator.Workbench.{Workbench}
use workbench_operator.Workbench.Status.{update_status_from_job}
use workbench_operator.Job.{update_job}
use workbench_operator.Platform.{
  Request, update_workbench_status, update_job as update_job_request, Platform,
}
use workbench_operator.Platform.Monad.{
  Result, returned, error, Error, failed, pure, stop, value, ◌>>=◌, on_result, is_suspended_job,
}
use workbench_operator.Platform.Ensures.{
  Ensures, Ensures-pure, Ensures-bind, Ensures-fact, Ensures-weaken,
}
use workbench_operator.Cluster.{key_of, asks_suspend}
use workbench_operator.Cluster.Converge.{IsSameBench, IsSameBench-trans}
use workbench_operator.Cluster.Jobs.{
  TakesNothing, StoresApps, HasJob, Made, create_job_if_missing-Made, update_status_from_job-same,
}
use workbench_operator.Reconcile.Saves.{save_status-Kept}
use workbench_operator.Job.Laws.{update_job-metadata}
use workbench_operator.Reconcile.{save_status, own, update_found_job, follow_job, keep_job, run_job}

same_names :
    (model found : Job)
    → key_of model.metadata ≡ key_of found.metadata
    → (model.metadata.name == found.metadata.name) ≡ true
same_names model found e =
    let name : model.metadata.name ≡ found.metadata.name = ap (λ k. k.name) e in ground arith

module _ (P : Platform) (cluster : StoresApps P) (config : Config) where
  -- A property that no request takes away but a deletion of jobs.
  abbrev pub IsKept : (P.State → Type 0) → Type 0
  IsKept J = (q : Request) (s : P.State) → TakesNothing q → J s → J (P.answer q s).1

  module _ (J : P.State → Type 0) (keep : IsKept J) where
    pub save_status-kept :
        (updated : Bool) (wb : Workbench)
        → Ensures J (save_status P config updated wb) (λ wb' s. IsSameBench wb' wb × J s)
    save_status-kept =
        save_status-Kept P config J cluster.saves_status
          (λ wb s j. keep (update_workbench_status wb) s tt j)

    module _ (k : ObjectKey) (has : (s : P.State) → J s → HasJob P cluster k s) where
      update_found_job-kept :
          (model found : Job)
          → key_of found.metadata ≡ k
          → Ensures J (update_found_job P config model found) (λ _. J)
      unfolding update_found_job ◌>>=◌
      update_found_job-kept model found e = elim (Bool-cases (update_job model found).1) [
        | inl updated ↦ rw updated (record {
          at = λ w j.
              let (c, held) = has w.state j in
              let same = ap key_of (update_job-metadata model found) ∙ e in
              let (b, saved) =
                cluster.updates (update_job model found).0 c w.state
                  (ap (λ k. cluster.jobs.holds k w.state) same ∙ held) in
              rw saved
                (tt, refl, keep (update_job_request (update_job model found).0) w.state tt j);
        })
        | inr same ↦ rw same (Ensures-pure _ (λ s j. j))
      ]

      follow_job-kept :
          (wb : Workbench) (uid : String) (model found : Job)
          → key_of model.metadata ≡ k
          → key_of found.metadata ≡ k
          → Ensures J (follow_job P config wb uid model found) (λ wb' s. IsSameBench wb' wb × J s)
      unfolding follow_job
      follow_job-kept wb uid model found e f =
          let wb1 = (update_status_from_job wb uid found).0 in
          let same1 = update_status_from_job-same wb uid found in
          Ensures-bind _ _ _ (save_status-kept _ wb1) (λ wb2. Ensures-fact (λ same2.
            rw (same_names model found (e ∙ sym f)) (
              Ensures-bind (λ _. J) _ _ (update_found_job-kept model found f)
                (λ _. Ensures-pure _ (λ s j. (IsSameBench-trans wb2 wb1 wb same2 same1, j))))))

  -- The name is the one of the job, which is held, or the job is to be suspended and there is no name.
  abbrev pub Noted : ObjectKey → Job → Option String → P.State → Type 0
  Noted k job name s =
      ((name ≡ some k.name) × HasJob P cluster k s)
      ⊎ ((name ≡ none) × (asks_suspend job.suspend ≡ true))

  module _ (J : P.State → Type 0) (keep : IsKept J) (wb : Workbench) (uid : String) where
    abbrev pub Followed : ObjectKey → Job → Workbench × Option String → P.State → Type 0
    Followed k job (wb', name) s = IsSameBench wb' wb × (Noted k job name s × J s)

    keep_job-Noted :
        (job found : Job)
        → key_of found.metadata ≡ key_of job.metadata
        → Ensures
            (λ s. HasJob P cluster (key_of job.metadata) s × J s)
            (keep_job P config wb uid job (some found))
            (Followed (key_of job.metadata) job)
    unfolding keep_job
    keep_job-Noted job found e =
        let k = key_of job.metadata in
        Ensures-bind (λ wb' s. IsSameBench wb' wb × (HasJob P cluster k s × J s)) _ _
          (follow_job-kept (λ s. HasJob P cluster k s × J s)
            (λ q s t (h, j). (cluster.kept q s k t h, keep q s t j)) k (λ s (h, j). h) wb uid job
            found refl e)
          (λ wb'. Ensures-pure _ (λ s (same, (h, j)). (same, (inl (refl, h), j))))

    created_job-Noted :
        (job : Job)
        → Ensures
            (λ s. HasJob P cluster (key_of job.metadata) s × J s)
            (keep_job P config wb uid job none)
            (Followed (key_of job.metadata) job)
    unfolding keep_job
    created_job-Noted job = Ensures-pure _ (λ s (h, j). ((refl, refl), (inl (refl, h), j)))

    Made-Noted :
        (job : Job) (r : Result (Option Job))
        → Ensures
            (λ s. Made P cluster job r s × J s)
            (on_result r
              (keep_job P config wb uid job)
              (λ e. if is_suspended_job e then pure (wb, none) else stop (failed e)))
            (Followed (key_of job.metadata) job)
    unfolding pure stop
    Made-Noted job r = record {
      at = λ w (made, j). elim made [
        | inl (f, e, held) ↦ rw e (
            (keep_job-Noted job f (cluster.keyed (key_of job.metadata) f w.state held)).at w
              ((f, held), j))
        | inr (inl (e, held)) ↦ rw e ((created_job-Noted job).at w (held, j))
        | inr (inr (asked, (e, failed_so, suspended))) ↦
            rw (failed_so, suspended) (_, refl, ((refl, refl), (inr (refl, asked), j)))
      ];
    }

    pub run_job-Noted :
        (job : Job) → Ensures J (run_job P config wb uid job) (Followed (key_of job.metadata) job)
    unfolding run_job
    run_job-Noted job =
        Ensures-bind _ _ _ (create_job_if_missing-Made P cluster J job keep) (Made-Noted job)
