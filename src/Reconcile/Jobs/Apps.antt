-- ===== src/Reconcile/Jobs/Apps.antt =====
-- The loop of Reconcile over the apps, on a cluster that stores jobs (workbench_controller.go).
pub mod Loop
pub mod Phase
use workbench_operator.Base.{
  arith, string_eq, Bool, String, ◌<>◌, Bool, true, false, Option, none, some, List, [], ◌∷◌, ◌++◌,
  ◌≡◌, refl, ap, sym, ◌∙◌, ◌⊎◌, inl, inr, All,
}
use workbench_operator.Base.Dict.{Dict}
use mathlib.Core.Path.{subst}
use workbench_operator.Kube.{ObjectKey, ObjectMeta, Job, Service}
use workbench_operator.Config.{Config}
use workbench_operator.Workbench.{Workbench, WorkbenchApp}
use workbench_operator.Workbench.Status.{set_app_status_failed}
use workbench_operator.Names.Laws.{Listed}
use workbench_operator.Job.{job_name, is_suspended}
use workbench_operator.Job.Init.{init_job}
use workbench_operator.Job.Init.Laws.{init_job-Only}
use workbench_operator.Job.Init.Fits.{IsSuspendedFor, FitsApp, IsJobFor, init_job_lem}
use workbench_operator.Platform.{
  Request, get_secret, get_csi_driver, record_event, look_path, read_passwd, Platform, World,
}
use workbench_operator.Platform.Requests.{InitRequest}
use workbench_operator.Platform.Monad.{
  Result, returned, error, Error, pure, value, ◌>>=◌, on_result,
}
use workbench_operator.Platform.Ensures.{
  Ensures, Ensures-pure, Ensures-bind, Ensures-fact, Ensures-weaken, Ensures-result,
}
use workbench_operator.Cluster.{key_of, asks_suspend}
use workbench_operator.Cluster.Converge.{IsSameBench, IsSameBench-trans}
use workbench_operator.Cluster.Jobs.{TakesNothing, StoresApps, HasJob, set_app_status_failed-same}
use workbench_operator.Reconcile.{
  own, run_job, save_status, reconcile_app, reconcile_apps, append_name,
}
use workbench_operator.Reconcile.Saves.{own-IsOwned}
use workbench_operator.Reconcile.Jobs.{IsKept, save_status-kept, run_job-Noted, Noted, Followed}

-- The key of the job of an app.
abbrev pub job_key : Workbench → String → WorkbenchApp → ObjectKey
job_key wb uid app = record { name = job_name wb uid app; namespace = wb.metadata.namespace }

InitRequest-TakesNothing : (q : Request) → InitRequest q → TakesNothing q
InitRequest-TakesNothing (get_secret _) a = tt
InitRequest-TakesNothing (get_csi_driver _) a = tt
InitRequest-TakesNothing (record_event _ _ _) a = tt
InitRequest-TakesNothing (look_path _) a = tt
InitRequest-TakesNothing (read_passwd _ _) a = tt
InitRequest-TakesNothing _ a = absurd a

suspended_app :
    (app : WorkbenchApp) (suspend : Option Bool)
    → IsSuspendedFor app suspend
    → asks_suspend suspend ≡ true
    → is_suspended app ≡ true
unfolding is_suspended
suspended_app app suspend h asked = ground arith

module _ (P : Platform) (cluster : StoresApps P) (config : Config) (wb0 : Workbench) where
  -- There is no job to expect: the app is not to run, or `initJob` has refused it.
  abbrev pub IsExcused : String → WorkbenchApp → Type 0
  IsExcused uid app =
      (is_suspended app ≡ true)
      ⊎ ((wb : Workbench) × IsSameBench wb wb0
          × ((service : Service) × (w : World P) × (e : Error) × ((init_job P wb config uid app
                  service w).0
                ≡ value (error e))))

  module _ (J : P.State → Type 0) (keep : IsKept P cluster config J) (wb : Workbench)
      (same : IsSameBench wb wb0) (service : Service) (uid : String) (app : WorkbenchApp) where
    -- What `initJob` gives in some world.
    abbrev Given : Result Job → Type 0
    Given r =
        FitsApp wb config uid app r
        × ((w : World P) × ((init_job P wb config uid app service w).0 ≡ value r))

    -- The name is the one of the job, which is held, or there is none to expect.
    abbrev Expected : Option String → P.State → Type 0
    Expected name s =
        let k = job_key wb0 uid app in
        ((name ≡ some k.name) × HasJob P cluster k s) ⊎ ((name ≡ none) × IsExcused uid app)

    abbrev Handled : Workbench × Option String → P.State → Type 0
    Handled (wb', name) s = IsSameBench wb' wb0 × (Expected name s × J s)

    init_job-Given : Ensures J (init_job P wb config uid app service) (λ r s. Given r × J s)
    init_job-Given =
        Ensures-result Given J (λ q s a j. keep q s (InitRequest-TakesNothing q a) j)
          (init_job-Only P wb config uid app service)
          (λ w.
            let (r, e, fits) = init_job_lem P wb config uid app service w in (r, e, (fits, (w, e))))

    same_key : job_key wb uid app ≡ job_key wb0 uid app
    unfolding job_name
    same_key =
        ap (λ k. record { name = k.name <> "-" <> uid <> "-" <> app.name; namespace = k.namespace })
          same.0

    noted :
        (job : Job) (name : Option String) (s : P.State)
        → IsJobFor wb uid app job
        → Noted P cluster config (job_key wb0 uid app) job name s
        → Expected name s
    noted job name s fits (inl n) = inl n
    noted job name s fits (inr (e, asked)) =
        inr (e, inl (suspended_app app job.suspend fits.suspended asked))

    fits_key : (job : Job) → IsJobFor wb uid app job → key_of job.metadata ≡ job_key wb uid app
    unfolding job_name
    fits_key job fits =
        ap (λ n. record { name = n; namespace = job.metadata.namespace }) fits.name
        ∙ ap (λ n. record { name = job_name wb uid app; namespace = n }) fits.namespace

    run_job-Handled :
        (job : Job) (m : ObjectMeta)
        → IsJobFor wb uid app job
        → key_of m ≡ key_of job.metadata
        → Ensures J (run_job P config wb uid (record job { metadata = m })) Handled
    run_job-Handled job m fits e =
        let job' = record job { metadata = m } in
        let here : key_of m ≡ job_key wb0 uid app = e ∙ fits_key job fits ∙ same_key in
        Ensures-weaken (λ s j. j)
          (λ (wb', name) s (same', (n, j)).
            (IsSameBench-trans wb' wb wb0 same' same, (noted job name s fits n, j)))
          (subst
            (λ k.
              Ensures J (run_job P config wb uid job')
                (Followed P cluster config J keep wb uid k job'))
            here (run_job-Noted P cluster config J keep wb uid job'))

    refused-Handled :
        (e : Error)
        → Given (error e)
        → Ensures J
            (do
              let (wb1, updated) = set_app_status_failed wb uid
              wb2 ← save_status P config updated wb1
              pure (wb2, none))
            Handled
    refused-Handled e (fits, (w, given)) =
        let wb1 = (set_app_status_failed wb uid).0 in
        let same1 = set_app_status_failed-same wb uid in
        Ensures-bind _ _ _ (save_status-kept P cluster config J keep _ wb1) (λ wb2.
          Ensures-pure _ (λ s (same2, j). (
            IsSameBench-trans wb2 wb1 wb0 same2 (IsSameBench-trans wb1 wb wb0 same1 same),
            (inr (refl, inr (wb, same, (service, w, e, given))), j),
          )))

    Given-Handled :
        (r : Result Job)
        → Given r
        → Ensures J
            (on_result r
              (λ job. do
                m ← own P config wb job.metadata
                run_job P config wb uid (record job { metadata = m }))
              (λ _. do
                let (wb1, updated) = set_app_status_failed wb uid
                wb2 ← save_status P config updated wb1
                pure (wb2, none)))
            Handled
    Given-Handled (returned job) (fits, _) =
        Ensures-bind _ _ _ (own-IsOwned P config J cluster.owns wb job.metadata)
          (λ m. Ensures-fact (run_job-Handled job m fits))
    Given-Handled (error e) given = refused-Handled e given

    pub reconcile_app-Handled : Ensures J (reconcile_app P config wb service uid app) Handled
    unfolding reconcile_app
    reconcile_app-Handled = Ensures-bind _ _ _ init_job-Given (λ r. Ensures-fact (Given-Handled r))
