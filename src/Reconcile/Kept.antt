-- ===== src/Reconcile/Kept.antt =====
-- The loop over the apps and the deletion of extra jobs (workbench_controller.go).
use workbench_operator.Base.{
  String, false, Option, none, some, List, [], ◌∷◌, ◌++◌, ◌≡◌, inl, inr, All, string_eq,
}
use workbench_operator.Base.Dict.{Dict}
use workbench_operator.Config.{Config}
use workbench_operator.Kube.{Service, Job}
use workbench_operator.Workbench.{Workbench, WorkbenchApp}
use workbench_operator.Names.{sort, binary_search}
use workbench_operator.Names.Laws.{Listed, binary_search-sort}
use workbench_operator.Platform.{ok, err, get_job, create_job, delete_job, Platform, World, Event}
use workbench_operator.Platform.Monad.{
  Outcome, value, stopped, M, returned, error, is_suspended_job,
}
use workbench_operator.Platform.Contract.{
  History, Contract, Contract-pure, Contract-stop, Contract-call, Contract-bind, Contract-weaken,
  Contract-if, Ends,
}
use workbench_operator.Platform.Only.{Only, Only-map}
use workbench_operator.Platform.Requests.{ServerRequest, init_server, server_quiet}
use workbench_operator.Cluster.Laws.{find_jobs-quiet}
use workbench_operator.Job.Init.Laws.{init_job-Only}
use workbench_operator.Reconcile.{
  append_name, xpra_ready, keep_job, run_job, reconcile_app, reconcile_apps, delete_if_extra,
  delete_extra_jobs, clean_up, apps_phase, reconcile_live,
}
use workbench_operator.Reconcile.Calls.{prepare-Only, follow_job-Only, own-Only, save_status-Only}
use workbench_operator.Reconcile.KeptJobs.{
  AfterCreate, Contract-quiet, IsSafe, Kept, KeptEvent, KeptIn, Spares, create_job_if_missing-Kept,
}

abbrev Stepped : List String → Workbench × Option String → History → Type 0
Stepped names (_, name) h = Kept (append_name names name) h

module _ (P : Platform) (config : Config) where
  keep_job-Kept :
      (names : List String) (wb : Workbench) (uid : String) (job : Job) (o : Option Job)
      → Contract
          (Kept (names ++ job.metadata.name ∷ []))
          (keep_job P config wb uid job o)
          (Stepped names)
          (λ _. IsSafe)
  unfolding keep_job
  keep_job-Kept names wb uid job none = Contract-pure _ (λ h k. k)
  keep_job-Kept names wb uid job (some found) =
      Contract-bind (λ _. Kept (names ++ job.metadata.name ∷ [])) _ _
        (Contract-quiet _ _ (follow_job-Only P config wb uid job found))
        (λ wb'. Contract-pure _ (λ h k. k))

  run_job-Kept :
      (names : List String) (wb : Workbench) (uid : String) (job : Job)
      → Contract (Kept names) (run_job P config wb uid job) (Stepped names) (λ _. IsSafe)
  unfolding run_job
  run_job-Kept names wb uid job =
      Contract-bind (AfterCreate names job) _ _ (create_job_if_missing-Kept P names job) (elim [
        | returned o ↦ keep_job-Kept names wb uid job o
        | error e ↦
            Contract-if (is_suspended_job e) _ _ (λ _. Contract-pure _ (λ h k. k))
              (λ _. Contract-stop _ (λ h k. k.1))
      ])

  quietly :
      {A : Type 0} (m : M P A) (names : List String)
      → Only ServerRequest m
      → Contract (Kept names) m (λ _. Kept names) (λ _. IsSafe)
  quietly m names c = Contract-quiet m names (Only-map server_quiet c)

  reconcile_app-Kept :
      (names : List String) (wb : Workbench) (service : Service) (uid : String) (app : WorkbenchApp)
      → Contract
          (Kept names)
          (reconcile_app P config wb service uid app)
          (Stepped names)
          (λ _. IsSafe)
  unfolding reconcile_app
  reconcile_app-Kept names wb service uid app =
      Contract-bind (λ _. Kept names) _ _
        (quietly _ names (Only-map init_server (init_job-Only P wb config uid app service)))
        (elim [
          | returned job ↦
              Contract-bind (λ _. Kept names) _ _
                (quietly _ names (own-Only P config wb job.metadata))
                (λ m. run_job-Kept names wb uid (record job { metadata = m }))
          | error e ↦
              Contract-bind (λ _. Kept names) _ _ (quietly _ names (save_status-Only P config _ _))
                (λ wb'. Contract-pure _ (λ h k. k))
        ])

  -- The loop over the apps, from the names that it has so far.
  reconcile_apps-Kept :
      (service : Service) (apps : Dict WorkbenchApp) (wb : Workbench) (names : List String)
      → Contract
          (Kept names)
          (reconcile_apps P config service apps wb names)
          (λ r. Kept r.1)
          (λ _. IsSafe)
  unfolding reconcile_apps
  reconcile_apps-Kept service [] wb names = Contract-pure _ (λ h k. k)
  reconcile_apps-Kept service ((uid, app) ∷ apps) wb names =
      Contract-bind (Stepped names) _ _ (reconcile_app-Kept names wb service uid app)
        (λ (wb', name). reconcile_apps-Kept service apps wb' (append_name names name))

  -- A job whose name is not among the names is spared by all calls that kept theirs.
  Spares-of_kept :
      (names : List String) (j : Job) (e : Event)
      → ¬ (Listed j.metadata.name names)
      → KeptEvent names e
      → Spares j e
  Spares-of_kept names j (get_job k, ok _) n m = λ e. n (rw e at m)
  Spares-of_kept names j (get_job k, err _) n m = tt
  Spares-of_kept names j (create_job c, ok _) n (inl e) = inl e
  Spares-of_kept names j (create_job c, ok _) n (inr m) = inr (λ e. n (rw e at m))
  Spares-of_kept names j (create_job c, err _) n m = tt
  Spares-of_kept names j (_, _) n m = tt

  All-Spares :
      (names : List String) (j : Job) (h : History)
      → ¬ (Listed j.metadata.name names)
      → KeptIn names h
      → All (Spares j) h
  All-Spares names j [] n k = tt
  All-Spares names j (e ∷ h) n (k, ks) = (Spares-of_kept names j e n k, All-Spares names j h n ks)

  not-Listed :
      (names : List String) (name : String)
      → binary_search (sort names) name ≡ false
      → ¬ (Listed name names)
  not-Listed names name e m = let f = (binary_search-sort names name).1 m in cc

  delete_if_extra-Kept :
      (names : List String) (j : Job)
      → Contract
          (Kept names)
          (delete_if_extra P config (sort names) j)
          (λ _. Kept names)
          (λ _. IsSafe)
  unfolding delete_if_extra
  delete_if_extra-Kept names j =
      Contract-if (binary_search (sort names) j.metadata.name) _ _ (λ _. Contract-pure _ (λ h k. k))
        (λ extra.
          Contract-bind (λ _. Kept names) _ _
            (Contract-call P (delete_job j) (λ a h (k, s).
              ((tt, k), (All-Spares names j h (not-Listed names j.metadata.name extra) k, s))))
            (elim [ ok _ ↦ Contract-pure _ (λ h k. k) | err e ↦ Contract-stop _ (λ h k. k.1) ]))

  delete_extra_jobs-Kept :
      (names : List String) (jobs : List Job)
      → Contract
          (Kept names)
          (delete_extra_jobs P config (sort names) jobs)
          (λ _. Kept names)
          (λ _. IsSafe)
  unfolding delete_extra_jobs
  delete_extra_jobs-Kept names [] = Contract-pure _ (λ h k. k)
  delete_extra_jobs-Kept names (j ∷ js) =
      Contract-bind (λ _. Kept names) _ _ (delete_if_extra-Kept names j)
        (λ _. delete_extra_jobs-Kept names js)

  clean_up-Kept :
      (wb : Workbench) (names : List String)
      → Contract (Kept names) (clean_up P config wb names) (λ _. Kept names) (λ _. IsSafe)
  unfolding clean_up
  clean_up-Kept wb names =
      Contract-bind (λ _. Kept names) _ _ (Contract-quiet _ names (find_jobs-quiet P wb))
        (elim [
          | ok jobs ↦ delete_extra_jobs-Kept names jobs
          | err e ↦ Contract-stop _ (λ h k. k.1)
        ])

  apps_phase-Kept :
      (wb : Workbench) (service : Service)
      → Contract (Kept []) (apps_phase P config wb service) (λ _. IsSafe) (λ _. IsSafe)
  unfolding apps_phase
  apps_phase-Kept wb service =
      Contract-if (xpra_ready wb) _ _
        (λ _.
          Contract-bind (λ r. Kept r.1) _ _ (reconcile_apps-Kept service wb.spec.apps wb [])
            (λ (wb', names).
              Contract-weaken (λ h k. k) (λ _ h k. k.1) (λ _ h k. k) (clean_up-Kept wb' names)))
        (λ _. Contract-stop _ (λ h k. k.1))

  reconcile_live-Kept :
      (wb : Workbench) → Contract (Kept []) (reconcile_live P config wb) (λ _. IsSafe) (λ _. IsSafe)
  unfolding reconcile_live
  reconcile_live-Kept wb =
      Contract-bind (λ _. Kept []) _ _ (quietly _ [] (prepare-Only P config wb))
        (λ (wb', service). apps_phase-Kept wb' service)

  ended :
      {A : Type 0} (o : Outcome A) (h : History) → Ends (λ _. IsSafe) (λ _. IsSafe) o h → IsSafe h
  ended (value a) h s = s
  ended (stopped v) h s = s

-- Whatever the platform answers, a reconciliation of a live workbench that starts with an empty
-- history deletes no job whose name it has found in the cluster for an app, or created for an app.
pub reconcile_live-IsSafe :
    (P : Platform) (config : Config) (wb : Workbench) (w : World P)
    → w.history ≡ []
    → IsSafe (reconcile_live P config wb w).1.history
reconcile_live-IsSafe P config wb w e =
    ended P config (reconcile_live P config wb w).0 _
      ((reconcile_live-Kept P config wb).at w (rw e (tt, tt)))
