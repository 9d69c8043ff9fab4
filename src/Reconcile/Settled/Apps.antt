-- ===== src/Reconcile/Settled/Apps.antt =====
-- The apps of a settled workbench, and its whole reconciliation.
use workbench_operator.Base.{
  String, Bool, true, false, Option, none, some, List, [], ◌∷◌, ◌≡◌, refl, ◌∙◌, ap, All, inl, inr,
  Bool-cases, ◌==◌, string_eq,
}
use workbench_operator.Base.Dict.{Dict}
use workbench_operator.Config.{Config}
use workbench_operator.Kube.{Job, Service}
use workbench_operator.Workbench.{Workbench, WorkbenchApp}
use workbench_operator.Workbench.Status.{update_status_from_job}
use workbench_operator.Job.{job_name, is_suspended, build_job}
use workbench_operator.Job.Laws.{update_job_lem}
use workbench_operator.Job.Init.Settled.{init_job-built}
use workbench_operator.Names.{sort}
use workbench_operator.Names.Laws.{Listed, binary_search-sort}
use workbench_operator.Platform.{ok, err, list_jobs, Platform, World}
use workbench_operator.Platform.Contract.{
  Contract, Contract-pure, Contract-stop, Contract-bind, Contract-fact_and, Contract-weaken,
}
use workbench_operator.Platform.Keeps.{Keeps-Contract}
use workbench_operator.Cluster.{key_of, find_jobs}
use workbench_operator.Cluster.Settled.{
  AllRead, Target, settled_call, create_job_if_missing-found, create_job_if_missing-suspended,
}
use workbench_operator.Deployment.{workbench_labels}
use workbench_operator.Reconcile.Settled.{
  IsSettled, IsSettledApp, job_key, kept_name, names_of, own-read, prepare-read,
}
use workbench_operator.Reconcile.{
  save_status, update_found_job, follow_job, keep_job, run_job, reconcile_app, reconcile_apps,
  delete_if_extra, delete_extra_jobs, clean_up, apps_phase, reconcile_live, xpra_ready,
}

module _ (P : Platform) (config : Config) (wb : Workbench) (t : Target)
    (settled : IsSettled P config wb t) where
  update_found_job-read :
      (model found : Job) (s : Bool)
      → model.suspend ≡ some s
      → found.suspend ≡ some s
      → Contract AllRead (update_found_job P config model found) (λ _. AllRead) (λ _. AllRead)
  unfolding update_found_job
  update_found_job-read model found s e f =
      rw ((update_job_lem model found s e).1.1 f) (Contract-pure _ (λ h i. i))

  follow_job-read :
      (uid : String) (model found : Job) (s : Bool)
      → model.suspend ≡ some s
      → found.suspend ≡ some s
      → update_status_from_job wb uid found ≡ (wb, false)
      → Contract AllRead
          (follow_job P config wb uid model found)
          (λ r h. (r ≡ wb) × AllRead h)
          (λ _. AllRead)
  unfolding follow_job save_status
  follow_job-read uid model found s e f same = rw same (
      Contract-bind (λ wb2 h. (wb2 ≡ wb) × AllRead h) _ _ (Contract-pure _ (λ h i. (refl, i)))
        (λ wb2. Contract-fact_and (λ kept.
          elim (Bool-cases (model.metadata.name == found.metadata.name)) [
            | inl named ↦ rw named (
                Contract-bind (λ _. AllRead) _ _ (update_found_job-read model found s e f)
                  (λ _. Contract-pure _ (λ h i. (kept, i))))
            | inr other ↦ rw other (Contract-stop _ (λ h i. i))
          ])))

  -- The workbench as it is, and the name of the job if there is one to keep.
  abbrev Leaves : Option String → Workbench × Option String → Type 0
  Leaves name (wb', kept) = (wb' ≡ wb) × (kept ≡ name)

  run_found :
      (uid : String) (model found : Job) (s : Bool)
      → t.jobs (key_of model.metadata) ≡ some found
      → model.suspend ≡ some s
      → found.suspend ≡ some s
      → update_status_from_job wb uid found ≡ (wb, false)
      → Contract AllRead
          (run_job P config wb uid model)
          (λ r h. Leaves (some model.metadata.name) r × AllRead h)
          (λ _. AllRead)
  unfolding run_job keep_job
  run_found uid model found s there e f same =
      Contract-bind _ _ _ (create_job_if_missing-found P wb t settled.answers model found there)
        (λ r. Contract-fact_and (λ given. rw given (
          Contract-bind _ _ _ (follow_job-read uid model found s e f same)
            (λ wb'. Contract-fact_and (λ kept. Contract-pure _ (λ h i. ((kept, refl), i)))))))

  run_suspended :
      (uid : String) (model : Job)
      → t.jobs (key_of model.metadata) ≡ none
      → model.suspend ≡ some true
      → Contract AllRead
          (run_job P config wb uid model)
          (λ r h. Leaves none r × AllRead h)
          (λ _. AllRead)
  unfolding run_job
  run_suspended uid model missing e =
      Contract-bind _ _ _
        (create_job_if_missing-suspended P wb t settled.answers model missing (rw e refl))
        (λ r. Contract-fact_and (λ (why, given, suspended).
          rw (given, suspended) (Contract-pure _ (λ h i. ((refl, refl), i)))))

  reconcile_app-read :
      (service : Service) (uid : String) (app : WorkbenchApp)
      → IsSettledApp t wb uid app
      → Contract AllRead
          (reconcile_app P config wb service uid app)
          (λ r h.
            Leaves (kept_name (t.jobs (job_key wb uid app)) (job_name wb uid app)) r × AllRead h)
          (λ _. AllRead)
  unfolding reconcile_app build_job
  reconcile_app-read service uid app (named, how) =
      Contract-bind _ _ _ (init_job-built P wb t settled.answers config uid app service named) (λ r.
        Contract-fact_and (λ (vs, ms, built). rw built (
          Contract-bind _ _ _ (own-read P config wb t settled _) (λ m. Contract-fact_and (λ same.
            elim how [
              | inl (missing, suspended) ↦
                  rw missing (run_suspended uid _ (ap t.jobs same ∙ missing) (ap some suspended))
              | inr (j, there, _, asked, known) ↦ rw there (
                  Contract-weaken (λ _ i. i)
                    (λ r _ ((kept, name), i). ((kept, name ∙ ap (λ k. some k.name) same), i))
                    (λ _ _ i. i)
                    (run_found uid _ j (is_suspended app) (ap t.jobs same ∙ there) refl asked
                      known))
            ])))))

  reconcile_apps-read :
      (service : Service) (apps : Dict WorkbenchApp) (names : List String)
      → All (λ (uid, app). IsSettledApp t wb uid app) apps
      → Contract AllRead
          (reconcile_apps P config service apps wb names)
          (λ (wb', kept) h. ((wb' ≡ wb) × (kept ≡ names_of t wb apps names)) × AllRead h)
          (λ _. AllRead)
  unfolding reconcile_apps
  reconcile_apps-read service [] names all = Contract-pure _ (λ h i. ((refl, refl), i))
  reconcile_apps-read service ((uid, app) ∷ apps) names (one, all) =
      Contract-bind _ _ _ (reconcile_app-read service uid app one) (λ (wb', name).
        Contract-fact_and
          (λ (same, kept). rw (same, kept) (reconcile_apps-read service apps _ all)))

  delete_extra_jobs-read :
      (names : List String) (js : List Job)
      → All (λ j. Listed j.metadata.name names) js
      → Contract AllRead (delete_extra_jobs P config (sort names) js) (λ _. AllRead) (λ _. AllRead)
  unfolding delete_extra_jobs delete_if_extra
  delete_extra_jobs-read names [] all = Contract-pure _ (λ h i. i)
  delete_extra_jobs-read names (j ∷ js) (one, all) =
      Contract-bind (λ _. AllRead) _ _
        (rw ((binary_search-sort names j.metadata.name).1 one) (Contract-pure _ (λ h i. i)))
        (λ _. delete_extra_jobs-read names js all)

  clean_up-read : Contract AllRead (clean_up P config wb t.kept) (λ _. AllRead) (λ _. AllRead)
  unfolding clean_up find_jobs
  clean_up-read =
      Contract-bind _ _ _ (settled_call P wb t settled.answers (list_jobs (workbench_labels wb)) tt)
        (elim [
          | ok js ↦ Contract-fact_and (λ all. delete_extra_jobs-read t.kept js all)
          | err _ ↦ Contract-stop _ (λ h i. i.1)
        ])

  apps_phase-read :
      (service : Service)
      → Contract AllRead (apps_phase P config wb service) (λ _. AllRead) (λ _. AllRead)
  unfolding apps_phase
  apps_phase-read service = elim (Bool-cases (xpra_ready wb)) [
    | inl ready ↦ rw ready (
        Contract-bind _ _ _ (reconcile_apps-read service wb.spec.apps [] settled.apps)
          (λ (wb', names).
            Contract-fact_and (λ (same, kept). rw (same, kept ∙ settled.kept) clean_up-read)))
    | inr waiting ↦ rw waiting (Contract-stop _ (λ h i. i))
  ]

  reconcile_live-read : Contract AllRead (reconcile_live P config wb) (λ _. AllRead) (λ _. AllRead)
  unfolding reconcile_live
  reconcile_live-read =
      Contract-bind _ _ _ (prepare-read P config wb t settled)
        (λ (wb', service). Contract-fact_and (λ same. rw same (apps_phase-read service)))

-- Where a workbench is settled (the record IsSettled), a reconciliation that starts with an empty
-- history creates, updates and deletes nothing in the cluster: all its calls read, or send an event.
pub reconcile_live-AllRead :
    (P : Platform) (config : Config) (wb : Workbench) (t : Target) (w : World P)
    → IsSettled P config wb t
    → w.history ≡ []
    → AllRead (reconcile_live P config wb w).1.history
reconcile_live-AllRead P config wb t w settled e =
    (Keeps-Contract AllRead (reconcile_live-read P config wb t settled)).at w (rw e tt)
