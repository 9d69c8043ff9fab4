-- ===== src/Reconcile/Released.antt =====
-- The order of the teardown (workbench_controller.go).
use workbench_operator.Base.{ℕ, zero, suc, List, [], ◌∷◌, ◌≡◌, refl, Any, inl, inr}
use workbench_operator.Config.{Config}
use workbench_operator.Kube.{Labels, Job, Deployment}
use workbench_operator.Workbench.{Workbench}
use workbench_operator.Deployment.{workbench_labels}
use workbench_operator.Platform.{
  Answer, ok, err, list_jobs, list_deployments, update_workbench, delete_all_jobs,
  delete_all_deployments, record_event, Platform, World, Event,
}
use workbench_operator.Platform.Monad.{Result, returned, error, Outcome, value, stopped}
use workbench_operator.Platform.Contract.{
  History, Contract, Contract-pure, Contract-stop, Contract-call, Contract-bind, Contract-if, Ends,
}
use workbench_operator.Cluster.{
  find_jobs, delete_listed_jobs, delete_jobs, delete_listed_deployments, delete_deployments,
  after_jobs, delete_external_resources,
}
use workbench_operator.Reconcile.{
  finalizer, save_workbench, remove_finalizer, after_count, reconcile_deleted,
}

-- The list of the jobs with these labels came back empty.
abbrev pub NoJobs : Labels → Event → Type 0
NoJobs labels (list_jobs l, ok []) = l ≡ labels
NoJobs labels _ = ⊥

abbrev pub NoDeployments : Labels → Event → Type 0
NoDeployments labels (list_deployments l, ok []) = l ≡ labels
NoDeployments labels _ = ⊥

abbrev pub Justified : Labels → Event → History → Type 0
Justified labels (update_workbench _, _) h = Any (NoJobs labels) h × Any (NoDeployments labels) h
Justified labels _ h = Unit

-- Before each write of the workbench both lists have come back empty.
abbrev pub IsReleased : Labels → History → Type 0
IsReleased labels [] = Unit
IsReleased labels (e ∷ h) = Justified labels e h × IsReleased labels h

module _ (P : Platform) (config : Config) (wb : Workbench) where
  abbrev Safe : History → Type 0
  Safe = IsReleased (workbench_labels wb)

  abbrev JobsListed : Answer (List Job) → History → Type 0
  JobsListed (ok []) h = Safe h × Any (NoJobs (workbench_labels wb)) h
  JobsListed _ h = Safe h

  abbrev JobsGone : Result ℕ → History → Type 0
  JobsGone (returned zero) h = Safe h × Any (NoJobs (workbench_labels wb)) h
  JobsGone _ h = Safe h

  abbrev Gone : History → Type 0
  Gone h =
      Safe h × Any (NoJobs (workbench_labels wb)) h × Any (NoDeployments (workbench_labels wb)) h

  abbrev DeploymentsListed : Answer (List Deployment) → History → Type 0
  DeploymentsListed (ok []) h = Gone h
  DeploymentsListed _ h = Safe h

  abbrev AllGone : Result ℕ → History → Type 0
  AllGone (returned zero) h = Gone h
  AllGone _ h = Safe h

  jobs_listed :
      (a : Answer (List Job)) (h : History)
      → Safe h
      → JobsListed a ((list_jobs (workbench_labels wb), a) ∷ h)
  jobs_listed (ok []) h s = ((tt, s), inl refl)
  jobs_listed (ok (j ∷ js)) h s = (tt, s)
  jobs_listed (err e) h s = (tt, s)

  deployments_listed :
      (a : Answer (List Deployment)) (h : History)
      → Safe h × Any (NoJobs (workbench_labels wb)) h
      → DeploymentsListed a ((list_deployments (workbench_labels wb), a) ∷ h)
  deployments_listed (ok []) h (s, n) = ((tt, s), inr n, inl refl)
  deployments_listed (ok (d ∷ ds)) h (s, n) = (tt, s)
  deployments_listed (err e) h (s, n) = (tt, s)

  delete_listed_jobs-Gone :
      (js : List Job)
      → Contract (JobsListed (ok js)) (delete_listed_jobs P wb js) JobsGone (λ _. Safe)
  unfolding delete_listed_jobs
  delete_listed_jobs-Gone [] = Contract-pure _ (λ h s. s)
  delete_listed_jobs-Gone (j ∷ js) =
      Contract-bind (λ _. Safe) _ _
        (Contract-call P (delete_all_jobs wb.metadata.namespace (workbench_labels wb))
          (λ a h s. (tt, s)))
        (elim [ ok _ ↦ Contract-pure _ (λ h s. s) | err e ↦ Contract-pure _ (λ h s. s) ])

  delete_jobs-Gone : Contract Safe (delete_jobs P wb) JobsGone (λ _. Safe)
  unfolding delete_jobs find_jobs
  delete_jobs-Gone =
      Contract-bind JobsListed _ _ (Contract-call P (list_jobs (workbench_labels wb)) jobs_listed)
        (elim [ ok js ↦ delete_listed_jobs-Gone js | err e ↦ Contract-pure _ (λ h s. s) ])

  delete_listed_deployments-Gone :
      (ds : List Deployment)
      → Contract (DeploymentsListed (ok ds)) (delete_listed_deployments P wb ds) AllGone (λ _. Safe)
  unfolding delete_listed_deployments
  delete_listed_deployments-Gone [] = Contract-pure _ (λ h s. s)
  delete_listed_deployments-Gone (d ∷ ds) =
      Contract-bind (λ _. Safe) _ _
        (Contract-call P (delete_all_deployments wb.metadata.namespace (workbench_labels wb))
          (λ a h s. (tt, s)))
        (elim [ ok _ ↦ Contract-pure _ (λ h s. s) | err e ↦ Contract-pure _ (λ h s. s) ])

  after_jobs-Gone :
      (n : ℕ) → Contract (JobsGone (returned n)) (after_jobs P wb n) AllGone (λ _. Safe)
  unfolding after_jobs delete_deployments
  after_jobs-Gone zero =
      Contract-bind DeploymentsListed _ _
        (Contract-call P (list_deployments (workbench_labels wb)) deployments_listed)
        (elim [ ok ds ↦ delete_listed_deployments-Gone ds | err e ↦ Contract-pure _ (λ h s. s) ])
  after_jobs-Gone (suc n) = Contract-pure _ (λ h s. s)

  delete_external_resources-Gone :
      Contract Safe (delete_external_resources P wb) AllGone (λ _. Safe)
  unfolding delete_external_resources
  delete_external_resources-Gone =
      Contract-bind (λ _. Safe) _ _ (Contract-call P (record_event _ _ _) (λ a h s. (tt, s)))
        (λ _.
          Contract-bind JobsGone _ _ delete_jobs-Gone
            (elim [ returned n ↦ after_jobs-Gone n | error e ↦ Contract-pure _ (λ h s. s) ]))

  save_workbench-Released :
      (wb' : Workbench) → Contract Gone (save_workbench P config wb') (λ _. Safe) (λ _. Safe)
  unfolding save_workbench
  save_workbench-Released wb' =
      Contract-bind (λ _. Safe) _ _
        (Contract-call P (update_workbench wb') (λ a h (s, j, d). ((j, d), s)))
        (elim [ ok _ ↦ Contract-pure _ (λ h s. s) | err e ↦ Contract-stop _ (λ h s. s) ])

  after_count-Released :
      (n : ℕ) → Contract (AllGone (returned n)) (after_count P config wb n) (λ _. Safe) (λ _. Safe)
  unfolding after_count remove_finalizer
  after_count-Released zero =
      Contract-if (P.remove_finalizer wb.metadata finalizer).1 _ _
        (λ _.
          Contract-bind (λ _. Safe) _ _ (save_workbench-Released _)
            (λ _. Contract-stop _ (λ h s. s)))
        (λ _. Contract-stop _ (λ h g. g.0))
  after_count-Released (suc n) = Contract-stop _ (λ h s. s)

  reconcile_deleted-Released : Contract Safe (reconcile_deleted P config wb) (λ _. Safe) (λ _. Safe)
  unfolding reconcile_deleted
  reconcile_deleted-Released =
      Contract-if (P.contains_finalizer wb.metadata finalizer) _ _
        (λ _.
          Contract-bind AllGone _ _ delete_external_resources-Gone
            (elim [ returned n ↦ after_count-Released n | error e ↦ Contract-stop _ (λ h s. s) ]))
        (λ _. Contract-stop _ (λ h s. s))

  at_end : {A : Type 0} (o : Outcome A) (h : History) → Ends (λ _. Safe) (λ _. Safe) o h → Safe h
  at_end (value a) h s = s
  at_end (stopped v) h s = s

-- Whatever the platform answers, the teardown of a workbench that starts with an empty history writes
-- the workbench, and so gives up the finalizer, only after a list of the jobs and a list of the
-- deployments with the labels of the workbench have both come back empty.
pub reconcile_deleted-IsReleased :
    (P : Platform) (config : Config) (wb : Workbench) (w : World P)
    → w.history ≡ []
    → IsReleased (workbench_labels wb) (reconcile_deleted P config wb w).1.history
reconcile_deleted-IsReleased P config wb w e =
    at_end P config wb (reconcile_deleted P config wb w).0 _
      ((reconcile_deleted-Released P config wb).at w (rw e tt))
