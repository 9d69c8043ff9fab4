-- ===== src/Reconcile/Teardown/Runs.antt =====
-- The runs of the teardown, one after the other: controller-runtime runs the reconciliation again
-- after a requeue.
use workbench_operator.Base.{ℕ, zero, suc, true, List, [], ◌∷◌, ◌≡◌, refl, ap, ◌∙◌, string_eq}
use workbench_operator.Config.{Config}
use workbench_operator.Kube.{Job, Deployment}
use workbench_operator.Workbench.{Workbench}
use workbench_operator.Deployment.{workbench_labels}
use workbench_operator.Platform.{Answer, ok, update_workbench, Platform, World}
use workbench_operator.Platform.Monad.{
  Outcome, value, stopped, Verdict, done, requeue_after, failed, panicked, ◌>>=◌,
}
use workbench_operator.Reconcile.{
  finalizer, with_metadata, save_workbench, remove_finalizer, after_count, reconcile_deleted,
}
use workbench_operator.Reconcile.Teardown.{
  KeepsWord, outside, after, list_deployments_call, drop_jobs_call, drop_deployments_call, looked,
  looked_jobs, looked_deployments, delete_external_resources-jobs,
  delete_external_resources-deployments, delete_external_resources-none,
}

-- The workbench as it is saved without the finalizer.
abbrev pub released : Platform → Workbench → Workbench
released P wb = with_metadata wb (P.remove_finalizer wb.metadata finalizer).0

-- What is left in the cluster.
pub record Objects : Type 0 where
  pub jobs : List Job
  pub deployments : List Deployment

-- After a run: the next ones if it asked for another, or the end.
abbrev pub proceed :
    {P : Platform}
    → (World P → Verdict × World P)
    → Outcome (Unit {0}) × World P
    → Verdict × World P
proceed next (stopped (requeue_after _), w) = next w
proceed next (stopped done, w) = (done, w)
proceed next (stopped (failed e), w) = (failed e, w)
proceed next (stopped panicked, w) = (panicked, w)
proceed next (value _, w) = (done, w)

module _ (P : Platform) (config : Config) (wb : Workbench) where
  -- At most so many runs, as long as each asks for another.
  unfoldable pub runs : ℕ → World P → Verdict × World P
  runs zero w = (requeue_after 5, w)
  runs (suc n) w = proceed (runs n) (reconcile_deleted P config wb w)

module _ (P : Platform) (config : Config) (wb : Workbench)
    (cluster : KeepsWord P (workbench_labels wb))
    (held : P.contains_finalizer wb.metadata finalizer ≡ true) where
  pub reconcile_deleted-jobs :
      (w : World P) (j : Job) (js : List Job)
      → cluster.jobs w.state ≡ j ∷ js
      → reconcile_deleted P config wb w ≡ (
        stopped (requeue_after 5),
        after P config wb cluster
            (drop_jobs_call P config wb cluster)
            (looked P config wb cluster w),
      )
  unfolding reconcile_deleted after_count ◌>>=◌
  reconcile_deleted-jobs w j js e =
      rw (held, delete_external_resources-jobs P config wb cluster w j js e) refl

  pub reconcile_deleted-deployments :
      (w : World P) (d : Deployment) (ds : List Deployment)
      → cluster.jobs w.state ≡ []
      → cluster.deployments w.state ≡ d ∷ ds
      → reconcile_deleted P config wb w ≡ (
        stopped (requeue_after 5),
        after P config wb cluster (drop_deployments_call P config wb cluster) (
            after P config wb cluster
              (list_deployments_call P config wb cluster)
              (looked P config wb cluster w)),
      )
  unfolding reconcile_deleted after_count ◌>>=◌
  reconcile_deleted-deployments w d ds e f =
      rw (held, delete_external_resources-deployments P config wb cluster w d ds e f) refl

  save_workbench-ok :
      (wb' saved : Workbench) (w : World P)
      → (P.answer (update_workbench wb') w.state).0 ≡ ok saved
      → save_workbench P config wb' w
        ≡ (value saved, after P config wb cluster (update_workbench wb') w)
  unfolding save_workbench ◌>>=◌
  save_workbench-ok wb' saved w e = rw e refl

  pub reconcile_deleted-none :
      (w : World P)
      → (P.remove_finalizer wb.metadata finalizer).1 ≡ true
      → cluster.jobs w.state ≡ []
      → cluster.deployments w.state ≡ []
      → reconcile_deleted P config wb w ≡ (
        stopped done,
        after P config wb cluster (update_workbench (released P wb)) (
            after P config wb cluster
              (list_deployments_call P config wb cluster)
              (looked P config wb cluster w)),
      )
  unfolding reconcile_deleted after_count remove_finalizer ◌>>=◌
  reconcile_deleted-none w m e f =
      let w' =
        after P config wb cluster (list_deployments_call P config wb cluster)
          (looked P config wb cluster w) in
      let (saved, q) = cluster.saves (released P wb) w'.state in
      rw
        (
          held,
          delete_external_resources-none P config wb cluster w e f,
          m,
          save_workbench-ok (released P wb) saved w' q,
        )
        refl

  pub jobs_dropped :
      (w : World P)
      → cluster.jobs
          (after P config wb cluster
            (drop_jobs_call P config wb cluster)
            (looked P config wb cluster w)).state
        ≡ outside (λ j. j.metadata) wb.metadata.namespace (cluster.jobs w.state)
  jobs_dropped w =
      cluster.jobs_left wb.metadata.namespace (looked P config wb cluster w).state
      ∙ ap (outside (λ j. j.metadata) wb.metadata.namespace) (looked_jobs P config wb cluster w)

  pub deployments_stay :
      (w : World P)
      → cluster.deployments
          (after P config wb cluster
            (drop_jobs_call P config wb cluster)
            (looked P config wb cluster w)).state
        ≡ cluster.deployments w.state
  deployments_stay w =
      cluster.deployments_kept wb.metadata.namespace (looked P config wb cluster w).state
      ∙ looked_deployments P config wb cluster w

  -- The state in which the deployments were listed.
  abbrev pub seen : World P → World P
  seen w =
      after P config wb cluster (list_deployments_call P config wb cluster)
        (looked P config wb cluster w)

  seen_jobs : (w : World P) → cluster.jobs (seen w).state ≡ cluster.jobs w.state
  seen_jobs w =
      ap (λ (a : Answer (List Deployment) × P.State). cluster.jobs a.1)
        (cluster.listed_deployments (looked P config wb cluster w).state)
      ∙ looked_jobs P config wb cluster w

  seen_deployments :
      (w : World P) → cluster.deployments (seen w).state ≡ cluster.deployments w.state
  seen_deployments w =
      ap (λ (a : Answer (List Deployment) × P.State). cluster.deployments a.1)
        (cluster.listed_deployments (looked P config wb cluster w).state)
      ∙ looked_deployments P config wb cluster w

  pub jobs_stay :
      (w : World P)
      → cluster.jobs
          (after P config wb cluster (drop_deployments_call P config wb cluster) (seen w)).state
        ≡ cluster.jobs w.state
  jobs_stay w = cluster.jobs_kept wb.metadata.namespace (seen w).state ∙ seen_jobs w

  pub deployments_dropped :
      (w : World P)
      → cluster.deployments
          (after P config wb cluster (drop_deployments_call P config wb cluster) (seen w)).state
        ≡ outside (λ d. d.metadata) wb.metadata.namespace (cluster.deployments w.state)
  deployments_dropped w =
      cluster.deployments_left wb.metadata.namespace (seen w).state
      ∙ ap (outside (λ d. d.metadata) wb.metadata.namespace) (seen_deployments w)
