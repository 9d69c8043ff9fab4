-- ===== src/Reconcile/Teardown.antt =====
-- The teardown on a cluster that keeps its word: which objects are left after each run of it.
pub mod Runs
pub mod Progress
use workbench_operator.Base.{
  ℕ, zero, suc, String, ◌<>◌, true, List, [], ◌∷◌, ◌≡◌, refl, ap, sym, ◌∙◌, arith, length,
  string_eq, ◌==◌, if◌then◌else◌,
}
use workbench_operator.Config.{Config}
use workbench_operator.Kube.{Labels, ObjectMeta, Job, Deployment}
use workbench_operator.Workbench.{Workbench}
use workbench_operator.Deployment.{workbench_labels}
use workbench_operator.Platform.{
  Answer, ok, Request, list_jobs, list_deployments, delete_all_jobs, delete_all_deployments,
  update_workbench, record_event, Platform, World,
}
use workbench_operator.Platform.Monad.{
  returned, Outcome, value, stopped, Verdict, done, requeue_after, ◌>>=◌,
}
use workbench_operator.Cluster.{
  find_jobs, delete_jobs, delete_listed_jobs, delete_deployments, delete_listed_deployments,
  after_jobs, delete_external_resources,
}
use workbench_operator.Reconcile.{
  finalizer, with_metadata, save_workbench, remove_finalizer, after_count, reconcile_deleted,
}

-- The items of the list that stand in another namespace.
module _ {A : Type 0} (meta : A → ObjectMeta) where
  abbrev pub outside : String → List A → List A
  outside ns [] = []
  outside ns (x ∷ xs) = if (meta x).namespace == ns then outside ns xs else x ∷ outside ns xs

-- What the API promises about the jobs and the deployments with the labels: a list shows them and
-- changes nothing, a deletion of all in a namespace leaves those of the other namespaces, an event
-- touches none, and the workbench can be written. The objects are gone when they are next listed.
pub record KeepsWord (P : Platform) (labels : Labels) : Type 0 where
  pub jobs : P.State → List Job
  pub deployments : P.State → List Deployment
  pub listed_jobs : (s : P.State) → P.answer (list_jobs labels) s ≡ (ok (jobs s), s)
  pub listed_deployments :
      (s : P.State) → P.answer (list_deployments labels) s ≡ (ok (deployments s), s)
  pub deletes_jobs :
      (ns : String) (s : P.State) → (P.answer (delete_all_jobs ns labels) s).0 ≡ ok tt
  pub jobs_left :
      (ns : String) (s : P.State)
      → jobs (P.answer (delete_all_jobs ns labels) s).1 ≡ outside (λ j. j.metadata) ns (jobs s)
  pub deployments_kept :
      (ns : String) (s : P.State)
      → deployments (P.answer (delete_all_jobs ns labels) s).1 ≡ deployments s
  pub deletes_deployments :
      (ns : String) (s : P.State) → (P.answer (delete_all_deployments ns labels) s).0 ≡ ok tt
  pub deployments_left :
      (ns : String) (s : P.State)
      → deployments (P.answer (delete_all_deployments ns labels) s).1
        ≡ outside (λ d. d.metadata) ns (deployments s)
  pub jobs_kept :
      (ns : String) (s : P.State) → jobs (P.answer (delete_all_deployments ns labels) s).1 ≡ jobs s
  pub event_jobs :
      (kind reason text : String) (s : P.State)
      → jobs (P.answer (record_event kind reason text) s).1 ≡ jobs s
  pub event_deployments :
      (kind reason text : String) (s : P.State)
      → deployments (P.answer (record_event kind reason text) s).1 ≡ deployments s
  pub saves :
      (wb : Workbench) (s : P.State)
      → (saved : Workbench) × ((P.answer (update_workbench wb) s).0 ≡ ok saved)

module _ (P : Platform) (config : Config) (wb : Workbench)
    (cluster : KeepsWord P (workbench_labels wb)) where
  open cluster use {jobs, deployments}

  -- The world after a call.
  abbrev pub after : Request → World P → World P
  after q w = record {
    state = (P.answer q w.state).1;
    history = (q, (P.answer q w.state).0) ∷ w.history;
  }

  abbrev pub list_jobs_call : Request
  list_jobs_call = list_jobs (workbench_labels wb)

  abbrev pub list_deployments_call : Request
  list_deployments_call = list_deployments (workbench_labels wb)

  abbrev pub drop_jobs_call : Request
  drop_jobs_call = delete_all_jobs wb.metadata.namespace (workbench_labels wb)

  abbrev pub drop_deployments_call : Request
  drop_deployments_call = delete_all_deployments wb.metadata.namespace (workbench_labels wb)

  delete_jobs-nil :
      (w : World P)
      → jobs w.state ≡ []
      → delete_jobs P wb w ≡ (value (returned 0), after list_jobs_call w)
  unfolding delete_jobs find_jobs delete_listed_jobs ◌>>=◌
  delete_jobs-nil w e = rw (cluster.listed_jobs w.state, e) refl

  delete_jobs-cons :
      (w : World P) (j : Job) (js : List Job)
      → jobs w.state ≡ j ∷ js
      → delete_jobs P wb w
        ≡ (value (returned (suc (length js))), after drop_jobs_call (after list_jobs_call w))
  unfolding delete_jobs find_jobs delete_listed_jobs ◌>>=◌
  delete_jobs-cons w j js e =
      rw (cluster.listed_jobs w.state, e, cluster.deletes_jobs wb.metadata.namespace w.state) refl

  delete_deployments-nil :
      (w : World P)
      → deployments w.state ≡ []
      → delete_deployments P wb w ≡ (value (returned 0), after list_deployments_call w)
  unfolding delete_deployments delete_listed_deployments ◌>>=◌
  delete_deployments-nil w e = rw (cluster.listed_deployments w.state, e) refl

  delete_deployments-cons :
      (w : World P) (d : Deployment) (ds : List Deployment)
      → deployments w.state ≡ d ∷ ds
      → delete_deployments P wb w ≡ (
        value (returned (suc (length ds))),
        after drop_deployments_call (after list_deployments_call w),
      )
  unfolding delete_deployments delete_listed_deployments ◌>>=◌
  delete_deployments-cons w d ds e =
      rw
        (
          cluster.listed_deployments w.state,
          e,
          cluster.deletes_deployments wb.metadata.namespace w.state,
        )
        refl

  abbrev event_call : Request
  event_call = record_event "Normal" "DeletingDeployments" (
      "Deleting deployment \"workbench=" <> wb.metadata.name <> "\" from the namespace \""
      <> wb.metadata.namespace <> "\"")

  -- The world of a run in which the jobs were listed.
  abbrev pub looked : World P → World P
  looked w = after list_jobs_call (after event_call w)

  pub looked_jobs : (w : World P) → jobs (looked w).state ≡ jobs w.state
  looked_jobs w =
      ap (λ (a : Answer (List Job) × P.State). jobs a.1)
        (cluster.listed_jobs (after event_call w).state)
      ∙ cluster.event_jobs _ _ _ w.state

  pub looked_deployments : (w : World P) → deployments (looked w).state ≡ deployments w.state
  looked_deployments w =
      ap (λ (a : Answer (List Job) × P.State). deployments a.1)
        (cluster.listed_jobs (after event_call w).state)
      ∙ cluster.event_deployments _ _ _ w.state

  pub delete_external_resources-jobs :
      (w : World P) (j : Job) (js : List Job)
      → jobs w.state ≡ j ∷ js
      → delete_external_resources P wb w
        ≡ (value (returned (suc (length js))), after drop_jobs_call (looked w))
  unfolding delete_external_resources after_jobs ◌>>=◌
  delete_external_resources-jobs w j js e =
      rw (delete_jobs-cons (after event_call w) j js (cluster.event_jobs _ _ _ w.state ∙ e)) refl

  pub delete_external_resources-deployments :
      (w : World P) (d : Deployment) (ds : List Deployment)
      → jobs w.state ≡ []
      → deployments w.state ≡ d ∷ ds
      → delete_external_resources P wb w ≡ (
        value (returned (suc (length ds))),
        after drop_deployments_call (after list_deployments_call (looked w)),
      )
  unfolding delete_external_resources after_jobs ◌>>=◌
  delete_external_resources-deployments w d ds e f =
      rw
        (
          delete_jobs-nil (after event_call w) (cluster.event_jobs _ _ _ w.state ∙ e),
          delete_deployments-cons (looked w) d ds (looked_deployments w ∙ f),
        )
        refl

  pub delete_external_resources-none :
      (w : World P)
      → jobs w.state ≡ []
      → deployments w.state ≡ []
      → delete_external_resources P wb w
        ≡ (value (returned 0), after list_deployments_call (looked w))
  unfolding delete_external_resources after_jobs ◌>>=◌
  delete_external_resources-none w e f =
      rw
        (
          delete_jobs-nil (after event_call w) (cluster.event_jobs _ _ _ w.state ∙ e),
          delete_deployments-nil (looked w) (looked_deployments w ∙ f),
        )
        refl
