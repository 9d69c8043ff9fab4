-- ===== src/Reconcile/Jobs/Apps/Phase.antt =====
-- The part of Reconcile below the test of the server, on a cluster that stores jobs
-- (workbench_controller.go).
use workbench_operator.Base.{
  String, true, false, List, [], ◌∷◌, ◌≡◌, refl, ap, ◌∙◌, ◌⊎◌, inl, inr, All,
}
use workbench_operator.Base.Dict.{Dict}
use mathlib.Core.Path.{subst}
use workbench_operator.Kube.{Job, Service}
use workbench_operator.Config.{Config}
use workbench_operator.Workbench.{Workbench, WorkbenchApp}
use workbench_operator.Names.Laws.{Listed}
use workbench_operator.Platform.{Platform, World, delete_job, list_jobs}
use workbench_operator.Platform.Monad.{value, ◌>>=◌}
use workbench_operator.Platform.Ensures.{
  Ensures, Ensures-pure, Ensures-bind, Ensures-fact, Ensures-weaken,
}
use workbench_operator.Cluster.Converge.{IsSameBench}
use workbench_operator.Cluster.Jobs.{StoresApps, HasJob}
use workbench_operator.Reconcile.Jobs.Apps.{job_key, IsExcused}
use workbench_operator.Names.{sort, binary_search}
use workbench_operator.Names.Laws.{binary_search-sort}
use workbench_operator.Base.{Bool-cases}
use workbench_operator.Deployment.{workbench_labels}
use workbench_operator.Cluster.{find_jobs}
use workbench_operator.Reconcile.{
  delete_if_extra, delete_extra_jobs, clean_up, apps_phase, xpra_ready,
}
use workbench_operator.Reconcile.Jobs.Apps.Loop.{
  AllHeld, AllHeld-kept, Done, Looped, reconcile_apps-Looped,
}

not-Listed :
    (names : List String) (name : String)
    → binary_search (sort names) name ≡ false
    → ¬ (Listed name names)
not-Listed names name e l = let f = (binary_search-sort names name).1 l in cc

module _ (P : Platform) (cluster : StoresApps P) (config : Config) (wb0 : Workbench)
    (names : List String) where
  AllHeld-spared :
      (j : Job) (s : P.State)
      → ¬ (Listed j.metadata.name names)
      → AllHeld P cluster config wb0 names s
      → AllHeld P cluster config wb0 names (P.answer (delete_job j) s).1
  AllHeld-spared j s unlisted held n l =
      let (job, there) = held n l in
      (
        job,
        cluster.spares j s (record { name = n; namespace = wb0.metadata.namespace })
              (λ e. unlisted (subst (λ n. Listed n names) (ap (λ k. k.name) e) l))
            ∙ there,
      )

  delete_if_extra-AllHeld :
      (j : Job)
      → Ensures
          (AllHeld P cluster config wb0 names)
          (delete_if_extra P config (sort names) j)
          (λ _. AllHeld P cluster config wb0 names)
  unfolding delete_if_extra ◌>>=◌
  delete_if_extra-AllHeld j = elim (Bool-cases (binary_search (sort names) j.metadata.name)) [
    | inl found ↦ rw found (Ensures-pure _ (λ s held. held))
    | inr extra ↦ rw extra (record {
      at = λ w held.
          rw (cluster.deletes j w.state)
            (tt, refl, AllHeld-spared j w.state (not-Listed names j.metadata.name extra) held);
    })
  ]

  delete_extra_jobs-AllHeld :
      (js : List Job)
      → Ensures
          (AllHeld P cluster config wb0 names)
          (delete_extra_jobs P config (sort names) js)
          (λ _. AllHeld P cluster config wb0 names)
  unfolding delete_extra_jobs
  delete_extra_jobs-AllHeld [] = Ensures-pure _ (λ s held. held)
  delete_extra_jobs-AllHeld (j ∷ js) =
      Ensures-bind (λ _. AllHeld P cluster config wb0 names) _ _ (delete_if_extra-AllHeld j)
        (λ _. delete_extra_jobs-AllHeld js)

  clean_up-AllHeld :
      (wb : Workbench)
      → Ensures
          (AllHeld P cluster config wb0 names)
          (clean_up P config wb names)
          (λ _. AllHeld P cluster config wb0 names)
  unfolding clean_up find_jobs ◌>>=◌
  clean_up-AllHeld wb = record {
    at = λ w held.
        let q = list_jobs (workbench_labels wb) in
        let (js, listed) = cluster.lists (workbench_labels wb) w.state in
        rw listed (
          (delete_extra_jobs-AllHeld js).at _
            (AllHeld-kept P cluster config wb0 names q w.state tt held));
  }

-- What is expected of an app: its job is held, or there is none to expect.
abbrev pub HasItsJob :
    (P : Platform) → StoresApps P → Config → Workbench → P.State → String × WorkbenchApp → Type 0
HasItsJob P cluster config wb s (uid, app) =
    HasJob P cluster (job_key wb uid app) s ⊎ IsExcused P cluster config wb uid app

Done-HasItsJob :
    (P : Platform) (cluster : StoresApps P) (config : Config) (wb : Workbench) (names : List String)
    (s : P.State) (apps : Dict WorkbenchApp)
    → AllHeld P cluster config wb names s
    → All (Done P cluster config wb names) apps
    → All (HasItsJob P cluster config wb s) apps
Done-HasItsJob P cluster config wb names s [] held done = tt
Done-HasItsJob P cluster config wb names s ((uid, app) ∷ apps) held (inl l, done) = (
  inl (held (job_key wb uid app).name l),
  Done-HasItsJob P cluster config wb names s apps held done,
)
Done-HasItsJob P cluster config wb names s ((uid, app) ∷ apps) held (inr x, done) =
    (inr x, Done-HasItsJob P cluster config wb names s apps held done)

pub ready_phase :
    (P : Platform) (cluster : StoresApps P) (config : Config) (wb0 wb : Workbench)
    (service : Service)
    → IsSameBench wb wb0
    → xpra_ready wb ≡ true
    → Ensures {P = P}
        (λ _. Unit {0})
        (apps_phase P config wb service)
        (λ _ s. All (HasItsJob P cluster config wb0 s) wb.spec.apps)
unfolding apps_phase
ready_phase P cluster config wb0 wb service same is_ready = rw is_ready (
    Ensures-bind (Looped P cluster config wb0 wb.spec.apps []) _ _
      (Ensures-weaken (λ s _ n l. absurd l) (λ r s looped. looped)
        (reconcile_apps-Looped P cluster config wb0 service wb.spec.apps wb [] same))
      (λ (wb', names). Ensures-fact (λ same'. Ensures-fact (λ (grown, done).
        Ensures-weaken (λ s h. h)
          (λ _ s held. Done-HasItsJob P cluster config wb0 names s wb.spec.apps held done)
          (clean_up-AllHeld P cluster config wb0 names wb')))))

-- On a platform that stores jobs and accepts the status, the updates of the jobs that it holds and the
-- deletions that it is asked for, once the server is ready the reconciliation of the apps ends in a
-- value, and after it, so after the deletion of the extra jobs, the platform holds a job under the
-- name of each app of the workbench, but of those that are not to run and of those that initJob
-- refuses in some world.
pub apps_phase-HasItsJob :
    (P : Platform) (cluster : StoresApps P) (config : Config) (wb : Workbench) (service : Service)
    (w : World P)
    → xpra_ready wb ≡ true
    → let (outcome, w') = apps_phase P config wb service w in
      (outcome ≡ value tt) × All (HasItsJob P cluster config wb w'.state) wb.spec.apps
apps_phase-HasItsJob P cluster config wb service w is_ready =
    let (_, e, held) = (ready_phase P cluster config wb wb service (refl, refl) is_ready).at w tt in
    (e, held)
