-- ===== src/Reconcile/Teardown/Progress.antt =====
-- The teardown as steps of an abstract machine on the objects that are left, and where its runs end.
use mathlib.Core.Path.{subst}
use workbench_operator.Base.{
  ℕ, zero, suc, String, true, List, [], ◌∷◌, ◌≡◌, refl, ap, sym, ◌∙◌, ◌≢◌, ◌⊎◌, arith, string_eq,
  ◌==◌, Bool-cases, inl, inr,
}
use workbench_operator.Config.{Config}
use workbench_operator.Kube.{Job, Deployment, ObjectMeta}
use workbench_operator.Workbench.{Workbench}
use workbench_operator.Deployment.{workbench_labels}
use workbench_operator.Platform.{Answer, update_workbench, Platform, World}
use workbench_operator.Platform.Monad.{Verdict, done, requeue_after}
use workbench_operator.Platform.Contract.{History}
use workbench_operator.Reconcile.{finalizer, reconcile_deleted, verdict}
use workbench_operator.Reconcile.Teardown.{
  KeepsWord, outside, after, drop_jobs_call, drop_deployments_call, looked,
}
use workbench_operator.Reconcile.Teardown.Runs.{
  Objects, released, runs, proceed, reconcile_deleted-jobs, reconcile_deleted-deployments,
  reconcile_deleted-none, jobs_dropped, deployments_stay, seen, jobs_stay, deployments_dropped,
}

List-cases : {A : Type 0} (xs : List A) → (xs ≡ []) ⊎ ((x : A) × (ys : List A) × (xs ≡ x ∷ ys))
List-cases [] = inl refl
List-cases (x ∷ ys) = inr (x, ys, refl)

-- One run of the abstract teardown in a namespace: while there are jobs, those of the namespace go;
-- when there are none, the deployments; and when there is nothing left, the finalizer.
pub data Step (ns : String) (o : Objects) (v : Verdict) (o' : Objects) : Type 0 where
  drop_jobs :
      o.jobs ≢ []
      → v ≡ requeue_after 5
      → o'.jobs ≡ outside (λ j. j.metadata) ns o.jobs
      → o'.deployments ≡ o.deployments
      → Step ns o v o'
  drop_deployments :
      o.jobs ≡ []
      → o.deployments ≢ []
      → v ≡ requeue_after 5
      → o'.jobs ≡ []
      → o'.deployments ≡ outside (λ d. d.metadata) ns o.deployments
      → Step ns o v o'
  release : o.jobs ≡ [] → o.deployments ≡ [] → v ≡ done → Step ns o v o'

cons_differs : {A : Type 0} (xs : List A) (y : A) (ys : List A) → xs ≡ y ∷ ys → xs ≢ []
cons_differs xs y ys e n = ground arith

-- The objects with the labels that the cluster holds.
abbrev pub view :
    {P : Platform} (wb : Workbench) → KeepsWord P (workbench_labels wb) → P.State → Objects
view wb cluster s = record { jobs = cluster.jobs s; deployments = cluster.deployments s }

-- On a cluster that keeps its word, each run of the teardown of a workbench that holds the finalizer
-- is one step of the abstract teardown in the namespace of the workbench.
pub reconcile_deleted-Step :
    (P : Platform) (config : Config) (wb : Workbench) (cluster : KeepsWord P (workbench_labels wb))
    (w : World P)
    → P.contains_finalizer wb.metadata finalizer ≡ true
    → (P.remove_finalizer wb.metadata finalizer).1 ≡ true
    → let (o, w') = reconcile_deleted P config wb w in
      Step wb.metadata.namespace
        (view wb cluster w.state)
        (verdict P config o)
        (view wb cluster w'.state)
reconcile_deleted-Step P config wb cluster w held m = elim (List-cases (cluster.jobs w.state)) [
  | inr (j, js, e) ↦ rw (reconcile_deleted-jobs P config wb cluster held w j js e) (
      drop_jobs (cons_differs _ j js e) refl (jobs_dropped P config wb cluster held w)
        (deployments_stay P config wb cluster held w))
  | inl e ↦ elim (List-cases (cluster.deployments w.state)) [
    | inr (d, ds, f) ↦ rw (reconcile_deleted-deployments P config wb cluster held w d ds e f) (
        drop_deployments e (cons_differs _ d ds f) refl (jobs_stay P config wb cluster held w ∙ e)
          (deployments_dropped P config wb cluster held w))
    | inl f ↦ rw (reconcile_deleted-none P config wb cluster held w m e f) (release e f refl)
  ]
]

module _ {A : Type 0} (meta : A → ObjectMeta) (ns : String) where
  outside_idem : (xs : List A) → outside meta ns (outside meta ns xs) ≡ outside meta ns xs
  outside_idem [] = refl
  outside_idem (x ∷ xs) = elim (Bool-cases ((meta x).namespace == ns)) [
    | inl here ↦ rw here (outside_idem xs)
    | inr there ↦ rw (there, there) (ap (λ ys. x ∷ ys) (outside_idem xs))
  ]

-- The runs ended in a result without a requeue, and their last call wrote the workbench without the
-- finalizer.
abbrev pub GivesUp : (P : Platform) → Workbench → Verdict × World P → Type 0
GivesUp P wb (v, w) =
    (v ≡ done)
    × (a : Answer Workbench) × (h : History) × (w.history
        ≡ (update_workbench (released P wb), a) ∷ h)

module _ (P : Platform) (config : Config) (wb : Workbench)
    (cluster : KeepsWord P (workbench_labels wb))
    (held : P.contains_finalizer wb.metadata finalizer ≡ true) where
  runs-jobs :
      (n : ℕ) (w : World P) (j : Job) (js : List Job)
      → cluster.jobs w.state ≡ j ∷ js
      → runs P config wb (suc n) w
        ≡ runs P config wb n (
            after P config wb cluster
              (drop_jobs_call P config wb cluster)
              (looked P config wb cluster w))
  unfolding runs
  runs-jobs n w j js e =
      ap (proceed (runs P config wb n)) (reconcile_deleted-jobs P config wb cluster held w j js e)

  runs-deployments :
      (n : ℕ) (w : World P) (d : Deployment) (ds : List Deployment)
      → cluster.jobs w.state ≡ []
      → cluster.deployments w.state ≡ d ∷ ds
      → runs P config wb (suc n) w
        ≡ runs P config wb n (
            after P config wb cluster
              (drop_deployments_call P config wb cluster)
              (seen P config wb cluster held w))
  unfolding runs
  runs-deployments n w d ds e f =
      ap (proceed (runs P config wb n))
        (reconcile_deleted-deployments P config wb cluster held w d ds e f)

  -- A job of another namespace is never deleted, and the runs never end.
  runs-stuck :
      (n : ℕ) (w : World P) (j : Job) (js : List Job)
      → outside (λ i. i.metadata) wb.metadata.namespace (cluster.jobs w.state) ≡ j ∷ js
      → (runs P config wb n w).0 ≡ requeue_after 5
  unfolding runs
  runs-stuck zero w j js e = refl
  runs-stuck (suc n) w j js e = elim (List-cases (cluster.jobs w.state)) [
    | inl none ↦ cc (e, ap (outside (λ i. i.metadata) wb.metadata.namespace) none)
    | inr (i, is, f) ↦ rw (runs-jobs n w i is f) (
        runs-stuck n _ j js (
          ap (outside (λ i. i.metadata) wb.metadata.namespace)
            (jobs_dropped P config wb cluster held w)
          ∙ outside_idem (λ i. i.metadata) wb.metadata.namespace (cluster.jobs w.state)
          ∙ e))
  ]

  module _ (m : (P.remove_finalizer wb.metadata finalizer).1 ≡ true) where
    runs-none :
        (n : ℕ) (w : World P)
        → cluster.jobs w.state ≡ []
        → cluster.deployments w.state ≡ []
        → GivesUp P wb (runs P config wb (suc n) w)
    unfolding runs
    runs-none n w e f =
        subst (λ r. GivesUp P wb (proceed (runs P config wb n) r))
          (sym (reconcile_deleted-none P config wb cluster held w m e f)) (refl, _, _, refl)

    runs-no_jobs :
        (n : ℕ) (w : World P)
        → cluster.jobs w.state ≡ []
        → outside (λ d. d.metadata) wb.metadata.namespace (cluster.deployments w.state) ≡ []
        → GivesUp P wb (runs P config wb (suc (suc n)) w)
    runs-no_jobs n w e g = elim (List-cases (cluster.deployments w.state)) [
      | inl f ↦ runs-none (suc n) w e f
      | inr (d, ds, f) ↦ rw (runs-deployments (suc n) w d ds e f) (
          runs-none n _ (jobs_stay P config wb cluster held w ∙ e)
            (deployments_dropped P config wb cluster held w ∙ g))
    ]

    runs-all :
        (n : ℕ) (w : World P)
        → outside (λ j. j.metadata) wb.metadata.namespace (cluster.jobs w.state) ≡ []
        → outside (λ d. d.metadata) wb.metadata.namespace (cluster.deployments w.state) ≡ []
        → GivesUp P wb (runs P config wb (suc (suc (suc n))) w)
    runs-all n w h g = elim (List-cases (cluster.jobs w.state)) [
      | inl e ↦ runs-no_jobs (suc n) w e g
      | inr (j, js, e) ↦ rw (runs-jobs (suc (suc n)) w j js e) (
          runs-no_jobs n _ (jobs_dropped P config wb cluster held w ∙ h) (
            ap (outside (λ d. d.metadata) wb.metadata.namespace)
              (deployments_stay P config wb cluster held w)
            ∙ g))
    ]

-- On a cluster that keeps its word, where all jobs and deployments with the labels of the workbench
-- stand in its namespace, three runs of the teardown of a workbench that holds the finalizer are
-- enough: the last call of the runs writes the workbench without the finalizer, and they end in a
-- result that asks for no more.
pub runs-GivesUp :
    (P : Platform) (config : Config) (wb : Workbench) (cluster : KeepsWord P (workbench_labels wb))
    (w : World P)
    → P.contains_finalizer wb.metadata finalizer ≡ true
    → (P.remove_finalizer wb.metadata finalizer).1 ≡ true
    → outside (λ j. j.metadata) wb.metadata.namespace (cluster.jobs w.state) ≡ []
    → outside (λ d. d.metadata) wb.metadata.namespace (cluster.deployments w.state) ≡ []
    → GivesUp P wb (runs P config wb 3 w)
runs-GivesUp P config wb cluster w held m h g = runs-all P config wb cluster held m 0 w h g

-- On such a cluster, where some job with the labels of the workbench stands in another namespace, no
-- number of runs ends the teardown: it asks for another run each time.
pub runs-requeue :
    (P : Platform) (config : Config) (wb : Workbench) (cluster : KeepsWord P (workbench_labels wb))
    (w : World P) (n : ℕ)
    → P.contains_finalizer wb.metadata finalizer ≡ true
    → outside (λ j. j.metadata) wb.metadata.namespace (cluster.jobs w.state) ≢ []
    → (runs P config wb n w).0 ≡ requeue_after 5
runs-requeue P config wb cluster w n held other =
    elim (List-cases (outside (λ j. j.metadata) wb.metadata.namespace (cluster.jobs w.state))) [
      | inl e ↦ absurd (other e)
      | inr (j, js, e) ↦ runs-stuck P config wb cluster held n w j js e
    ]
