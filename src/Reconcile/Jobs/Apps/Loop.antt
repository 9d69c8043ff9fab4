-- ===== src/Reconcile/Jobs/Apps/Loop.antt =====
-- The loop of Reconcile over the apps as a whole (workbench_controller.go).
use workbench_operator.Base.{
  String, Option, none, some, List, [], ◌∷◌, ◌++◌, ◌≡◌, sym, ◌⊎◌, inl, inr, All,
}
use workbench_operator.Base.Dict.{Dict}
use mathlib.Core.Path.{subst}
use workbench_operator.Kube.{Service}
use workbench_operator.Config.{Config}
use workbench_operator.Workbench.{Workbench, WorkbenchApp}
use workbench_operator.Names.Laws.{Listed}
use workbench_operator.Platform.{Platform}
use workbench_operator.Platform.Ensures.{
  Ensures, Ensures-pure, Ensures-bind, Ensures-fact, Ensures-weaken,
}
use workbench_operator.Cluster.Converge.{IsSameBench}
use workbench_operator.Cluster.Jobs.{StoresApps, HasJob}
use workbench_operator.Reconcile.{reconcile_app, reconcile_apps, append_name}
use workbench_operator.Reconcile.Jobs.{IsKept}
use workbench_operator.Reconcile.KeptJobs.{Listed-append_left, Listed-append_last}
use workbench_operator.Reconcile.Jobs.Apps.{job_key, IsExcused, reconcile_app-Handled}

Listed-snoc :
    (n x : String) (names : List String) → Listed n (names ++ x ∷ []) → Listed n names ⊎ (x ≡ n)
Listed-snoc n x [] (inl e) = inr e
Listed-snoc n x [] (inr none_left) = absurd none_left
Listed-snoc n x (y ∷ names) (inl e) = inl (inl e)
Listed-snoc n x (y ∷ names) (inr l) = elim (Listed-snoc n x names l) [
  | inl before ↦ inl (inr before)
  | inr e ↦ inr e
]

module _ (P : Platform) (cluster : StoresApps P) (config : Config) (wb0 : Workbench) where
  -- The jobs with these names are held, in the namespace of the workbench.
  abbrev pub AllHeld : List String → P.State → Type 0
  AllHeld names s =
      (n : String)
      → Listed n names
      → HasJob P cluster (record { name = n; namespace = wb0.metadata.namespace }) s

  pub AllHeld-kept : (names : List String) → IsKept P cluster config (AllHeld names)
  AllHeld-kept names q s t held n l = cluster.kept q s _ t (held n l)

  abbrev pub Done : List String → String × WorkbenchApp → Type 0
  Done names (uid, app) =
      Listed (job_key wb0 uid app).name names ⊎ IsExcused P cluster config wb0 uid app

  abbrev Grown : List String → List String → Type 0
  Grown names names' = (n : String) → Listed n names → Listed n names'

  abbrev pub Looped : Dict WorkbenchApp → List String → Workbench × List String → P.State → Type 0
  Looped apps names (wb', names') s =
      IsSameBench wb' wb0 × ((Grown names names' × All (Done names') apps) × AllHeld names' s)

  -- What one app adds to the names.
  Noticed : String → WorkbenchApp → Option String → Type 0
  Noticed uid app name =
      (name ≡ some (job_key wb0 uid app).name) ⊎ IsExcused P cluster config wb0 uid app

  Grown-append : (names : List String) (name : Option String) → Grown names (append_name names name)
  Grown-append names none n l = l
  Grown-append names (some name) n l = Listed-append_left n names (name ∷ []) l

  Noticed-Done :
      (names names' : List String) (uid : String) (app : WorkbenchApp) (name : Option String)
      → Noticed uid app name
      → Grown (append_name names name) names'
      → Done names' (uid, app)
  unfolding Noticed
  Noticed-Done names names' uid app name (inl e) grown = inl (
      grown (job_key wb0 uid app).name (
        subst (λ o. Listed (job_key wb0 uid app).name (append_name names o)) (sym e)
          (Listed-append_last (job_key wb0 uid app).name names)))
  Noticed-Done names names' uid app name (inr x) grown = inr x

  AllHeld-snoc :
      (names : List String) (x : String) (s : P.State)
      → HasJob P cluster (record { name = x; namespace = wb0.metadata.namespace }) s
      → AllHeld names s
      → AllHeld (names ++ x ∷ []) s
  AllHeld-snoc names x s job held n l = elim (Listed-snoc n x names l) [
    | inl before ↦ held n before
    | inr e ↦
        subst (λ n. HasJob P cluster (record { name = n; namespace = wb0.metadata.namespace }) s) e
          job
  ]

  AllHeld-append :
      (names : List String) (uid : String) (app : WorkbenchApp) (name : Option String) (s : P.State)
      → ((name ≡ some (job_key wb0 uid app).name) × HasJob P cluster (job_key wb0 uid app) s)
        ⊎ ((name ≡ none) × IsExcused P cluster config wb0 uid app)
      → AllHeld names s
      → Noticed uid app name × AllHeld (append_name names name) s
  unfolding Noticed
  AllHeld-append names uid app name s (inl (e, job)) held = (
    inl e,
    subst (λ o. AllHeld (append_name names o) s) (sym e)
        (AllHeld-snoc names (job_key wb0 uid app).name s job held),
  )
  AllHeld-append names uid app name s (inr (e, x)) held =
      (inr x, subst (λ o. AllHeld (append_name names o) s) (sym e) held)

  app-Noticed :
      (service : Service) (wb : Workbench) (names : List String) (uid : String) (app : WorkbenchApp)
      → IsSameBench wb wb0
      → Ensures (AllHeld names) (reconcile_app P config wb service uid app) (λ (wb', name) s.
        IsSameBench wb' wb0 × (Noticed uid app name × AllHeld (append_name names name) s))
  app-Noticed service wb names uid app same =
      Ensures-weaken (λ s h. h)
        (λ (wb', name) s (same', (expected, held)).
          (same', AllHeld-append names uid app name s expected held))
        (reconcile_app-Handled P cluster config wb0 (AllHeld names) (AllHeld-kept names) wb same
          service uid app)

  pub reconcile_apps-Looped :
      (service : Service) (apps : Dict WorkbenchApp) (wb : Workbench) (names : List String)
      → IsSameBench wb wb0
      → Ensures (AllHeld names) (reconcile_apps P config service apps wb names) (Looped apps names)
  unfolding reconcile_apps
  reconcile_apps-Looped service [] wb names same =
      Ensures-pure _ (λ s held. (same, ((λ n l. l, tt), held)))
  reconcile_apps-Looped service ((uid, app) ∷ apps) wb names same =
      Ensures-bind _ _ _ (app-Noticed service wb names uid app same) (λ (wb', name).
        Ensures-fact (λ same'. Ensures-fact (λ noticed.
          Ensures-weaken (λ s h. h)
            (λ (wb'', names') s (same'', ((grown, done), held)). (
              same'',
              (
                (
                  λ n l. grown n (Grown-append names name n l),
                  (Noticed-Done names names' uid app name noticed grown, done),
                ),
                held,
              ),
            ))
            (reconcile_apps-Looped service apps wb' (append_name names name) same'))))
