-- ===== src/Workbench/Status/Allowed.antt =====
-- What a status can hold, whatever deployments, jobs and pods it was updated from.
use workbench_operator.Base.{
  String, Bool, true, false, Option, none, some, List, [], ◌∷◌, ◌≡◌, refl, ◌∙◌, ◌⊎◌, inl, inr,
  int_eq, string_eq, ◌==◌, arith, Bool-cases, Option-cases,
}
use workbench_operator.Base.Dict.{
  lookup, HasUniqueKeys, insert-HasUniqueKeys, AllValues, insert-AllValues,
}
use workbench_operator.Kube.{Deployment, DeploymentCondition, Job, JobStatus}
use workbench_operator.Workbench.{
  Workbench, WorkbenchStatusApp, WorkbenchStatus, ServerPodHealth, app_failed, app_unknown,
}
use workbench_operator.Health.{set_server_pod_health, change_health, same_health}
use workbench_operator.Workbench.Status.{
  deployment_revision, condition_status, update_server_status, update_status_from_deployment,
  job_app_status, grow_apps, app_or_zero, app_or_new, update_status_from_job, set_app_status_failed,
  set_app,
}
use workbench_operator.Workbench.Status.Laws.{IsServerStatus, IsAppStatus, condition_status_values}

-- One of the statuses that the custom resource knows for an app.
abbrev pub IsKnown : WorkbenchStatusApp → Type 0
IsKnown a = (a.status ≡ app_unknown) ⊎ IsAppStatus a.status

-- The server has a status that the custom resource knows, or none; each app has one, under a key of
-- its own.
pub record IsAllowed (s : WorkbenchStatus) : Type 0 where
  pub server : (s.server_deployment.status ≡ "") ⊎ IsServerStatus s.server_deployment.status
  pub known : AllValues IsKnown s.apps
  pub keys : HasUniqueKeys s.apps

-- One update of a workbench.
pub data Update (wb wb' : Workbench) : Type 0 where
  from_deployment : (d : Deployment) → wb' ≡ (update_status_from_deployment wb d).0 → Update wb wb'
  from_job :
      (uid : String) (job : Job) → wb' ≡ (update_status_from_job wb uid job).0 → Update wb wb'
  from_pods : (h : ServerPodHealth) → wb' ≡ (set_server_pod_health wb h).0 → Update wb wb'
  failure : (uid : String) → wb' ≡ (set_app_status_failed wb uid).0 → Update wb wb'

pub data Updates (wb : Workbench) : Workbench → Type 0 where
  here : Updates wb wb
  next : {wb' wb'' : Workbench} → Updates wb wb' → Update wb' wb'' → Updates wb wb''

-- The status is allowed, and all but the status is as in the first workbench.
abbrev pub IsUpdateOf : Workbench → Workbench → Type 0
IsUpdateOf wb wb' = IsAllowed wb'.status × (wb'.spec ≡ wb.spec) × (wb'.metadata ≡ wb.metadata)

allowed_condition :
    (c : DeploymentCondition) → (condition_status c ≡ "") ⊎ IsServerStatus (condition_status c)
allowed_condition c = elim (condition_status_values c) [ inl (_, e) ↦ inl e | inr (_, e) ↦ inr e ]

allowed_job : (s : JobStatus) → IsAppStatus (job_app_status s)
unfolding job_app_status
allowed_job s = ground arith

set_app-IsUpdateOf :
    (wb : Workbench) (uid : String) (a : WorkbenchStatusApp)
    → IsKnown a
    → IsAllowed wb.status
    → IsUpdateOf wb (set_app wb uid a)
set_app-IsUpdateOf wb uid a k s = (
  record {
    server = s.server;
    known = insert-AllValues IsKnown uid a wb.status.apps k s.known;
    keys = insert-HasUniqueKeys uid a wb.status.apps s.keys;
  },
  refl,
  refl,
)

update_server_status-IsUpdateOf :
    (wb : Workbench) (updated : Bool) (cs : List DeploymentCondition)
    → IsAllowed wb.status
    → IsUpdateOf wb (update_server_status wb updated cs).0
unfolding update_server_status
update_server_status-IsUpdateOf wb updated [] s =
    (record { server = inr (inr (inl refl)); known = s.known; keys = s.keys }, refl, refl)
update_server_status-IsUpdateOf wb updated (c ∷ cs) s =
    elim (Bool-cases (condition_status c == wb.status.server_deployment.status)) [
      | inl same ↦ rw same (s, refl, refl)
      | inr other ↦
          rw other
            (record { server = allowed_condition c; known = s.known; keys = s.keys }, refl, refl)
    ]

update_status_from_deployment-IsUpdateOf :
    (wb : Workbench) (d : Deployment)
    → IsAllowed wb.status
    → IsUpdateOf wb (update_status_from_deployment wb d).0
unfolding update_status_from_deployment
update_status_from_deployment-IsUpdateOf wb d s =
    elim (Bool-cases (deployment_revision d == wb.status.server_deployment.revision)) [
      | inl same ↦ rw same (update_server_status-IsUpdateOf wb false d.conditions s)
      | inr other ↦ rw other (
          update_server_status-IsUpdateOf _ true d.conditions
            (record { server = s.server; known = s.known; keys = s.keys }))
    ]

grow_apps-IsUpdateOf :
    (wb : Workbench) (uid : String) → IsAllowed wb.status → IsUpdateOf wb (grow_apps wb uid)
unfolding grow_apps
grow_apps-IsUpdateOf wb uid s = elim (Option-cases (lookup uid wb.spec.apps)) [
  | inl missing ↦ rw missing (set_app-IsUpdateOf wb uid _ (inl refl) s)
  | inr (a, there) ↦ rw there (s, refl, refl)
]

IsUpdateOf-trans :
    (wb wb' wb'' : Workbench) → IsUpdateOf wb wb' → IsUpdateOf wb' wb'' → IsUpdateOf wb wb''
IsUpdateOf-trans wb wb' wb'' (s, e, m) (t, f, n) = (t, f ∙ e, n ∙ m)

update_status_from_job-IsUpdateOf :
    (wb : Workbench) (uid : String) (job : Job)
    → IsAllowed wb.status
    → IsUpdateOf wb (update_status_from_job wb uid job).0
unfolding update_status_from_job
update_status_from_job-IsUpdateOf wb uid job s =
    let grown = grow_apps-IsUpdateOf wb uid s in
    elim (Bool-cases (
      job_app_status job.status
      == (app_or_zero (lookup uid (grow_apps wb uid).status.apps)).status)) [
        | inl same ↦ rw same grown
        | inr other ↦ rw other (
            IsUpdateOf-trans wb (grow_apps wb uid) _ grown
              (set_app-IsUpdateOf (grow_apps wb uid) uid _ (inr (allowed_job job.status)) grown.0))
      ]

change_health-IsUpdateOf :
    (wb : Workbench) (h : ServerPodHealth) (o : Option ServerPodHealth)
    → IsAllowed wb.status
    → IsUpdateOf wb (change_health wb h o).0
unfolding change_health
change_health-IsUpdateOf wb h none s =
    (record { server = s.server; known = s.known; keys = s.keys }, refl, refl)
change_health-IsUpdateOf wb h (some current) s = elim (Bool-cases (same_health current h)) [
  | inl same ↦ rw same (s, refl, refl)
  | inr other ↦ rw other (record { server = s.server; known = s.known; keys = s.keys }, refl, refl)
]

set_app_status_failed-IsUpdateOf :
    (wb : Workbench) (uid : String)
    → IsAllowed wb.status
    → IsUpdateOf wb (set_app_status_failed wb uid).0
unfolding set_app_status_failed
set_app_status_failed-IsUpdateOf wb uid s =
    elim (Bool-cases ((app_or_new (lookup uid wb.status.apps)).status == app_failed)) [
      | inl same ↦ rw same (s, refl, refl)
      | inr other ↦ rw other (set_app-IsUpdateOf wb uid _ (inr (inr (inr (inr refl)))) s)
    ]

Update-IsUpdateOf : (wb wb' : Workbench) → Update wb wb' → IsAllowed wb.status → IsUpdateOf wb wb'
unfolding set_server_pod_health
Update-IsUpdateOf wb wb' (from_deployment d e) s =
    rw e (update_status_from_deployment-IsUpdateOf wb d s)
Update-IsUpdateOf wb wb' (from_job uid job e) s =
    rw e (update_status_from_job-IsUpdateOf wb uid job s)
Update-IsUpdateOf wb wb' (from_pods h e) s = rw e (change_health-IsUpdateOf wb h _ s)
Update-IsUpdateOf wb wb' (failure uid e) s = rw e (set_app_status_failed-IsUpdateOf wb uid s)

-- From a status that is allowed, no sequence of updates from deployments, pods, jobs and failures leads to
-- one that is not: the server has a status that the custom resource knows or none, each app has one
-- that it knows, and no app stands twice. The specification and the metadata stay as they are.
pub Updates-IsUpdateOf :
    {wb wb' : Workbench} → Updates wb wb' → IsAllowed wb.status → IsUpdateOf wb wb'
Updates-IsUpdateOf here s = (s, refl, refl)
Updates-IsUpdateOf {wb} {wb'} (next {wb' = mid} us u) s =
    let first = Updates-IsUpdateOf us s in
    IsUpdateOf-trans wb mid wb' first (Update-IsUpdateOf mid wb' u first.0)
