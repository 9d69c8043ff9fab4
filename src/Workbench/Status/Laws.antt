-- ===== src/Workbench/Status/Laws.antt =====
-- What the methods of api/v1alpha1/workbench.go do to a status.
use workbench_operator.Base.{
  ℕ, zero, suc, ℤ, pos, negsuc, leb_ℤ, atoi, nat_eq, sym, Option-cases, inl, inr, String, true,
  false, Option, none, some, List, [], ◌∷◌, ◌≡◌, refl, ap, ◌≢◌, ◌↔◌, ◌⊎◌, int_eq, string_eq, arith,
  differ,
}
use workbench_operator.Base.Dict.{lookup, lookup-insert_self, lookup-insert_other}
use mathlib.Core.Path.{subst}
use workbench_operator.Kube.{Deployment, DeploymentCondition, Job, JobStatus}
use workbench_operator.Workbench.{
  Workbench, WorkbenchStatusApp, server_running, server_progressing, server_failed, app_failed,
  app_running, app_progressing, app_complete,
}
use workbench_operator.Workbench.Status.{
  at_least_one, deployment_revision, condition_status, update_status_from_deployment,
  job_app_status, app_or_zero, app_or_new, update_status_from_job, set_app_status_failed,
}

-- The status that the enumeration of the custom resource allows for the server.
abbrev pub IsServerStatus : String → Type 0
IsServerStatus s = (s ≡ server_running) ⊎ (s ≡ server_progressing) ⊎ (s ≡ server_failed)

abbrev pub IsAppStatus : String → Type 0
IsAppStatus s = (s ≡ app_running) ⊎ (s ≡ app_progressing) ⊎ (s ≡ app_complete) ⊎ (s ≡ app_failed)

-- The status of a condition is allowed, but for a condition of type ReplicaFailure, whose status is
-- the empty text.
pub condition_status_values :
    (c : DeploymentCondition)
    → ((c.condition_type ≡ "ReplicaFailure") × (condition_status c ≡ ""))
      ⊎ ((c.condition_type ≢ "ReplicaFailure") × IsServerStatus (condition_status c))
unfolding condition_status
condition_status_values c = ground (
  arith,
  differ "Available" "ReplicaFailure" refl,
  differ "Progressing" "ReplicaFailure" refl,
  differ server_running "" refl,
)

-- What the first condition of a deployment makes of the server.
abbrev pub IsStatusOf : DeploymentCondition → String → Type 0
IsStatusOf c s =
    ((c.condition_type ≡ "Available") × (s ≡ "Running"))
    ⊎ ((c.condition_type ≡ "Progressing") × (c.status ≢ "True") × (s ≡ "Failed"))
    ⊎ ((c.condition_type ≡ "Progressing")
        × (c.status ≡ "True")
        × (c.reason ≡ "NewReplicaSetAvailable")
        × (s ≡ "Running"))
    ⊎ ((c.condition_type ≡ "Progressing")
        × (c.status ≡ "True")
        × (c.reason ≢ "NewReplicaSetAvailable")
        × (s ≡ "Progressing"))
    ⊎ ((c.condition_type ≡ "ReplicaFailure") × (s ≡ ""))
    ⊎ ((c.condition_type ≢ "Available")
        × (c.condition_type ≢ "Progressing")
        × (c.condition_type ≢ "ReplicaFailure")
        × (s ≡ "Failed"))

condition_status-IsStatusOf : (c : DeploymentCondition) → IsStatusOf c (condition_status c)
unfolding condition_status
condition_status-IsStatusOf c = ground arith

-- The number in the annotation of the deployment, or -1 where there is none to be read.
abbrev pub IsRevisionOf : Deployment → ℤ → Type 0
IsRevisionOf d r =
    let annotation = lookup "deployment.kubernetes.io/revision" d.metadata.annotations in
    ((text : String) × (annotation ≡ some text) × (atoi text ≡ some r))
    ⊎ ((annotation ≡ none) × (r ≡ negsuc 0))
    ⊎ ((text : String) × (annotation ≡ some text) × (atoi text ≡ none) × (r ≡ negsuc 0))

minus_one : atoi "-1" ≡ some (negsuc 0)
unfolding atoi nat_eq
minus_one = refl

deployment_revision-IsRevisionOf : (d : Deployment) → IsRevisionOf d (deployment_revision d)
unfolding deployment_revision
deployment_revision-IsRevisionOf d =
    elim (Option-cases (lookup "deployment.kubernetes.io/revision" d.metadata.annotations)) [
      | inl missing ↦ rw (missing, minus_one) (inr (inl (refl, refl)))
      | inr (text, e) ↦ elim (Option-cases (atoi text)) [
        | inl unread ↦ rw (e, unread) (inr (inr (text, refl, unread, refl)))
        | inr (r, read) ↦ rw (e, read) (inl (text, refl, read))
      ]
    ]

update_server-parts :
    (wb : Workbench) (d : Deployment) (c : DeploymentCondition) (cs : List DeploymentCondition)
    → d.conditions ≡ c ∷ cs
    → let s = (update_status_from_deployment wb d).0.status in
      (s.server_deployment.revision ≡ deployment_revision d)
      × (s.server_deployment.status ≡ condition_status c)
      × (s.server_deployment.server_pod ≡ wb.status.server_deployment.server_pod)
      × (s.apps ≡ wb.status.apps)
unfolding update_status_from_deployment
update_server-parts wb d c cs h = ground arith

-- After an update from a deployment with a first condition, the revision of the status is the number in
-- the deployment's annotation, or -1 where there is no number to be read. The server is Running if the
-- condition is Available, or Progressing with the status True and the reason NewReplicaSetAvailable;
-- Progressing for any other reason of a Progressing condition with the status True; Failed if that
-- status is not True, and for every other type of condition, but for ReplicaFailure, which leaves the
-- empty text. The pod's health and the apps are kept.
pub update_status_from_deployment_lem :
    (wb : Workbench) (d : Deployment) (c : DeploymentCondition) (cs : List DeploymentCondition)
    → d.conditions ≡ c ∷ cs
    → let s = (update_status_from_deployment wb d).0.status in
      IsRevisionOf d s.server_deployment.revision
      × IsStatusOf c s.server_deployment.status
      × (s.server_deployment.server_pod ≡ wb.status.server_deployment.server_pod)
      × (s.apps ≡ wb.status.apps)
update_status_from_deployment_lem wb d c cs h =
    let (revision, status, pod, apps) = update_server-parts wb d c cs h in
    (
      subst (IsRevisionOf d) (sym revision) (deployment_revision-IsRevisionOf d),
      subst (IsStatusOf c) (sym status) (condition_status-IsStatusOf c),
      pod,
      apps,
    )

-- The result tells exactly whether the workbench was changed, where the deployment has a condition.
pub update_status_from_deployment_changed :
    (wb : Workbench) (d : Deployment)
    → d.conditions ≢ []
    → ((update_status_from_deployment wb d).1 ≡ false)
      ↔ ((update_status_from_deployment wb d).0 ≡ wb)
unfolding update_status_from_deployment
update_status_from_deployment_changed wb d h = (λ e. ground arith, λ e. ground arith)

abbrev status_of : Option WorkbenchStatusApp → Option String
status_of none = none
status_of (some a) = some a.status

-- The status that a workbench has for an app.
abbrev pub app_status : String → Workbench → Option String
app_status uid wb = status_of (lookup uid wb.status.apps)

-- A second update from the same deployment changes nothing, where it has a condition.
pub update_status_from_deployment_idem :
    (wb : Workbench) (d : Deployment)
    → d.conditions ≢ []
    → let wb' = (update_status_from_deployment wb d).0 in
      update_status_from_deployment wb' d ≡ (wb', false)
unfolding update_status_from_deployment
update_status_from_deployment_idem wb d h = ground arith

-- Where the deployment has a condition: the result is false exactly where the workbench is as it was,
-- and a second update from the same deployment changes nothing.
pub update_status_from_deployment_settles :
    (wb : Workbench) (d : Deployment)
    → d.conditions ≢ []
    → let (wb', changed) = update_status_from_deployment wb d in
      ((changed ≡ false) ↔ (wb' ≡ wb)) × (update_status_from_deployment wb' d ≡ (wb', false))
update_status_from_deployment_settles wb d h =
    (update_status_from_deployment_changed wb d h, update_status_from_deployment_idem wb d h)

-- The status of an app by the counts of its job.
abbrev pub IsPositive : ℤ → Type 0
IsPositive z = (n : ℕ) × (z ≡ pos (suc n))

abbrev pub HasReady : JobStatus → Type 0
HasReady s = (z : ℤ) × (s.ready ≡ some z) × IsPositive z

abbrev pub IsStatusByJob : JobStatus → String → Type 0
IsStatusByJob job s =
    ((job.active ≡ pos 1) × HasReady job × (s ≡ "Running"))
    ⊎ ((job.active ≡ pos 1) × (¬ HasReady job) × (s ≡ "Progressing"))
    ⊎ ((job.active ≢ pos 1) × IsPositive job.succeeded × (s ≡ "Complete"))
    ⊎ ((job.active ≢ pos 1) × (¬ IsPositive job.succeeded) × (s ≡ "Failed"))

positive : (z : ℤ) → (leb_ℤ (pos 1) z ≡ true) ↔ IsPositive z
positive (pos zero) = (λ e. cc, λ (n, e). cc)
positive (pos (suc n)) = (λ e. (n, refl), λ _. ground arith)
positive (negsuc n) = (λ e. cc, λ (m, e). cc)

some_same : {A : Type 0} {a b : A} → some a ≡ some b → a ≡ b
some_same e = cc

has_ready : (s : JobStatus) → (at_least_one s.ready ≡ true) ↔ HasReady s
has_ready s = elim (Option-cases s.ready) [
  | inl e ↦ rw e (λ h. cc, λ (z, f, p). cc)
  | inr (z, e) ↦ rw e (
    λ h. (z, refl, (positive z).0 h),
    λ (y, f, p). (positive z).1 (subst IsPositive (sym (some_same f)) p),
  )
]

job_app_status-IsStatusByJob : (s : JobStatus) → IsStatusByJob s (job_app_status s)
unfolding job_app_status
job_app_status-IsStatusByJob s =
    let ready = has_ready s in let succeeded = positive s.succeeded in ground arith

update_job-parts :
    (wb : Workbench) (uid other : String) (job : Job)
    → lookup uid wb.spec.apps ≢ none
    → lookup uid wb.status.apps ≢ none
    → other ≢ uid
    → let (wb', changed) = update_status_from_job wb uid job in
      (app_status uid wb' ≡ some (job_app_status job.status))
      × (lookup other wb'.status.apps ≡ lookup other wb.status.apps)
      × (wb'.status.server_deployment ≡ wb.status.server_deployment)
      × ((changed ≡ false) ↔ (wb' ≡ wb))
unfolding update_status_from_job
update_job-parts wb uid other job h k n =
    let app = app_or_zero (lookup uid wb.status.apps) in
    let new : WorkbenchStatusApp = record app { status = job_app_status job.status } in
    let self = lookup-insert_self uid new wb.status.apps in
    let kept = lookup-insert_other other uid new wb.status.apps n in
    (
      ground arith,
      ground arith,
      ground arith,
      (λ e. ground arith, λ e. ground (arith, ap (app_status uid) e)),
    )

-- For an app of the specification that has a status already: where the job has one active pod, the app
-- is Running if a pod is ready and Progressing if none is; where it has not, the app is Complete if a
-- pod has succeeded and Failed if none has. Any other app keeps its entry, the server keeps its own,
-- and the result is false exactly where the workbench is as it was.
pub update_status_from_job_lem :
    (wb : Workbench) (uid other : String) (job : Job)
    → lookup uid wb.spec.apps ≢ none
    → lookup uid wb.status.apps ≢ none
    → other ≢ uid
    → let (wb', changed) = update_status_from_job wb uid job in
      ((s : String) × (app_status uid wb' ≡ some s) × IsStatusByJob job.status s)
      × (lookup other wb'.status.apps ≡ lookup other wb.status.apps)
      × (wb'.status.server_deployment ≡ wb.status.server_deployment)
      × ((changed ≡ false) ↔ (wb' ≡ wb))
update_status_from_job_lem wb uid other job h k n =
    let (status, others, server, changed) = update_job-parts wb uid other job h k n in
    (
      (job_app_status job.status, status, job_app_status-IsStatusByJob job.status),
      others,
      server,
      changed,
    )

-- After it the app is failed, any other app and the server are as they were, and doing it again
-- changes nothing.
set_app_status_failed_lem :
    (wb : Workbench) (uid other : String)
    → other ≢ uid
    → let (wb', changed) = set_app_status_failed wb uid in
      (app_status uid wb' ≡ some app_failed)
      × (lookup other wb'.status.apps ≡ lookup other wb.status.apps)
      × (wb'.status.server_deployment ≡ wb.status.server_deployment)
      × (set_app_status_failed wb' uid ≡ (wb', false))
unfolding set_app_status_failed
set_app_status_failed_lem wb uid other n =
    let app = app_or_new (lookup uid wb.status.apps) in
    let new : WorkbenchStatusApp = record app { status = app_failed } in
    let self = lookup-insert_self uid new wb.status.apps in
    let kept = lookup-insert_other other uid new wb.status.apps n in
    let empty = differ "" app_failed refl in
    (ground arith, ground arith, ground arith, ground arith)
