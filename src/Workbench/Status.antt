-- ===== src/Workbench/Status.antt =====
-- api/v1alpha1/workbench.go: the status of a workbench from what the cluster reports. A method on
-- `*Workbench` returns the new workbench beside its Boolean result.
pub mod Laws
pub mod Allowed
use workbench_operator.Base.{
  ℕ, ◌<◌, String, Bool, true, false, Option, none, some, List, [], ◌∷◌, ◌||◌, not, ℤ, pos, negsuc,
  int_eq, string_eq, ◌==◌, if◌then◌else◌, atoi, leb_ℤ,
}
use workbench_operator.Base.Dict.{lookup, insert}
use workbench_operator.Kube.{Deployment, DeploymentCondition, Job, JobStatus}
use workbench_operator.Workbench.{
  Workbench, WorkbenchStatus, WorkbenchStatusServer, WorkbenchStatusApp,
  WorkbenchStatusServerStatus, WorkbenchStatusAppStatus, server_running, server_progressing,
  server_failed, app_unknown, app_running, app_complete, app_progressing, app_failed,
}

abbrev or_revision : Option ℤ → ℤ
or_revision none = negsuc 0
or_revision (some n) = n

abbrev or_annotation : Option String → String
or_annotation none = "-1"
or_annotation (some s) = s

-- The annotation "deployment.kubernetes.io/revision" as a number, -1 if it is missing or no number.
unfoldable pub deployment_revision : Deployment → ℤ
unfolding lookup
deployment_revision d =
    or_revision
      (atoi (or_annotation (lookup "deployment.kubernetes.io/revision" d.metadata.annotations)))

-- The `switch` on the first condition. The case "ReplicaFailure" of the source is empty and Go does
-- not fall through, so the status keeps its zero value.
unfoldable pub condition_status : DeploymentCondition → WorkbenchStatusServerStatus
condition_status c =
    if c.condition_type == "Available"
    then server_running
    else if c.condition_type == "Progressing"
    then (if not (c.status == "True")
        then server_failed
        else if c.reason == "NewReplicaSetAvailable"
        then server_running
        else server_progressing)
    else if c.condition_type == "ReplicaFailure"
    then ""
    else server_failed

abbrev set_server : Workbench → WorkbenchStatusServer → Workbench
set_server wb s = record wb { status = record (wb.status) { server_deployment = s } }

-- The part of the method below the revision, with `updated` as it stands there.
update_server_status : Workbench → Bool → List DeploymentCondition → Workbench × Bool
unfolding condition_status
update_server_status wb updated [] =
    (set_server wb (record (wb.status.server_deployment) { status = server_progressing }), true)
update_server_status wb updated (c ∷ _) =
    if condition_status c == wb.status.server_deployment.status then (wb, updated) else (
      set_server wb (record (wb.status.server_deployment) { status = condition_status c }),
      true,
    )

unfoldable pub update_status_from_deployment : Workbench → Deployment → Workbench × Bool
unfolding update_server_status deployment_revision
update_status_from_deployment wb d =
    let revision = deployment_revision d in
    if revision == wb.status.server_deployment.revision
    then update_server_status wb false d.conditions
    else update_server_status
        (set_server wb (record (wb.status.server_deployment) { revision = revision })) true
        d.conditions

abbrev is_some {ℓ} : {A : Type ℓ} → Option A → Bool
is_some none = false
is_some (some _) = true

abbrev at_least_one : Option ℤ → Bool
at_least_one none = false
at_least_one (some n) = leb_ℤ (pos 1) n

-- The status that the method gives to an app, from the status of its job.
unfoldable pub job_app_status : JobStatus → WorkbenchStatusAppStatus
job_app_status s =
    if s.active == pos 1
    then (if at_least_one s.ready then app_running else app_progressing)
    else if leb_ℤ (pos 1) s.succeeded
    then app_complete
    else app_failed

abbrev set_app : Workbench → String → WorkbenchStatusApp → Workbench
set_app wb uid app = record wb {
  status = record (wb.status) { apps = insert uid app wb.status.apps };
}

-- A read of a missing key gives the zero value.
abbrev app_or_zero : Option WorkbenchStatusApp → WorkbenchStatusApp
app_or_zero none = record { revision = pos 0; status = "" }
app_or_zero (some app) = app

-- "Grow the map of StatusApps for the new entry": the test is on the map of the specification.
unfoldable pub grow_apps : Workbench → String → Workbench
grow_apps wb uid =
    if is_some (lookup uid wb.spec.apps)
    then wb
    else set_app wb uid (record { revision = negsuc 0; status = app_unknown })

unfoldable pub update_status_from_job : Workbench → String → Job → Workbench × Bool
unfolding job_app_status grow_apps
update_status_from_job wb0 uid job =
    let wb = grow_apps wb0 uid in
    let app = app_or_zero (lookup uid wb.status.apps) in
    let status = job_app_status job.status in
    if status == app.status
    then (wb, false)
    else (set_app wb uid (record app { status = status }), true)

abbrev app_or_new : Option WorkbenchStatusApp → WorkbenchStatusApp
app_or_new none = record { revision = negsuc 0; status = "" }
app_or_new (some app) = app

unfoldable pub set_app_status_failed : Workbench → String → Workbench × Bool
set_app_status_failed wb uid =
    let app = app_or_new (lookup uid wb.status.apps) in
    if app.status == app_failed
    then (wb, false)
    else (set_app wb uid (record app { status = app_failed }), true)
