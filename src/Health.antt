-- ===== src/Health.antt =====
-- The health of the server pod, from internal/controller/workbench_controller.go: the choice of the
-- pod and of its containers, and the mapping of their states to a `ServerPodHealth`.
-- `time.Since` is read at most once on any path, so the clock is an argument.
pub mod Laws
use workbench_operator.Base.{
  ◌+◌, ◌*◌, ◌^◌, String, ◌<>◌, Bool, true, false, Option, none, some, List, [], ◌∷◌, ◌||◌, ◌&&◌,
  not, ℤ, pos, int_eq, string_eq, bool_eq, Eq, ◌==◌, if◌then◌else◌, itoa, ltb, ltb_ℤ,
}
use workbench_operator.Kube.{Time, Pod, ContainerStatus, Waiting, Running, Terminated}
use workbench_operator.Workbench.{
  Workbench, ServerPodHealth, ServerPodStatus, waiting, starting, ready, failing, restarting,
  terminating, terminated, unknown,
}

ServerPodStatus-discrete : Discrete ServerPodStatus
ServerPodStatus-discrete = hlevel

instance unfoldable pub status_eq : Eq ServerPodStatus
unfolding ServerPodStatus-discrete
status_eq = record { dec = ServerPodStatus-discrete }

-- The loop "find most recent pod": a later pod replaces the latest one if it was created after it.
latest_from : Option Pod → List Pod → Option Pod
latest_from latest [] = latest
latest_from none (p ∷ ps) = latest_from (some p) ps
latest_from (some l) (p ∷ ps) =
    latest_from (some (if ltb l.creation_timestamp p.creation_timestamp then p else l)) ps

unfoldable pub latest_pod : List Pod → Option Pod
unfolding latest_from
latest_pod = latest_from none

-- The first container status of a name.
unfoldable pub find_status : String → List ContainerStatus → Option ContainerStatus
find_status name [] = none
find_status name (c ∷ cs) = if c.name == name then some c else find_status name cs

abbrev minute : Time
minute = 60 * 10 ^ 9

-- `time.Since(start) < d`
abbrev younger : Time → Time → Time → Bool
younger now start d = ltb now (start + d)

-- `health.Status` and `health.Message` are set on a value that has the other two fields.
abbrev health : Bool → ℤ → ServerPodStatus → String → ServerPodHealth
health is_ready count status message = record {
  status = status;
  is_ready = is_ready;
  restart_count = count;
  message = message;
}

running_health : Time → ContainerStatus → Running → ServerPodHealth
running_health now c r =
    if ltb_ℤ (pos 0) c.restart_count && younger now r.started_at (5 * minute)
    then health c.ready c.restart_count restarting
        ("Recently restarted (" <> itoa c.restart_count <> " times)")
    else if c.ready
    then health c.ready c.restart_count ready "Container is ready"
    else if c.restart_count == pos 0 && younger now r.started_at (2 * minute)
    then health c.ready c.restart_count starting "Container starting up"
    else health c.ready c.restart_count failing "Readiness probe failing"

container_health :
    Time → ContainerStatus → Option Waiting → Option Terminated → Option Running → ServerPodHealth
unfolding running_health
container_health now c (some w) t r =
    health c.ready c.restart_count waiting ("Waiting: " <> w.reason)
container_health now c none (some t) r =
    health c.ready c.restart_count terminated ("Terminated: " <> t.reason)
container_health now c none none none =
    health c.ready c.restart_count unknown "Container state unknown"
container_health now c none none (some r) = running_health now c r

unfoldable pub determine_container_health : Time → ContainerStatus → ServerPodHealth
unfolding container_health
determine_container_health now c =
    container_health now c c.state.waiting c.state.terminated c.state.running

-- A message with the text that the cluster added, if there is any.
abbrev with_message : String → String → String
with_message s message = if message == "" then s else s <> " - " <> message

init_health :
    ContainerStatus → Option Waiting → Option Running → Option Terminated → ServerPodHealth
init_health c (some w) r t =
    health false c.restart_count waiting
      (with_message ("Init container waiting: " <> w.reason) w.message)
init_health c none (some r) t = health false c.restart_count starting "Init container starting"
init_health c none none (some t) = health false c.restart_count failing (
    with_message ("Init container failed with exit code " <> itoa t.exit_code <> ": " <> t.reason)
      t.message)
init_health c none none none = health false c.restart_count unknown "Init container state unknown"

unfoldable pub determine_server_pod_health :
    Time → ContainerStatus → ContainerStatus → ServerPodHealth
unfolding determine_container_health init_health
determine_server_pod_health now init server =
    if init.ready
    then determine_container_health now server
    else init_health init init.state.waiting init.state.running init.state.terminated

-- A health that is unknown or terminating, with a message and the zero values.
abbrev plain_health : ServerPodStatus → String → ServerPodHealth
plain_health status message = health false (pos 0) status message

found_server : Time → ContainerStatus → Option ContainerStatus → ServerPodHealth
unfolding determine_server_pod_health
found_server now init none = plain_health unknown "xpra-server container not found"
found_server now init (some server) = determine_server_pod_health now init server

found_init : Time → Pod → Option ContainerStatus → ServerPodHealth
unfolding found_server find_status
found_init now p none = plain_health unknown "xpra-server-bind init container not found"
found_init now p (some init) =
    found_server now init (find_status "xpra-server" p.container_statuses)

pod_health : Time → Pod → Option Time → ServerPodHealth
unfolding found_init find_status
pod_health now p (some _) = plain_health terminating "Pod is terminating"
pod_health now p none = found_init now p (find_status "xpra-server-bind" p.init_container_statuses)

latest_health : Time → Option Pod → ServerPodHealth
unfolding pod_health
latest_health now none = plain_health unknown "No pods found"
latest_health now (some p) = pod_health now p p.deletion_timestamp

-- `updateServerPodHealth` below the call that lists the pods.
unfoldable pub pods_health : Time → List Pod → ServerPodHealth
unfolding latest_health latest_pod
pods_health now pods = latest_health now (latest_pod pods)

-- The result of `updateServerPodHealth` where the list of the pods fails.
unfoldable pub list_failed_health : ServerPodHealth
list_failed_health = plain_health unknown "Failed to list pods"

abbrev pub set_health : Workbench → ServerPodHealth → Workbench
set_health wb h = record wb {
  status = record (wb.status) {
    server_deployment = record (wb.status.server_deployment) { server_pod = some h };
  };
}

abbrev pub same_health : ServerPodHealth → ServerPodHealth → Bool
same_health a b =
    a.status == b.status
    && a.is_ready == b.is_ready
    && a.restart_count == b.restart_count
    && a.message == b.message

unfoldable pub change_health :
    Workbench → ServerPodHealth → Option ServerPodHealth → Workbench × Bool
change_health wb h none = (set_health wb h, true)
change_health wb h (some current) =
    if same_health current h then (wb, false) else (set_health wb h, true)

unfoldable pub set_server_pod_health : Workbench → ServerPodHealth → Workbench × Bool
unfolding change_health
set_server_pod_health wb h = change_health wb h wb.status.server_deployment.server_pod
