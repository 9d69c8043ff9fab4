-- ===== src/Deployment.antt =====
-- internal/controller/deployment.go: the deployment of the Xpra server and its update.
pub mod Laws
pub mod Registry
use workbench_operator.Base.{
  String, ◌<>◌, Bool, true, false, Option, none, some, List, [], ◌∷◌, ◌++◌, ◌||◌, ◌&&◌, not, ℤ, pos,
  int_eq, string_eq, ◌==◌, if◌then◌else◌, itoa, to_int32,
}
use workbench_operator.Base.Text.{trim_right, trim, contains, has_suffix}
use workbench_operator.Kube.{
  Probe, http_get, tcp_socket, from_string, SecurityContext, PullPolicy, pull_always,
  if_not_present, Container, Deployment, EnvVar, VolumeMount, empty_dir, Labels,
}
use workbench_operator.Kube.Zero.{object_meta, container, pod_spec, security_context}
use workbench_operator.Config.{Config}
use workbench_operator.Workbench.{Workbench}

-- `matchingLabel`
abbrev pub matching_label : String
matching_label = "workbench"

abbrev pub workbench_labels : Workbench → Labels
workbench_labels wb = (matching_label, wb.metadata.name) ∷ []

unfoldable pub new_http_probe : String → String → ℤ → ℤ → Probe
unfolding to_int32
new_http_probe path port_name delay period = record {
  handler = http_get path (from_string port_name);
  initial_delay_seconds = to_int32 delay;
  period_seconds = to_int32 period;
  timeout_seconds = pos 2;
  success_threshold = pos 1;
  failure_threshold = pos 10;
}

unfoldable pub new_tcp_probe : String → ℤ → ℤ → Probe
unfolding to_int32
new_tcp_probe port_name delay period = record {
  handler = tcp_socket (from_string port_name);
  initial_delay_seconds = to_int32 delay;
  period_seconds = to_int32 period;
  timeout_seconds = pos 2;
  success_threshold = pos 1;
  failure_threshold = pos 10;
}

-- What debug mode sets, here and for the apps.
abbrev pub debug_context : SecurityContext
debug_context = record security_context {
  run_as_user = some (pos 0);
  run_as_group = some (pos 0);
  allow_privilege_escalation = some true;
  run_as_non_root = some false;
  privileged = some true;
}

unfoldable pub build_security_context : Bool → Option SecurityContext
build_security_context debug_mode = if debug_mode then some debug_context else none

abbrev pub debug_annotations : Labels
debug_annotations =
    ("chorus-tre.ch/debug-mode", "enabled")
    ∷ ("chorus-tre.ch/debug-warning", "Elevated privileges enabled. Not for production use.")
    ∷ []

-- A non-empty registry ends in one slash.
unfoldable pub registry_prefix : String → String
unfolding trim_right
registry_prefix registry = if registry == "" then "" else trim_right b'/' registry <> "/"

-- A non-empty repository begins with no slash and ends in one.
unfoldable pub repository_prefix : String → String
unfolding trim
repository_prefix repository = if repository == "" then "" else trim b'/' repository <> "/"

abbrev or_latest : String → String
or_latest version = if version == "" then "latest" else version

unfoldable pub socat_image : Config → String
socat_image config = if config.socat_image == "" then "alpine/socat:latest" else config.socat_image

unfoldable pub socat_pull_policy : String → PullPolicy
unfolding has_suffix contains
socat_pull_policy image =
    if has_suffix image ":latest" || not (contains image ":") then pull_always else if_not_present

unfoldable pub server_image : Workbench → Config → String
unfolding registry_prefix repository_prefix
server_image wb config =
    (if config.xpra_server_image == ""
      then registry_prefix config.registry
        <> repository_prefix config.apps_repository
        <> "xpra-server"
      else config.xpra_server_image)
    <> ":"
    <> or_latest wb.spec.server.version

abbrev latest_pull_policy : String → PullPolicy
latest_pull_policy version = if version == "latest" then pull_always else if_not_present

abbrev x11_mount : VolumeMount
x11_mount = record { name = "x11-unix"; mount_path = "/tmp/.X11-unix"; sub_path = "" }

unfoldable pub sidecar_container : Config → Container
unfolding socat_image socat_pull_policy new_tcp_probe
sidecar_container config = record (container "xpra-server-bind" (socat_image config)) {
  image_pull_policy = some (socat_pull_policy (socat_image config));
  restart_policy = some "Always";
  ports = record { name = "x11-socket"; container_port = 6080 } ∷ [];
  args = "TCP-LISTEN:6080,fork,bind=0.0.0.0" ∷ "UNIX-CONNECT:/tmp/.X11-unix/X80" ∷ [];
  volume_mounts = x11_mount ∷ [];
  liveness_probe = some (new_tcp_probe "x11-socket" (pos 1) (pos 2));
  readiness_probe = some (new_tcp_probe "x11-socket" (pos 1) (pos 2));
}

-- The resolution is passed on where neither side of it is 0.
unfoldable pub server_env : Workbench → List EnvVar
unfolding itoa
server_env wb =
    let w = wb.spec.server.initial_resolution_width in
    let h = wb.spec.server.initial_resolution_height in
    record { name = "CARD"; value = "" }
    ∷ (if not (w == pos 0) && not (h == pos 0)
        then record { name = "INITIAL_RESOLUTION"; value = itoa w <> "x" <> itoa h } ∷ []
        else [])

unfoldable pub server_container : Workbench → Config → Container
unfolding server_image server_env new_http_probe build_security_context
server_container wb config = record (container "xpra-server" (server_image wb config)) {
  image_pull_policy = some (latest_pull_policy (or_latest wb.spec.server.version));
  ports = record { name = "http"; container_port = 8080 } ∷ [];
  env = server_env wb;
  volume_mounts = x11_mount ∷ [];
  liveness_probe = some (new_http_probe "/" "http" (pos 1) (pos 2));
  readiness_probe = some (new_http_probe "/" "http" (pos 1) (pos 2));
  security_context = build_security_context config.debug_mode_enabled;
}

unfoldable pub init_deployment : Workbench → Config → Deployment
unfolding sidecar_container server_container
init_deployment wb config = record {
  metadata =
      object_meta (wb.metadata.name <> "-server") wb.metadata.namespace (workbench_labels wb);
  selector = some (workbench_labels wb);
  template = record {
    labels = workbench_labels wb;
    annotations = if config.debug_mode_enabled then debug_annotations else [];
    spec = record pod_spec {
      volumes = record { name = "x11-unix"; source = empty_dir "" none } ∷ [];
      init_containers = sidecar_container config ∷ [];
      containers = server_container wb config ∷ [];
      service_account_name = wb.spec.service_account;
      priority_class_name = config.workbench_priority_class_name;
      image_pull_secrets = wb.spec.image_pull_secrets;
    };
  };
  conditions = [];
}

-- The container of a list with its first image replaced.
abbrev set_image : String → List Container → List Container
set_image image [] = []
set_image image (c ∷ cs) = record c { image = image } ∷ cs

abbrev pub one_item : {A : Type 0} → List A → Bool
one_item [] = false
one_item (_ ∷ []) = true
one_item (_ ∷ _ ∷ _) = false

-- One half of `updateDeployment`: the containers of the source, those of the destination as they
-- were found, and whether these were changed. `none` is the panic on an index out of range: the
-- code reads the first image of the list as it was found, also after it has replaced the list.
unfoldable pub sync_containers : List Container → List Container → Option (List Container × Bool)
sync_containers [] found = none
sync_containers (s ∷ ss) [] = none
sync_containers (s ∷ ss) (f ∷ fs) =
    let kept = if one_item (f ∷ fs) then f ∷ fs else s ∷ ss in
    some (
      if f.image == s.image
      then (kept, not (one_item (f ∷ fs)))
      else (set_image s.image kept, true))

abbrev pub with_containers : Deployment → List Container → List Container → Deployment
with_containers d inits cs = record d {
  template = record (d.template) {
    spec = record (d.template.spec) { init_containers = inits; containers = cs };
  };
}

update_init_containers :
    Deployment → Deployment → Option (List Container × Bool) → Option (Deployment × Bool)
unfolding sync_containers
update_init_containers source destination none = none
update_init_containers source destination (some (cs, changed)) =
    elim (sync_containers source.template.spec.init_containers
      destination.template.spec.init_containers) [
        | none ↦ none
        | some (inits, init_changed) ↦
            some (with_containers destination inits cs, changed || init_changed)
      ]

-- `none` is a panic.
unfoldable pub update_deployment : Deployment → Deployment → Option (Deployment × Bool)
unfolding update_init_containers sync_containers
update_deployment source destination =
    update_init_containers source destination
      (sync_containers source.template.spec.containers destination.template.spec.containers)
