-- ===== src/Job.antt =====
-- internal/controller/job.go: the job of one app. The parts that do not talk to the cluster or to
-- the host are here; `Job.Init` has `initJob` itself, with the check of the image.
pub mod Passwd
pub mod Init
pub mod Laws
use workbench_operator.Base.{
  ℕ, String, ◌<>◌, Bool, true, false, Option, none, some, List, [], ◌∷◌, ◌++◌, ◌&&◌, not, ℤ, pos,
  string_eq, bool_eq, ◌==◌, if◌then◌else◌, itoa,
}
use workbench_operator.Base.Text.{split, last_part, contains}
use workbench_operator.Kube.{
  SecurityContext, PullPolicy, pull_always, if_not_present, Container, EnvVar, VolumeMount, Volume,
  empty_dir, ResourceRequirements, Quantity, Job, PodSpec, Service,
}
use workbench_operator.Kube.Zero.{
  object_meta, container, pod_template, job_status, security_context,
}
use workbench_operator.Config.{Config}
use workbench_operator.Workbench.{Workbench, WorkbenchApp, Image, KioskConfig, InitContainerConfig}
use workbench_operator.Deployment.{
  workbench_labels, debug_context, debug_annotations, registry_prefix, repository_prefix,
}

abbrev pub default_resources : ResourceRequirements
default_resources = record {
  limits = some (("cpu", "150m") ∷ ("memory", "192Mi") ∷ ("ephemeral-storage", "10Gi") ∷ []);
  requests = some (("cpu", "1m") ∷ ("memory", "1Ki") ∷ ("ephemeral-storage", "1Gi") ∷ []);
}

unfoldable pub build_app_security_context : Bool → ℤ → ℤ → SecurityContext
build_app_security_context debug_mode user_id group_id =
    if debug_mode then debug_context else record security_context {
      run_as_user = some user_id;
      run_as_group = some group_id;
      run_as_non_root = some true;
      allow_privilege_escalation = some false;
      capabilities = some (record { add = []; drop = "ALL" ∷ [] });
    }

app_name_of : Option Image → String
app_name_of none = ""
app_name_of (some image) = last_part (split b'/' image.repository)

-- The last part of the image's repository, empty where the app has no image.
unfoldable pub get_app_name : WorkbenchApp → String
unfolding app_name_of split last_part
get_app_name app = app_name_of app.image

-- The version, or "latest", which is always pulled.
abbrev version_of : String → String × PullPolicy
version_of version = if version == "" then ("latest", pull_always) else (version, if_not_present)

image_of : Config → WorkbenchApp → Option Image → String × PullPolicy
unfolding registry_prefix repository_prefix
image_of config app none =
    let (version, policy) = version_of app.version in
    (
      registry_prefix config.registry
          <> repository_prefix config.apps_repository
          <> app.name
          <> ":"
          <> version,
      policy,
    )
image_of config app (some image) =
    let (version, policy) = version_of image.tag in
    (image.registry <> "/" <> image.repository <> ":" <> version, policy)

-- The image of the app's container and its pull policy.
unfoldable pub app_image : Config → WorkbenchApp → String × PullPolicy
unfolding image_of
app_image config app = image_of config app app.image

unfoldable pub job_name : Workbench → String → WorkbenchApp → String
job_name wb uid app = wb.metadata.name <> "-" <> uid <> "-" <> app.name

shm_volumes_of : Option Quantity → List Volume
shm_volumes_of none = []
shm_volumes_of (some size) = record { name = "shm"; source = empty_dir "Memory" (some size) } ∷ []

unfoldable pub shm_volumes : WorkbenchApp → List Volume
unfolding shm_volumes_of
shm_volumes app = shm_volumes_of app.shm_size

shm_mounts_of : Option Quantity → List VolumeMount
shm_mounts_of none = []
shm_mounts_of (some _) = record { name = "shm"; mount_path = "/dev/shm"; sub_path = "" } ∷ []

unfoldable pub shm_mounts : WorkbenchApp → List VolumeMount
unfolding shm_mounts_of
shm_mounts app = shm_mounts_of app.shm_size

abbrev home_volume : Volume
home_volume = record { name = "home"; source = empty_dir "" none }

abbrev home_mount : VolumeMount
home_mount = record { name = "home"; mount_path = "/home"; sub_path = "" }

abbrev pub env : String → String → EnvVar
env name value = record { name = name; value = value }

-- The variables that both containers share.
abbrev identity_env : Workbench → Service → List EnvVar
identity_env wb service =
    env "DISPLAY" (service.metadata.name <> "." <> service.metadata.namespace <> ":80")
    ∷ env "CHORUS_USER" wb.spec.server.user
    ∷ env "CHORUS_UID" (itoa wb.spec.server.user_id)
    ∷ env "CHORUS_GROUP" "chorus"
    ∷ env "CHORUS_GID" "1001"
    ∷ []

unfoldable pub app_env : Workbench → Service → String → List EnvVar
unfolding itoa
app_env wb service app_name =
    identity_env wb service
    ++ env "LD_PRELOAD" "/usr/lib/x86_64-linux-gnu/libnss_wrapper.so"
      ∷ env "NSS_WRAPPER_PASSWD" "/home/.chorus-auth/passwd"
      ∷ env "NSS_WRAPPER_GROUP" "/home/.chorus-auth/group"
      ∷ env "HOME" ("/home/" <> wb.spec.server.user)
      ∷ env "USER" wb.spec.server.user
      ∷ env "APP_NAME" app_name
      ∷ []

jwt_env : KioskConfig → List EnvVar
jwt_env k =
    if not (k.jwt_url == "") && not (k.jwt_token == "")
    then env "KIOSK_JWT_URL" k.jwt_url ∷ env "KIOSK_JWT_TOKEN" k.jwt_token ∷ []
    else []

-- The variables of a kiosk app, which is known by its image.
unfoldable pub kiosk_env : String → Option KioskConfig → List EnvVar
unfolding jwt_env contains
kiosk_env image none = []
kiosk_env image (some k) =
    if contains image "apps/kiosk" then env "KIOSK_URL" k.url ∷ jwt_env k else []

abbrev or_resources : {A : Type 0} → Option A → Option A → Option A
or_resources (some a) _ = some a
or_resources none b = b

-- The resources of the app over the defaults; requests without limits serve as limits too.
unfoldable pub app_resources : Option ResourceRequirements → ResourceRequirements
app_resources none = default_resources
app_resources (some r) = record {
  limits = or_resources r.limits (or_resources r.requests default_resources.limits);
  requests = or_resources r.requests default_resources.requests;
}

unfoldable pub app_container :
    Workbench → Config → WorkbenchApp → Service → List VolumeMount → Container
unfolding app_env kiosk_env app_resources build_app_security_context shm_mounts get_app_name
app_container wb config app service storage_mounts =
    let image = (app_image config app).0 in
    record (container (get_app_name app) image) {
      image_pull_policy = some (app_image config app).1;
      resources = app_resources app.resources;
      env = app_env wb service (get_app_name app) ++ kiosk_env image app.kiosk_config;
      security_context =
          some (
            build_app_security_context config.debug_mode_enabled wb.spec.server.user_id (pos 1001));
      volume_mounts = shm_mounts app ++ home_mount ∷ storage_mounts;
    }

init_version_of : Option InitContainerConfig → String
init_version_of none = "latest"
init_version_of (some c) = if c.version == "" then "latest" else c.version

unfoldable pub init_container_version : Workbench → String
unfolding init_version_of
init_container_version wb = init_version_of wb.spec.init_container

unfoldable pub init_container_image : Config → String → String
unfolding registry_prefix
init_container_image config version =
    if config.init_container_image == ""
    then registry_prefix config.registry <> "apps/app-init:" <> version
    else config.init_container_image <> ":" <> version

-- The context of the init container: root, with five capabilities and no more.
abbrev pub init_security_context : SecurityContext
init_security_context = record security_context {
  run_as_user = some (pos 0);
  allow_privilege_escalation = some false;
  capabilities = some (record {
    drop = "ALL" ∷ [];
    add = "CHOWN" ∷ "SETUID" ∷ "SETGID" ∷ "DAC_OVERRIDE" ∷ "FOWNER" ∷ [];
  });
}

unfoldable pub init_container :
    Workbench → Config → WorkbenchApp → Service → List VolumeMount → Container
unfolding init_container_version init_container_image itoa
init_container wb config app service storage_mounts =
    let version = init_container_version wb in
    record (container "app-init" (init_container_image config version)) {
      image_pull_policy = some (if version == "latest" then pull_always else if_not_present);
      command = "/docker-entrypoint.sh" ∷ [];
      security_context = some init_security_context;
      env = identity_env wb service ++ env "APP_NAME" app.name ∷ [];
      resources = record {
        limits = some (("cpu", "100m") ∷ ("memory", "64Mi") ∷ ("ephemeral-storage", "1Gi") ∷ []);
        requests = some (("cpu", "10m") ∷ ("memory", "16Mi") ∷ ("ephemeral-storage", "100Mi") ∷ []);
      };
      volume_mounts = home_mount ∷ storage_mounts;
    }

-- Only an app whose state is empty or "Running" runs.
unfoldable pub is_suspended : WorkbenchApp → Bool
is_suspended app = not (app.state == "") && not (app.state == "Running")

-- The job, from the storage that the manager gives. What may fail before this is in `Job.Init`.
unfoldable pub build_job :
    Workbench → Config → String → WorkbenchApp → Service → List Volume → List VolumeMount → Job
unfolding job_name shm_volumes app_container init_container is_suspended
build_job wb config uid app service storage_volumes storage_mounts = record {
  metadata = object_meta (job_name wb uid app) wb.metadata.namespace (workbench_labels wb);
  ttl_seconds_after_finished = some (pos 86400);
  backoff_limit = none;
  suspend = some (is_suspended app);
  template = record pod_template {
    annotations = if config.debug_mode_enabled then debug_annotations else [];
    spec = record {
      volumes = shm_volumes app ++ home_volume ∷ storage_volumes;
      init_containers = init_container wb config app service storage_mounts ∷ [];
      containers = app_container wb config app service storage_mounts ∷ [];
      restart_policy = "OnFailure";
      service_account_name = wb.spec.service_account;
      priority_class_name = config.application_priority_class_name;
      image_pull_secrets = wb.spec.image_pull_secrets;
      hostname = app.name;
      security_context = some (record {
        fs_group = some (pos 1001);
        fs_group_change_policy = some "OnRootMismatch";
        seccomp_profile = some "RuntimeDefault";
      });
    };
  };
  status = job_status;
}

suspend_as : Option Bool → Option Bool → Job → Job × Bool
suspend_as none old d = (d, false)
suspend_as (some s) none d = (record d { suspend = some s }, true)
suspend_as (some s) (some o) d =
    if o == s then (d, false) else (record d { suspend = some s }, true)

unfoldable pub update_job : Job → Job → Job × Bool
unfolding suspend_as
update_job source destination = suspend_as source.suspend destination.suspend destination
