-- ===== src/Tests/Samples.antt =====
-- A workbench with one app, a pod that serves it, and platforms that answer by clauses.
use workbench_operator.Base.{true, false, none, some, [], ◌∷◌, pos}
use workbench_operator.Config.{Config}
use workbench_operator.Kube.{
  Deployment, DeploymentCondition, Job, Pod, ContainerStatus, ContainerState, Service, ObjectKey,
}
use workbench_operator.Kube.Zero.{object_meta, container, pod_spec, pod_template, job_status}
use workbench_operator.Workbench.{
  Workbench, WorkbenchApp, Image, WorkbenchSpec, WorkbenchStatus, ServerPodHealth, waiting,
  app_progressing, server_progressing,
}
use workbench_operator.Platform.{
  Answer, ok, err, not_found, Request, Response, get_workbench, get_deployment, get_service,
  list_jobs, list_pods, get_secret, create_job, create_pv, create_pvc, Platform, World,
}

abbrev pub config : Config
config = record {
  registry = "harbor.example";
  apps_repository = "apps";
  socat_image = "";
  xpra_server_image = "";
  init_container_image = "";
  juicefs_secret_name = "juicefs";
  juicefs_secret_namespace = "kube-system";
  nfs_secret_name = "nfs";
  nfs_secret_namespace = "kube-system";
  local_storage_enabled = false;
  local_storage_host_path = "";
  debug_mode_enabled = false;
  workbench_priority_class_name = "";
  application_priority_class_name = "";
}

abbrev pub image : Image
image = record { registry = ""; repository = "apps/wezterm"; tag = "1" }

abbrev pub app : WorkbenchApp
app = record {
  name = "wezterm";
  version = "1";
  state = "Running";
  image = some image;
  shm_size = some "1Gi";
  resources = none;
  kiosk_config = none;
}

abbrev pub spec : WorkbenchSpec
spec = record {
  server = record {
    version = "latest";
    initial_resolution_width = pos 0;
    initial_resolution_height = pos 0;
    user = "ada";
    user_id = pos 1001;
  };
  init_container = none;
  apps = ("app1", app) ∷ [];
  service_account = "";
  image_pull_secrets = [];
  storage = some (record { s3 = false; nfs = false; local = false });
}

abbrev pub status : WorkbenchStatus
status = record {
  server_deployment = record { revision = pos 0; status = server_progressing; server_pod = none };
  apps = ("app1", record { revision = pos 0; status = app_progressing }) ∷ [];
}

abbrev pub bench : Workbench
bench = record { metadata = object_meta "bench" "team" []; spec = spec; status = status }

abbrev pub deleted_bench : Workbench
deleted_bench = record bench {
  metadata = record (object_meta "bench" "team" []) { deletion_timestamp = some 7 };
}

abbrev pub available : DeploymentCondition
available = record { condition_type = "Available"; status = "True"; reason = "" }

-- A deployment with one container and one sidecar of other images than the operator's.
abbrev pub deployment : Deployment
deployment = record {
  metadata = object_meta "bench-server" "team" [];
  selector = some (("workbench", "bench") ∷ []);
  template = record pod_template {
    spec = record pod_spec {
      init_containers = container "xpra-server-bind" "old-socat" ∷ [];
      containers = container "xpra-server" "old-server" ∷ [];
    };
  };
  conditions = available ∷ [];
}

abbrev pub bare_deployment : Deployment
bare_deployment = record deployment { template = pod_template }

abbrev pub job : Job
job = record {
  metadata = object_meta "bench-app1-wezterm" "team" [];
  ttl_seconds_after_finished = none;
  backoff_limit = none;
  suspend = some false;
  template = pod_template;
  status = record job_status { active = pos 1; ready = some (pos 1) };
}

abbrev pub paused_job : Job
paused_job = record job { suspend = some true }

abbrev pub running_state : ContainerState
running_state = record {
  waiting = none;
  running = some (record { started_at = 5 });
  terminated = none;
}

abbrev pub sidecar_status : ContainerStatus
sidecar_status = record {
  name = "xpra-server-bind";
  ready = true;
  restart_count = pos 0;
  state = running_state;
}

abbrev pub server_status : ContainerStatus
server_status = record {
  name = "xpra-server";
  ready = true;
  restart_count = pos 0;
  state = running_state;
}

abbrev pub pod : Pod
pod = record {
  creation_timestamp = 3;
  deletion_timestamp = none;
  init_container_statuses = sidecar_status ∷ [];
  container_statuses = server_status ∷ [];
}

abbrev pub older_pod : Pod
older_pod = record pod { creation_timestamp = 2 }

abbrev pub health : ServerPodHealth
health = record { status = waiting; is_ready = false; restart_count = pos 0; message = "" }

abbrev pub service : Service
service = record {
  metadata = object_meta "bench" "team" [];
  selector = ("workbench", "bench") ∷ [];
  ports = [];
  service_type = "ClusterIP";
}

-- A cluster where the server serves, and where one job is left that no app has.
unfoldable pub serving : (q : Request) → Answer (Response q)
serving (get_workbench _) = ok bench
serving (get_deployment _) = ok deployment
serving (list_pods _ _) = ok (pod ∷ older_pod ∷ [])
serving (get_service _) = ok service
serving (list_jobs _) = ok (job ∷ [])
serving _ = err not_found

-- A cluster where the workbench is being deleted and a job is left.
unfoldable pub deleting : (q : Request) → Answer (Response q)
deleting (get_workbench _) = ok deleted_bench
deleting (list_jobs _) = ok (job ∷ [])
deleting _ = err not_found

-- A cluster where nothing is found but the service, and nothing can be created.
unfoldable pub empty : (q : Request) → Answer (Response q)
empty (get_service _) = ok service
empty _ = err not_found

-- A cluster where nothing is found, and jobs, volumes and claims can be created.
unfoldable pub provisioning : (q : Request) → Answer (Response q)
provisioning (create_job j) = ok j
provisioning (create_pv v) = ok v
provisioning (create_pvc c) = ok c
provisioning _ = err not_found

-- A cluster that has the secrets of the storages.
unfoldable pub storing : (q : Request) → Answer (Response q)
storing (get_secret _) = ok (("name", "files") ∷ ("server", "nas") ∷ ("share", "/share") ∷ [])
storing _ = err not_found

abbrev platform : ((q : Request) → Answer (Response q)) → Platform
platform answers = record {
  State = Unit {0};
  answer = λ q s. (answers q, s);
  clock = λ _. 1000;
  set_controller_reference = λ wb m. ok (record m { owners = wb.metadata.name ∷ [] });
  contains_finalizer = λ _ _. true;
  add_finalizer = λ m _. (m, false);
  remove_finalizer = λ m _. (record m { finalizers = [] }, true);
}

abbrev pub serving_platform : Platform
serving_platform = platform serving

abbrev pub deleting_platform : Platform
deleting_platform = platform deleting

abbrev pub empty_platform : Platform
empty_platform = platform empty

abbrev pub provisioning_platform : Platform
provisioning_platform = platform provisioning

abbrev pub local_config : Config
local_config = record config { local_storage_enabled = true }

abbrev pub local_bench : Workbench
local_bench = record bench {
  spec = record spec { storage = some (record { s3 = false; nfs = false; local = true }) };
}

abbrev pub storing_platform : Platform
storing_platform = platform storing

-- A workbench with every storage.
abbrev pub full_bench : Workbench
full_bench = record bench {
  spec = record spec { storage = some (record { s3 = true; nfs = true; local = true }) };
}

-- The serving platform, where no workbench has the finalizer yet.
abbrev pub fresh_platform : Platform
fresh_platform = record serving_platform {
  contains_finalizer = λ _ _. false;
  add_finalizer = λ m f. (record m { finalizers = f ∷ [] }, true);
}

abbrev pub start : (P : Platform) → P.State → World P
start P s = record { state = s; history = [] }

abbrev pub key : ObjectKey
key = record { name = "bench"; namespace = "team" }
