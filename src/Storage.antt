-- ===== src/Storage.antt =====
-- internal/controller/storage.go, storage_s3.go, storage_nfs.go and storage_local.go: the storage
-- backends. `StorageProvider` is an interface with three implementations that embed `BaseProvider`,
-- and whose `StorageType` tells them apart, so a provider is a `BaseProvider` here and a method
-- dispatches on its type. What talks to the cluster is in `Storage.Manager`.
pub mod Manager
use workbench_operator.Base.{
  String, ◌<>◌, Bool, true, false, Option, none, some, List, [], ◌∷◌, ◌++◌, pos, string_eq, ◌==◌,
  if◌then◌else◌, Eq,
}
use workbench_operator.Base.Dict.{Dict}
use workbench_operator.Kube.{
  ObjectKey, Volume, VolumeSource, persistent_volume_claim, nfs_volume, host_path, VolumeMount,
  PersistentVolume, PersistentVolumeClaim, SecretReference, csi, host_path_volume, Job,
}
use workbench_operator.Kube.Zero.{object_meta, container, pod_spec, pod_template, job_status}
use workbench_operator.Config.{Config}
use workbench_operator.Workbench.{Workbench, StorageConfig}

pub data StorageType : Type 0 where
  s3 nfs local : StorageType

StorageType-discrete : Discrete StorageType
StorageType-discrete = hlevel

instance unfoldable pub storage_type_eq : Eq StorageType
unfolding StorageType-discrete
storage_type_eq = record { dec = StorageType-discrete }

-- The text of the type, as `%s` prints it.
abbrev pub type_name : StorageType → String
type_name s3 = "s3"
type_name nfs = "nfs"
type_name local = "local"

pub record BaseProvider : Type 0 where
  pub storage_type : StorageType
  pub driver_name : String
  pub secret_name : String
  pub secret_namespace : String
  pub mount_type : String
  pub pvc_label : String
  pub mount_app_data : Bool

unfoldable pub new_s3_provider : Config → BaseProvider
new_s3_provider config = record {
  storage_type = s3;
  driver_name = "csi.juicefs.com";
  secret_name = config.juicefs_secret_name;
  secret_namespace = config.juicefs_secret_namespace;
  mount_type = "archive";
  pvc_label = "use-juicefs";
  mount_app_data = true;
}

unfoldable pub new_nfs_provider : Config → BaseProvider
new_nfs_provider config = record {
  storage_type = nfs;
  driver_name = "nfs.csi.k8s.io";
  secret_name = config.nfs_secret_name;
  secret_namespace = config.nfs_secret_namespace;
  mount_type = "scratch";
  pvc_label = "";
  mount_app_data = false;
}

unfoldable pub new_local_provider : Config → BaseProvider
new_local_provider config = record {
  storage_type = local;
  driver_name = "";
  secret_name = "";
  secret_namespace = "";
  mount_type = "local";
  pvc_label = "";
  mount_app_data = true;
}

unfoldable pub get_volume_name : BaseProvider → String
get_volume_name b = "workspace-" <> b.mount_type

unfoldable pub get_pvc_name : BaseProvider → String → String
get_pvc_name b namespace = namespace <> "-" <> b.mount_type <> "-pvc"

unfoldable pub get_pv_name : BaseProvider → String → String
get_pv_name b namespace = namespace <> "-" <> b.mount_type <> "-pv"

unfoldable pub get_volume_spec : BaseProvider → String → Volume
unfolding get_volume_name
get_volume_spec b pvc_name = record {
  name = get_volume_name b;
  source = persistent_volume_claim pvc_name;
}

unfoldable pub get_volume_mount_specs : BaseProvider → String → String → List VolumeMount
unfolding get_volume_name
get_volume_mount_specs b user namespace =
    record {
      name = get_volume_name b;
      mount_path = "/mnt/workspace-" <> b.mount_type;
      sub_path = "workspaces/" <> namespace <> "/data";
    }
    ∷ (if b.mount_app_data
        then record {
          name = get_volume_name b;
          mount_path = "/mnt/app_data";
          sub_path = "workspaces/" <> namespace <> "/app_data/" <> user;
        }
          ∷ []
        else [])

-- `BaseProvider.CreatePV`
unfoldable pub base_pv :
    BaseProvider → String → Dict String → Option SecretReference → PersistentVolume
unfolding get_pv_name
base_pv b namespace attributes secret_ref = record {
  metadata = object_meta (get_pv_name b namespace) "" [];
  capacity = ("storage", "1Gi") ∷ [];
  access_modes = "ReadWriteMany" ∷ [];
  reclaim_policy = "Delete";
  storage_class_name = "";
  source = csi b.driver_name (namespace <> "-" <> b.mount_type) attributes secret_ref;
}

-- The host path of the configuration, or its default.
unfoldable pub local_host_path : Config → String
local_host_path config =
    if config.local_storage_host_path == ""
    then "/tmp/workbench-local-storage"
    else config.local_storage_host_path

-- `LocalProvider.CreatePV`
unfoldable pub local_pv : Config → BaseProvider → String → PersistentVolume
unfolding get_pv_name local_host_path
local_pv config b namespace = record {
  metadata =
      object_meta (get_pv_name b namespace) ""
        (("workbench-namespace", namespace) ∷ ("storage-type", "local") ∷ []);
  capacity = ("storage", "10Gi") ∷ [];
  access_modes = "ReadWriteMany" ∷ [];
  reclaim_policy = "Retain";
  storage_class_name = "";
  source = host_path_volume (local_host_path config) "DirectoryOrCreate";
}

-- `BaseProvider.CreatePVC`
unfoldable pub create_pvc : BaseProvider → Workbench → PersistentVolumeClaim
unfolding get_pvc_name get_pv_name
create_pvc b wb =
    let namespace = wb.metadata.namespace in
    record {
      metadata =
          object_meta (get_pvc_name b namespace) namespace
            (if b.pvc_label == "" then [] else (b.pvc_label, "true") ∷ []);
      access_modes = "ReadWriteMany" ∷ [];
      requests = ("storage", "1Gi") ∷ [];
      volume_name = get_pv_name b namespace;
      storage_class_name = some "";
    }

-- A job that runs one shell command in a busybox container over one volume, as the `Setup` methods
-- build it.
unfoldable pub mkdir_job :
    (job_name app volume_name mount_path command : String) → VolumeSource → Workbench → Job
mkdir_job job_name app volume_name mount_path command source wb = record {
  metadata =
      object_meta job_name wb.metadata.namespace
        (("app", app) ∷ ("workbench", wb.metadata.name) ∷ []);
  ttl_seconds_after_finished = some (pos 300);
  backoff_limit = some (pos 2);
  suspend = none;
  template = record pod_template {
    spec = record pod_spec {
      restart_policy = "Never";
      containers =
          record (container "mkdir" "busybox:latest") {
            command = "sh" ∷ "-c" ∷ command ∷ [];
            resources = record {
              limits = some (("cpu", "100m") ∷ ("memory", "64Mi") ∷ []);
              requests = some (("cpu", "10m") ∷ ("memory", "16Mi") ∷ []);
            };
            volume_mounts =
                record { name = volume_name; mount_path = mount_path; sub_path = "" } ∷ [];
          }
          ∷ [];
      volumes = record { name = volume_name; source = source } ∷ [];
    };
  };
  status = job_status;
}

-- The job of `NFSProvider.Setup`.
unfoldable pub nfs_mkdir_job : String → String → Workbench → Job
unfolding mkdir_job
nfs_mkdir_job server share wb =
    let ns = wb.metadata.namespace in
    mkdir_job ("nfs-mkdir-" <> ns) "nfs-directory-creator" "nfs-volume" "/nfs"
      ("mkdir -p /nfs/workspaces/" <> ns <> "/data && chmod 2770 /nfs/workspaces/" <> ns
        <> "/data && chgrp 1001 /nfs/workspaces/" <> ns <> "/data")
      (nfs_volume server share) wb

-- The job of `LocalProvider.Setup`.
unfoldable pub local_mkdir_job : Config → Workbench → Job
unfolding mkdir_job local_host_path
local_mkdir_job config wb =
    let ns = wb.metadata.namespace in
    mkdir_job ("local-mkdir-" <> ns) "local-directory-creator" "local-volume" "/local"
      ("mkdir -p /local/workspaces/" <> ns <> "/data /local/workspaces/" <> ns
        <> "/app_data && chmod 2770 /local/workspaces/" <> ns
        <> "/data && chmod 2770 /local/workspaces/" <> ns
        <> "/app_data && chgrp 1001 /local/workspaces/" <> ns <> "/data /local/workspaces/" <> ns
        <> "/app_data")
      (host_path (local_host_path config) "DirectoryOrCreate") wb

-- `NewStorageManager`: the provider of each type, if the manager has it.
unfoldable pub provider_of : Config → StorageType → Option BaseProvider
unfolding new_s3_provider new_nfs_provider new_local_provider
provider_of config s3 = some (new_s3_provider config)
provider_of config nfs = some (new_nfs_provider config)
provider_of config local =
    if config.local_storage_enabled then some (new_local_provider config) else none

abbrev pub or_default : Option StorageConfig → StorageConfig
or_default none = record { s3 = true; nfs = true; local = false }
or_default (some storage) = storage

abbrev pub if_wanted : Bool → Option BaseProvider → List BaseProvider
if_wanted false _ = []
if_wanted true none = []
if_wanted true (some b) = b ∷ []

-- `GetEnabledProviders`
unfoldable pub get_enabled_providers : Config → Workbench → List BaseProvider
unfolding provider_of
get_enabled_providers config wb =
    let storage = or_default wb.spec.storage in
    if_wanted storage.s3 (provider_of config s3)
    ++ (if_wanted storage.nfs (provider_of config nfs)
        ++ if_wanted storage.local (provider_of config local))
