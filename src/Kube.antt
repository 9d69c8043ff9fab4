-- ===== src/Kube.antt =====
-- The Kubernetes objects that the operator builds, reads and compares, with the fields that the
-- code of internal/controller names. A Go pointer is an `Option`; a nil map or slice is the empty
-- one, except where the code tests it for nil.
pub mod Zero
pub mod Mounts
pub mod Distinct
use workbench_operator.Base.{ℕ, String, Bool, Option, List, ℤ}
use workbench_operator.Base.Dict.{Dict}

-- A quantity stands as the text that is given to `resource.MustParse`.
abbrev pub Quantity : Type 0
Quantity = String

abbrev pub Labels : Type 0
Labels = Dict String

-- Nanoseconds since the epoch.
abbrev pub Time : Type 0
Time = ℕ

pub record ObjectKey : Type 0 where
  pub name : String
  pub namespace : String

pub record ObjectMeta : Type 0 where
  pub name : String
  pub namespace : String
  pub labels : Labels
  pub annotations : Labels
  pub finalizers : List String
  pub owners : List String
  pub deletion_timestamp : Option Time

abbrev pub ResourceList : Type 0
ResourceList = Dict Quantity

pub record ResourceRequirements : Type 0 where
  pub limits : Option ResourceList
  pub requests : Option ResourceList

pub data PullPolicy : Type 0 where
  pull_always if_not_present : PullPolicy

pub record Capabilities : Type 0 where
  pub add : List String
  pub drop : List String

pub record SecurityContext : Type 0 where
  pub run_as_user : Option ℤ
  pub run_as_group : Option ℤ
  pub run_as_non_root : Option Bool
  pub allow_privilege_escalation : Option Bool
  pub privileged : Option Bool
  pub capabilities : Option Capabilities

pub record EnvVar : Type 0 where
  pub name : String
  pub value : String

pub record VolumeMount : Type 0 where
  pub name : String
  pub mount_path : String
  pub sub_path : String

pub data VolumeSource : Type 0 where
  empty_dir : (medium : String) → (size_limit : Option Quantity) → VolumeSource
  persistent_volume_claim : (claim_name : String) → VolumeSource
  nfs_volume : (server path : String) → VolumeSource
  host_path : (path host_path_type : String) → VolumeSource

pub record Volume : Type 0 where
  pub name : String
  pub source : VolumeSource

pub data IntOrString : Type 0 where
  from_int : ℕ → IntOrString
  from_string : String → IntOrString

pub data ProbeHandler : Type 0 where
  http_get : (path : String) → (port : IntOrString) → ProbeHandler
  tcp_socket : (port : IntOrString) → ProbeHandler

pub record Probe : Type 0 where
  pub handler : ProbeHandler
  pub initial_delay_seconds : ℤ
  pub period_seconds : ℤ
  pub timeout_seconds : ℤ
  pub success_threshold : ℤ
  pub failure_threshold : ℤ

pub record ContainerPort : Type 0 where
  pub name : String
  pub container_port : ℕ

pub record Container : Type 0 where
  pub name : String
  pub image : String
  pub image_pull_policy : Option PullPolicy
  pub restart_policy : Option String
  pub command : List String
  pub args : List String
  pub ports : List ContainerPort
  pub env : List EnvVar
  pub resources : ResourceRequirements
  pub volume_mounts : List VolumeMount
  pub liveness_probe : Option Probe
  pub readiness_probe : Option Probe
  pub security_context : Option SecurityContext

pub record PodSecurityContext : Type 0 where
  pub fs_group : Option ℤ
  pub fs_group_change_policy : Option String
  pub seccomp_profile : Option String

pub record PodSpec : Type 0 where
  pub volumes : List Volume
  pub init_containers : List Container
  pub containers : List Container
  pub restart_policy : String
  pub service_account_name : String
  pub priority_class_name : String
  pub image_pull_secrets : List String
  pub hostname : String
  pub security_context : Option PodSecurityContext

pub record PodTemplate : Type 0 where
  pub labels : Labels
  pub annotations : Labels
  pub spec : PodSpec

pub record DeploymentCondition : Type 0 where
  pub condition_type : String
  pub status : String
  pub reason : String

pub record Deployment : Type 0 where
  pub metadata : ObjectMeta
  -- `Spec.Selector`, with its `MatchLabels`
  pub selector : Option Labels
  pub template : PodTemplate
  pub conditions : List DeploymentCondition

pub record JobStatus : Type 0 where
  pub active : ℤ
  pub ready : Option ℤ
  pub succeeded : ℤ

pub record Job : Type 0 where
  pub metadata : ObjectMeta
  pub ttl_seconds_after_finished : Option ℤ
  pub backoff_limit : Option ℤ
  pub suspend : Option Bool
  pub template : PodTemplate
  pub status : JobStatus

pub record ServicePort : Type 0 where
  pub name : String
  pub port : ℕ
  pub target_port : IntOrString
  pub protocol : String

pub record Service : Type 0 where
  pub metadata : ObjectMeta
  pub selector : Labels
  pub ports : List ServicePort
  pub service_type : String

pub record Waiting : Type 0 where
  pub reason : String
  pub message : String

pub record Running : Type 0 where
  pub started_at : Time

pub record Terminated : Type 0 where
  pub exit_code : ℤ
  pub reason : String
  pub message : String

pub record ContainerState : Type 0 where
  pub waiting : Option Waiting
  pub running : Option Running
  pub terminated : Option Terminated

pub record ContainerStatus : Type 0 where
  pub name : String
  pub ready : Bool
  pub restart_count : ℤ
  pub state : ContainerState

pub record Pod : Type 0 where
  pub creation_timestamp : Time
  pub deletion_timestamp : Option Time
  pub init_container_statuses : List ContainerStatus
  pub container_statuses : List ContainerStatus

pub record SecretReference : Type 0 where
  pub name : String
  pub namespace : String

pub data PersistentVolumeSource : Type 0 where
  csi :
      (driver volume_handle : String)
      → (volume_attributes : Dict String) → (node_publish_secret_ref : Option SecretReference)
      → PersistentVolumeSource
  host_path_volume : (path host_path_type : String) → PersistentVolumeSource

pub record PersistentVolume : Type 0 where
  pub metadata : ObjectMeta
  pub capacity : ResourceList
  pub access_modes : List String
  pub reclaim_policy : String
  pub storage_class_name : String
  pub source : PersistentVolumeSource

pub record PersistentVolumeClaim : Type 0 where
  pub metadata : ObjectMeta
  pub access_modes : List String
  pub requests : ResourceList
  pub volume_name : String
  pub storage_class_name : Option String

-- `Secret.Data`
abbrev pub Secret : Type 0
Secret = Dict String
