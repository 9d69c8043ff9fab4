-- ===== src/Workbench.antt =====
-- The custom resource: api/v1alpha1/workbench_types.go. A string type with named constants is
-- `String` where the cluster can hold any text in it (the desired state of an app), and the
-- statuses, which the operator itself writes, are texts too: Go's zero value "" is one of them.
pub mod Status
use workbench_operator.Base.{String, Bool, Option, List, ℤ}
use workbench_operator.Base.Dict.{Dict}
use workbench_operator.Kube.{Quantity, ResourceRequirements, ObjectMeta}

abbrev pub WorkbenchAppState : Type 0
WorkbenchAppState = String

pub record WorkbenchServer : Type 0 where
  pub version : String
  pub initial_resolution_width : ℤ
  pub initial_resolution_height : ℤ
  pub user : String
  pub user_id : ℤ

pub record Image : Type 0 where
  pub registry : String
  pub repository : String
  pub tag : String

pub record KioskConfig : Type 0 where
  pub url : String
  pub jwt_url : String
  pub jwt_token : String

pub record InitContainerConfig : Type 0 where
  pub version : String

pub record StorageConfig : Type 0 where
  pub s3 : Bool
  pub nfs : Bool
  pub local : Bool

pub record WorkbenchApp : Type 0 where
  pub name : String
  pub version : String
  pub state : WorkbenchAppState
  pub image : Option Image
  pub shm_size : Option Quantity
  pub resources : Option ResourceRequirements
  pub kiosk_config : Option KioskConfig

pub record WorkbenchSpec : Type 0 where
  pub server : WorkbenchServer
  pub init_container : Option InitContainerConfig
  pub apps : Dict WorkbenchApp
  pub service_account : String
  pub image_pull_secrets : List String
  pub storage : Option StorageConfig

abbrev pub WorkbenchStatusAppStatus : Type 0
WorkbenchStatusAppStatus = String

abbrev pub app_unknown : WorkbenchStatusAppStatus
app_unknown = "Unknown"

abbrev pub app_running : WorkbenchStatusAppStatus
app_running = "Running"

abbrev pub app_complete : WorkbenchStatusAppStatus
app_complete = "Complete"

abbrev pub app_progressing : WorkbenchStatusAppStatus
app_progressing = "Progressing"

abbrev pub app_failed : WorkbenchStatusAppStatus
app_failed = "Failed"

abbrev pub WorkbenchStatusServerStatus : Type 0
WorkbenchStatusServerStatus = String

abbrev pub server_running : WorkbenchStatusServerStatus
server_running = "Running"

abbrev pub server_progressing : WorkbenchStatusServerStatus
server_progressing = "Progressing"

abbrev pub server_failed : WorkbenchStatusServerStatus
server_failed = "Failed"

pub data ServerPodStatus : Type 0 where
  waiting starting ready failing restarting terminating terminated unknown : ServerPodStatus

pub record ServerPodHealth : Type 0 where
  pub status : ServerPodStatus
  pub is_ready : Bool
  pub restart_count : ℤ
  pub message : String

pub record WorkbenchStatusServer : Type 0 where
  pub revision : ℤ
  pub status : WorkbenchStatusServerStatus
  pub server_pod : Option ServerPodHealth

pub record WorkbenchStatusApp : Type 0 where
  pub revision : ℤ
  pub status : WorkbenchStatusAppStatus

pub record WorkbenchStatus : Type 0 where
  pub server_deployment : WorkbenchStatusServer
  pub apps : Dict WorkbenchStatusApp

pub record Workbench : Type 0 where
  pub metadata : ObjectMeta
  pub spec : WorkbenchSpec
  pub status : WorkbenchStatus
