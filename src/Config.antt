-- ===== src/Config.antt =====
-- internal/controller/config.go: the configuration that the controller is started with.
use workbench_operator.Base.{String, Bool}

pub record Config : Type 0 where
  pub registry : String
  pub apps_repository : String
  pub socat_image : String
  pub xpra_server_image : String
  pub init_container_image : String
  pub juicefs_secret_name : String
  pub juicefs_secret_namespace : String
  pub nfs_secret_name : String
  pub nfs_secret_namespace : String
  pub local_storage_enabled : Bool
  pub local_storage_host_path : String
  pub debug_mode_enabled : Bool
  pub workbench_priority_class_name : String
  pub application_priority_class_name : String
