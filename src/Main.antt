-- ===== src/Main.antt =====
-- cmd/main.go: the flags, the configuration of the controller made from them, and the start of the
-- manager. What `main` calls of controller-runtime is a parameter, `Host`; flag.Parse is too, so the
-- flags stand here as it leaves them. What is only logged has no part in the model.
pub mod Laws
use workbench_operator.Base.{ℕ, String, Bool, true, false, List, [], ◌∷◌, ◌++◌, if◌then◌else◌, not}
use workbench_operator.Config.{Config}

pub record Flags : Type 0 where
  pub metrics_addr : String
  pub enable_leader_election : Bool
  pub probe_addr : String
  pub secure_metrics : Bool
  pub enable_http2 : Bool
  pub registry : String
  pub apps_repository : String
  pub xpra_server_image : String
  pub init_container_image : String
  pub socat_image : String
  pub juicefs_secret_name : String
  pub juicefs_secret_namespace : String
  pub nfs_secret_name : String
  pub nfs_secret_namespace : String
  pub local_storage_enabled : Bool
  pub local_storage_host_path : String
  pub debug_mode_enabled : Bool
  pub workbench_priority_class_name : String
  pub application_priority_class_name : String

-- The flags where the command line names none.
abbrev pub default_flags : Flags
default_flags = record {
  metrics_addr = "0";
  enable_leader_election = false;
  probe_addr = ":8081";
  secure_metrics = false;
  enable_http2 = false;
  registry = "harbor.build.chorus-tre.local";
  apps_repository = "apps";
  xpra_server_image = "";
  init_container_image = "";
  socat_image = "";
  juicefs_secret_name = "juicefs-secret";
  juicefs_secret_namespace = "kube-system";
  nfs_secret_name = "nfs-secret";
  nfs_secret_namespace = "kube-system";
  local_storage_enabled = false;
  local_storage_host_path = "/tmp/workbench-local-storage";
  debug_mode_enabled = false;
  workbench_priority_class_name = "";
  application_priority_class_name = "";
}

unfoldable pub config_of : Flags → Config
config_of f = record {
  registry = f.registry;
  apps_repository = f.apps_repository;
  socat_image = f.socat_image;
  xpra_server_image = f.xpra_server_image;
  init_container_image = f.init_container_image;
  juicefs_secret_name = f.juicefs_secret_name;
  juicefs_secret_namespace = f.juicefs_secret_namespace;
  nfs_secret_name = f.nfs_secret_name;
  nfs_secret_namespace = f.nfs_secret_namespace;
  local_storage_enabled = f.local_storage_enabled;
  local_storage_host_path = f.local_storage_host_path;
  debug_mode_enabled = f.debug_mode_enabled;
  workbench_priority_class_name = f.workbench_priority_class_name;
  application_priority_class_name = f.application_priority_class_name;
}

-- `tls.Config`, with the field that an option sets.
pub record TlsConfig : Type 0 where
  pub next_protos : List String

abbrev pub disable_http2 : TlsConfig → TlsConfig
disable_http2 c = record c { next_protos = "http/1.1" ∷ [] }

unfoldable pub tls_opts : Flags → List (TlsConfig → TlsConfig)
tls_opts f = [] ++ (if not f.enable_http2 then disable_http2 ∷ [] else [])

-- The options of the manager, with those of its metrics server and of its webhook server.
pub record ManagerOptions : Type 0 where
  pub metrics_bind_address : String
  pub metrics_secure_serving : Bool
  pub metrics_tls_opts : List (TlsConfig → TlsConfig)
  pub webhook_tls_opts : List (TlsConfig → TlsConfig)
  pub health_probe_bind_address : String
  pub leader_election : Bool
  pub leader_election_id : String

unfoldable pub manager_options : Flags → ManagerOptions
unfolding tls_opts
manager_options f = record {
  metrics_bind_address = f.metrics_addr;
  metrics_secure_serving = f.secure_metrics;
  metrics_tls_opts = tls_opts f;
  webhook_tls_opts = tls_opts f;
  health_probe_bind_address = f.probe_addr;
  leader_election = f.enable_leader_election;
  leader_election_id = "744cc179.chorus-tre.ch";
}

-- What `main` asks of controller-runtime. `get_config` is `GetConfigOrDie`, which ends the process
-- itself where there is no configuration.
pub data HostCall : Type 0 where
  get_config : HostCall
  new_manager : ManagerOptions → HostCall
  set_up_controller : Config → HostCall
  add_healthz_check add_readyz_check start_manager : HostCall

-- Whether a call succeeds, and the state that it leaves.
pub record Host : Type 1 where
  pub State : Type 0
  pub run : HostCall → State → Bool × State

-- How the process ended, and the calls that it made, the last one first.
pub record Ended : Type 0 where
  pub exit_code : ℕ
  pub calls : List HostCall

module _ (H : Host) where
  -- A call whose error ends the process with `os.Exit(1)`.
  abbrev pub attempt :
      HostCall → (H.State → List HostCall → Ended) → H.State → List HostCall → Ended
  attempt call next s calls =
      let (done, s') = H.run call s in
      if done then next s' (call ∷ calls) else record { exit_code = 1; calls = call ∷ calls }

  -- The end of `main`, where the manager was stopped.
  abbrev pub finish : H.State → List HostCall → Ended
  finish s calls = record { exit_code = 0; calls = calls }

  unfoldable pub main : Flags → H.State → Ended
  unfolding config_of manager_options
  main f s =
      attempt get_config
        (attempt (new_manager (manager_options f)) (
          attempt (set_up_controller (config_of f))
            (attempt add_healthz_check (attempt add_readyz_check (attempt start_manager finish)))))
        s []
