-- ===== src/Platform/Requests.antt =====
-- Sets of requests, by which the phases of a reconciliation are told apart.
use workbench_operator.Base.{none, ◌≡◌}
use workbench_operator.Platform.{
  Request, update_workbench, list_deployments, delete_all_deployments, get_job, create_job,
  update_job, delete_job, list_jobs, delete_all_jobs, get_pv, create_pv, get_pvc, create_pvc,
  get_csi_driver, get_secret, record_event, look_path, read_passwd, update_workbench_status,
}

-- The calls of the storage manager: reads, events, and the creation of volumes, claims and of the
-- jobs that make directories, which say nothing about suspension.
abbrev pub StorageRequest : Request → Type 0
StorageRequest q = elim q [
  | get_secret _ ↦ Unit
  | get_csi_driver _ ↦ Unit
  | create_job j ↦ j.suspend ≡ none
  | record_event _ _ _ ↦ Unit
  | get_pv _ ↦ Unit
  | create_pv _ ↦ Unit
  | get_pvc _ ↦ Unit
  | create_pvc _ ↦ Unit
  | _ ↦ ⊥
]

-- The drivers and the secrets, which it only reads, and its events.
abbrev pub LookupRequest : Request → Type 0
LookupRequest q = elim q [
  | get_secret _ ↦ Unit
  | get_csi_driver _ ↦ Unit
  | record_event _ _ _ ↦ Unit
  | _ ↦ ⊥
]

-- What it asks for besides its volumes and claims: the drivers, the secrets, and the setup.
abbrev pub SetupRequest : Request → Type 0
SetupRequest q = elim q [
  | get_secret _ ↦ Unit
  | get_csi_driver _ ↦ Unit
  | create_job j ↦ j.suspend ≡ none
  | record_event _ _ _ ↦ Unit
  | _ ↦ ⊥
]

pub lookup_setup : (q : Request) → LookupRequest q → SetupRequest q
lookup_setup (get_secret _) a = tt
lookup_setup (get_csi_driver _) a = tt
lookup_setup (record_event _ _ _) a = tt
lookup_setup _ a = absurd a

pub lookup_storage : (q : Request) → LookupRequest q → StorageRequest q
lookup_storage (get_secret _) a = tt
lookup_storage (get_csi_driver _) a = tt
lookup_storage (record_event _ _ _) a = tt
lookup_storage _ a = absurd a

pub setup_storage : (q : Request) → SetupRequest q → StorageRequest q
setup_storage (get_secret _) a = tt
setup_storage (get_csi_driver _) a = tt
setup_storage (create_job _) a = a
setup_storage (record_event _ _ _) a = tt
setup_storage _ a = absurd a

-- What the teardown asks for: it reads lists, deletes by label, and writes the workbench. It creates
-- nothing.
abbrev pub TeardownRequest : Request → Type 0
TeardownRequest q = elim q [
  | record_event _ _ _ ↦ Unit
  | list_jobs _ ↦ Unit
  | delete_all_jobs _ _ ↦ Unit
  | list_deployments _ ↦ Unit
  | delete_all_deployments _ _ ↦ Unit
  | update_workbench _ ↦ Unit
  | _ ↦ ⊥
]

-- What a reconciliation of a live workbench may ask for before its server is ready: it reads, saves
-- the workbench, and creates or updates the deployment, the service and the storage, whose setup may
-- create a job that says nothing about suspension.
abbrev pub ServerRequest : Request → Type 0
ServerRequest q = elim q [
  | create_job j ↦ j.suspend ≡ none
  | get_job _ ↦ ⊥
  | update_job _ ↦ ⊥
  | delete_job _ ↦ ⊥
  | list_jobs _ ↦ ⊥
  | delete_all_jobs _ _ ↦ ⊥
  | list_deployments _ ↦ ⊥
  | delete_all_deployments _ _ ↦ ⊥
  | _ ↦ Unit
]

-- What `initJob` asks for: the drivers and the secrets, its events, and the container tools.
abbrev pub InitRequest : Request → Type 0
InitRequest q = elim q [
  | get_secret _ ↦ Unit
  | get_csi_driver _ ↦ Unit
  | record_event _ _ _ ↦ Unit
  | look_path _ ↦ Unit
  | read_passwd _ _ ↦ Unit
  | _ ↦ ⊥
]

-- What the part below the test of the server may ask for: that, the single jobs and their list, and
-- the status. It leaves the deployment, the service and the storage alone.
abbrev pub AppsRequest : Request → Type 0
AppsRequest q = elim q [
  | get_secret _ ↦ Unit
  | get_csi_driver _ ↦ Unit
  | record_event _ _ _ ↦ Unit
  | look_path _ ↦ Unit
  | read_passwd _ _ ↦ Unit
  | get_job _ ↦ Unit
  | create_job _ ↦ Unit
  | update_job _ ↦ Unit
  | delete_job _ ↦ Unit
  | list_jobs _ ↦ Unit
  | update_workbench_status _ ↦ Unit
  | _ ↦ ⊥
]

pub storage_server : (q : Request) → StorageRequest q → ServerRequest q
storage_server (get_secret _) a = tt
storage_server (get_csi_driver _) a = tt
storage_server (create_job _) a = a
storage_server (record_event _ _ _) a = tt
storage_server (get_pv _) a = tt
storage_server (create_pv _) a = tt
storage_server (get_pvc _) a = tt
storage_server (create_pvc _) a = tt
storage_server _ a = absurd a

pub lookup_init : (q : Request) → LookupRequest q → InitRequest q
lookup_init (get_secret _) a = tt
lookup_init (get_csi_driver _) a = tt
lookup_init (record_event _ _ _) a = tt
lookup_init _ a = absurd a

pub init_server : (q : Request) → InitRequest q → ServerRequest q
init_server (get_secret _) a = tt
init_server (get_csi_driver _) a = tt
init_server (record_event _ _ _) a = tt
init_server (look_path _) a = tt
init_server (read_passwd _ _) a = tt
init_server _ a = absurd a

pub init_apps : (q : Request) → InitRequest q → AppsRequest q
init_apps (get_secret _) a = tt
init_apps (get_csi_driver _) a = tt
init_apps (record_event _ _ _) a = tt
init_apps (look_path _) a = tt
init_apps (read_passwd _ _) a = tt
init_apps _ a = absurd a

-- Neither a read nor a deletion of a single job, nor the creation of an app's job, which says whether
-- it is suspended.
abbrev pub QuietRequest : Request → Type 0
QuietRequest q = elim q [
  | get_job _ ↦ ⊥
  | delete_job _ ↦ ⊥
  | create_job j ↦ j.suspend ≡ none
  | _ ↦ Unit
]

pub server_quiet : (q : Request) → ServerRequest q → QuietRequest q
server_quiet (create_job _) a = a
server_quiet (get_job _) a = a
server_quiet (delete_job _) a = a
server_quiet _ a = tt
