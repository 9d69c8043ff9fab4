-- ===== src/Platform.antt =====
-- What the reconciler calls and does not implement: the Kubernetes API through controller-runtime's
-- client, the helpers of controllerutil, the event recorder, the clock, and the container tools of
-- the host. They are a parameter of the model, `Platform`. A call may change the state of the world
-- and may fail, and nothing else is said of it. Every call is written to a history with its answer,
-- newest first.
pub mod Monad
pub mod Contract
pub mod Only
pub mod Keeps
pub mod Ensures
pub mod Requests
pub mod Total
use workbench_operator.Base.{String, Bool, List}
use workbench_operator.Kube.{
  ObjectKey, ObjectMeta, Deployment, Job, Service, Pod, PersistentVolume, PersistentVolumeClaim,
  Secret, Labels, Time,
}
use workbench_operator.Workbench.{Workbench}

-- An error of the API: `apierrors.IsNotFound` holds of the first and of no other.
pub data ApiError : Type 0 where
  not_found : ApiError
  other : String → ApiError

pub data Answer {ℓ} (A : Type ℓ) : Type ℓ where
  ok : A → Answer A
  err : ApiError → Answer A

pub data Request : Type 0 where
  get_workbench : ObjectKey → Request
  update_workbench update_workbench_status : Workbench → Request
  get_deployment : ObjectKey → Request
  create_deployment update_deployment : Deployment → Request
  list_deployments : Labels → Request
  delete_all_deployments : (namespace : String) → Labels → Request
  get_service : ObjectKey → Request
  create_service : Service → Request
  get_job : ObjectKey → Request
  create_job update_job delete_job : Job → Request
  list_jobs : Labels → Request
  delete_all_jobs : (namespace : String) → Labels → Request
  list_pods : (namespace : String) → Labels → Request
  get_pv : (name : String) → Request
  create_pv : PersistentVolume → Request
  get_pvc : ObjectKey → Request
  create_pvc : PersistentVolumeClaim → Request
  get_csi_driver : (name : String) → Request
  get_secret : ObjectKey → Request
  record_event : (event_type reason message : String) → Request
  look_path : (tool : String) → Request
  -- `TOOL run --rm --entrypoint cat IMAGE /etc/passwd`, stopped after 30 seconds
  read_passwd : (tool image : String) → Request

-- What a call gives if it succeeds. A create or an update gives the object as the server stored it.
abbrev pub Response : Request → Type 0
Response (get_workbench _) = Workbench
Response (update_workbench _) = Workbench
Response (update_workbench_status _) = Workbench
Response (get_deployment _) = Deployment
Response (create_deployment _) = Deployment
Response (update_deployment _) = Deployment
Response (list_deployments _) = List Deployment
Response (get_service _) = Service
Response (create_service _) = Service
Response (get_job _) = Job
Response (create_job _) = Job
Response (update_job _) = Job
Response (list_jobs _) = List Job
Response (list_pods _ _) = List Pod
Response (get_pv _) = PersistentVolume
Response (create_pv _) = PersistentVolume
Response (get_pvc _) = PersistentVolumeClaim
Response (create_pvc _) = PersistentVolumeClaim
Response (get_csi_driver _) = Unit {0}
Response (get_secret _) = Secret
Response (delete_all_deployments _ _) = Unit {0}
Response (delete_job _) = Unit {0}
Response (delete_all_jobs _ _) = Unit {0}
Response (record_event _ _ _) = Unit {0}
Response (look_path _) = String
Response (read_passwd _ _) = String

pub record Platform : Type 1 where
  pub State : Type 0
  pub answer : (q : Request) → State → Answer (Response q) × State
  pub clock : State → Time
  -- `controllerutil.SetControllerReference(&workbench, object, scheme)`, on the object's metadata
  pub set_controller_reference : Workbench → ObjectMeta → Answer ObjectMeta
  pub contains_finalizer : ObjectMeta → String → Bool
  -- the metadata after `AddFinalizer` and `RemoveFinalizer`, and whether it was changed
  pub add_finalizer : ObjectMeta → String → ObjectMeta × Bool
  pub remove_finalizer : ObjectMeta → String → ObjectMeta × Bool

-- A call with its answer.
abbrev pub Event : Type 0
Event = (q : Request) × Answer (Response q)

pub record World (P : Platform) : Type 0 where
  pub state : P.State
  pub history : List Event
