-- ===== src/Reconcile/Role.antt =====
-- The role of the operator, as the kubebuilder markers of
-- internal/controller/workbench_controller.go declare it, and the accesses that the calls of a
-- reconciliation need. SetupWithManager lists and watches the kinds it names; a read goes through the
-- client of the manager, which lists and watches the kind that is read; an object with an owner
-- reference is made only by who may update the finalizers of the owner.
use workbench_operator.Base.{
  String, Bool, true, false, Option, none, some, List, [], ◌∷◌, ◌≡◌, refl, ◌&&◌, ◌||◌, string_eq,
  ◌==◌,
}
use workbench_operator.Config.{Config}
use workbench_operator.Kube.{ObjectKey, Time}
use workbench_operator.Workbench.{Workbench}
use workbench_operator.Platform.{
  Request, get_workbench, update_workbench, update_workbench_status, get_deployment,
  create_deployment, update_deployment, list_deployments, delete_all_deployments, get_service,
  create_service, get_job, create_job, update_job, delete_job, list_jobs, delete_all_jobs,
  list_pods, get_pv, create_pv, get_pvc, create_pvc, get_csi_driver, get_secret, record_event,
  look_path, read_passwd, Platform, World,
}
use workbench_operator.Platform.Only.{Extends, Only, Only-map, Only-bind, only_rules}
use workbench_operator.Platform.Requests.{AppsRequest, ServerRequest, TeardownRequest}
use workbench_operator.Reconcile.{
  by_deletion, reconcile_found, reconcile_key, reconcile, reconcile_live,
}
use workbench_operator.Reconcile.Calls.{reconcile_deleted-Only, prepare-Only}
use workbench_operator.Reconcile.Live.{apps_phase-Only}

pub record Rule : Type 0 where
  pub api_group : String
  pub resource : String
  pub verbs : List String

pub record Access : Type 0 where
  pub api_group : String
  pub resource : String
  pub verb : String

abbrev rule : String → String → List String → Rule
rule api_group resource verbs = record { api_group = api_group; resource = resource; verbs = verbs }

abbrev access : String → String → String → Access
access api_group resource verb = record { api_group = api_group; resource = resource; verb = verb }

abbrev chorus : String
chorus = "default.chorus-tre.ch"

unfoldable pub role : List Rule
role =
    rule chorus "workbenches"
      ("get" ∷ "list" ∷ "watch" ∷ "create" ∷ "update" ∷ "patch" ∷ "delete" ∷ [])
    ∷ rule chorus "workbenches/status" ("get" ∷ "update" ∷ "patch" ∷ [])
    ∷ rule chorus "workbenches/finalizers" ("update" ∷ [])
    ∷ rule "apps" "deployments" (
        "get" ∷ "list" ∷ "watch" ∷ "create" ∷ "update" ∷ "patch" ∷ "delete" ∷ "deletecollection"
        ∷ [])
    ∷ rule "apps" "deployments/status" ("get" ∷ [])
    ∷ rule "core" "services"
        ("get" ∷ "list" ∷ "watch" ∷ "create" ∷ "update" ∷ "patch" ∷ "delete" ∷ [])
    ∷ rule "core" "services/status" ("get" ∷ [])
    ∷ rule "batch" "jobs" (
        "get" ∷ "list" ∷ "watch" ∷ "create" ∷ "update" ∷ "patch" ∷ "delete" ∷ "deletecollection"
        ∷ [])
    ∷ rule "batch" "jobs/status" ("get" ∷ [])
    ∷ rule "core" "pods" ("get" ∷ "list" ∷ "watch" ∷ "create" ∷ "delete" ∷ [])
    ∷ rule "core" "persistentvolumes"
        ("get" ∷ "list" ∷ "watch" ∷ "create" ∷ "update" ∷ "patch" ∷ [])
    ∷ rule "core" "persistentvolumeclaims"
        ("get" ∷ "list" ∷ "watch" ∷ "create" ∷ "update" ∷ "patch" ∷ [])
    ∷ rule "storage.k8s.io" "csidrivers" ("get" ∷ "list" ∷ "watch" ∷ [])
    ∷ rule "core" "secrets" ("get" ∷ "list" ∷ "watch" ∷ [])
    ∷ rule "core" "events" ("create" ∷ "patch" ∷ [])
    ∷ []

-- The kinds of `For` and `Owns`.
unfoldable pub watched : List Access
watched =
    access chorus "workbenches" "list"
    ∷ access chorus "workbenches" "watch"
    ∷ access "apps" "deployments" "list"
    ∷ access "apps" "deployments" "watch"
    ∷ access "batch" "jobs" "list"
    ∷ access "batch" "jobs" "watch"
    ∷ access "core" "services" "list"
    ∷ access "core" "services" "watch"
    ∷ []

abbrev read : String → String → String → List Access
read api_group resource verb =
    access api_group resource verb
    ∷ access api_group resource "list"
    ∷ access api_group resource "watch"
    ∷ []

-- Asked also for the jobs of the storage, which have no owner.
abbrev make_owned : String → String → List Access
make_owned api_group resource =
    access api_group resource "create" ∷ access chorus "workbenches/finalizers" "update" ∷ []

-- The calls of the container tools need no access to the cluster.
abbrev pub needs : Request → List Access
needs (get_workbench _) = read chorus "workbenches" "get"
needs (update_workbench _) = access chorus "workbenches" "update" ∷ []
needs (update_workbench_status _) = access chorus "workbenches/status" "update" ∷ []
needs (get_deployment _) = read "apps" "deployments" "get"
needs (create_deployment _) = make_owned "apps" "deployments"
needs (update_deployment _) = access "apps" "deployments" "update" ∷ []
needs (list_deployments _) = read "apps" "deployments" "list"
needs (delete_all_deployments _ _) = access "apps" "deployments" "deletecollection" ∷ []
needs (get_service _) = read "core" "services" "get"
needs (create_service _) = make_owned "core" "services"
needs (get_job _) = read "batch" "jobs" "get"
needs (create_job _) = make_owned "batch" "jobs"
needs (update_job _) = access "batch" "jobs" "update" ∷ []
needs (delete_job _) = access "batch" "jobs" "delete" ∷ []
needs (list_jobs _) = read "batch" "jobs" "list"
needs (delete_all_jobs _ _) = access "batch" "jobs" "deletecollection" ∷ []
needs (list_pods _ _) = read "core" "pods" "list"
needs (get_pv _) = read "core" "persistentvolumes" "get"
needs (create_pv _) = access "core" "persistentvolumes" "create" ∷ []
needs (get_pvc _) = read "core" "persistentvolumeclaims" "get"
needs (create_pvc _) = access "core" "persistentvolumeclaims" "create" ∷ []
needs (get_csi_driver _) = read "storage.k8s.io" "csidrivers" "get"
needs (get_secret _) = read "core" "secrets" "get"
needs (record_event _ _ _) = access "core" "events" "create" ∷ access "core" "events" "patch" ∷ []
needs (look_path _) = []
needs (read_passwd _ _) = []

has_verb : String → List String → Bool
has_verb verb [] = false
has_verb verb (v ∷ verbs) = verb == v || has_verb verb verbs

grants : Rule → Access → Bool
unfolding has_verb
grants r a = r.api_group == a.api_group && r.resource == a.resource && has_verb a.verb r.verbs

is_granted : List Rule → Access → Bool
unfolding grants
is_granted [] a = false
is_granted (r ∷ rules) a = grants r a || is_granted rules a

unfoldable pub are_granted : List Rule → List Access → Bool
unfolding is_granted
are_granted rules [] = true
are_granted rules (a ∷ accesses) = is_granted rules a && are_granted rules accesses

abbrev pub IsGranted : Request → Type 0
IsGranted q = are_granted role (needs q) ≡ true

AppsRequest-IsGranted : (q : Request) → AppsRequest q → IsGranted q
unfolding are_granted role string_eq
AppsRequest-IsGranted (get_secret _) a = refl
AppsRequest-IsGranted (get_csi_driver _) a = refl
AppsRequest-IsGranted (record_event _ _ _) a = refl
AppsRequest-IsGranted (look_path _) a = refl
AppsRequest-IsGranted (read_passwd _ _) a = refl
AppsRequest-IsGranted (get_job _) a = refl
AppsRequest-IsGranted (create_job _) a = refl
AppsRequest-IsGranted (update_job _) a = refl
AppsRequest-IsGranted (delete_job _) a = refl
AppsRequest-IsGranted (list_jobs _) a = refl
AppsRequest-IsGranted (update_workbench_status _) a = refl
AppsRequest-IsGranted _ a = absurd a

ServerRequest-IsGranted : (q : Request) → ServerRequest q → IsGranted q
unfolding are_granted role string_eq
ServerRequest-IsGranted (get_job _) a = absurd a
ServerRequest-IsGranted (update_job _) a = absurd a
ServerRequest-IsGranted (delete_job _) a = absurd a
ServerRequest-IsGranted (list_jobs _) a = absurd a
ServerRequest-IsGranted (delete_all_jobs _ _) a = absurd a
ServerRequest-IsGranted (list_deployments _) a = absurd a
ServerRequest-IsGranted (delete_all_deployments _ _) a = absurd a
ServerRequest-IsGranted _ a = refl

TeardownRequest-IsGranted : (q : Request) → TeardownRequest q → IsGranted q
unfolding are_granted role string_eq
TeardownRequest-IsGranted (record_event _ _ _) a = refl
TeardownRequest-IsGranted (list_jobs _) a = refl
TeardownRequest-IsGranted (delete_all_jobs _ _) a = refl
TeardownRequest-IsGranted (list_deployments _) a = refl
TeardownRequest-IsGranted (delete_all_deployments _ _) a = refl
TeardownRequest-IsGranted (update_workbench _) a = refl
TeardownRequest-IsGranted _ a = absurd a

module _ (P : Platform) (config : Config) where
  reconcile_live-Only : (wb : Workbench) → Only IsGranted (reconcile_live P config wb)
  unfolding reconcile_live
  reconcile_live-Only wb =
      Only-bind (Only-map ServerRequest-IsGranted (prepare-Only P config wb))
        (λ (wb', service). Only-map AppsRequest-IsGranted (apps_phase-Only P config wb' service))

  by_deletion-Only : (wb : Workbench) (t : Option Time) → Only IsGranted (by_deletion P config wb t)
  unfolding by_deletion
  by_deletion-Only wb (some _) =
      Only-map TeardownRequest-IsGranted (reconcile_deleted-Only P config wb)
  by_deletion-Only wb none = reconcile_live-Only wb

  reconcile_found-Only : (wb : Workbench) → Only IsGranted (reconcile_found P config wb)
  unfolding reconcile_found
  reconcile_found-Only wb = by_deletion-Only wb wb.metadata.deletion_timestamp

  reconcile_key-Only : (key : ObjectKey) → Only IsGranted (reconcile_key P config key)
  unfolding reconcile_key
  reconcile_key-Only key =
      search (only_rules, reconcile_found-Only, ServerRequest-IsGranted (get_workbench key) tt)

watched_granted : are_granted role watched ≡ true
unfolding are_granted role watched string_eq
watched_granted = refl

-- The role grants every access that a call of a reconciliation needs, whatever the platform answers,
-- and the list and the watch of each kind that the controller is set up to follow.
pub reconcile-IsGranted :
    (P : Platform) (config : Config) (key : ObjectKey) (w : World P)
    → Extends IsGranted w.history (reconcile P config key w).1.history
      × (are_granted role watched ≡ true)
unfolding reconcile
reconcile-IsGranted P config key w = ((reconcile_key-Only P config key).at w, watched_granted)
