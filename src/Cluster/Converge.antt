-- ===== src/Cluster/Converge.antt =====
-- A cluster that stores deployments and services, and the operations of the reconciler on it
-- (workbench_controller.go).
pub mod Calls
use workbench_operator.Base.{
  String, Bool, true, false, Option, none, some, List, [], ◌∷◌, map, ◌≡◌, refl, ◌≢◌, sym, ◌∙◌, ◌⊎◌,
  inl, inr, arith, Option-cases, Bool-cases, string_eq,
}
use workbench_operator.Kube.{ObjectKey, ObjectMeta, Container, Deployment, Service, Labels}
use workbench_operator.Config.{Config}
use workbench_operator.Workbench.{Workbench, ServerPodHealth}
use workbench_operator.Workbench.Status.{update_status_from_deployment}
use workbench_operator.Health.{set_server_pod_health, same_health}
use workbench_operator.Deployment.{
  init_deployment, update_deployment, one_item, sync_containers, server_container,
  sidecar_container,
}
use workbench_operator.Deployment.Laws.{
  server_containers, sidecars, first_image, update_deployment_lem,
}
use workbench_operator.Platform.{
  Answer, ok, Request, get_service, create_service, create_deployment,
  update_deployment as update_deployment_request, delete_all_deployments, update_workbench,
  update_workbench_status, list_pods, Platform,
}
use workbench_operator.Platform.Monad.{returned, Result, ◌>>=◌}
use workbench_operator.Platform.Ensures.{
  Ensures, Ensures-clock, Ensures-pure, Ensures-call, Ensures-bind,
}
use workbench_operator.Cluster.{
  key_of, listed_health, create_deployment_if_missing, create_service_if_missing,
  update_server_pod_health, health_by_selector,
}
use workbench_operator.Cluster.Ensure.{Stores, StoresDeployments}

abbrev pub StoresServices : Platform → Type 0
StoresServices P =
    Stores (λ s. key_of s.metadata) (λ k s. P.answer (get_service k) s)
      (λ x s. P.answer (create_service x) s)

abbrev image_of : Container → String
image_of c = c.image

-- The stored deployment has the images and the selector of the one that was sent; the server may have
-- filled in all else.
pub record IsStoredAs (d b : Deployment) : Type 0 where
  pub servers : map image_of (server_containers b) ≡ map image_of (server_containers d)
  pub inits : map image_of (sidecars b) ≡ map image_of (sidecars d)
  pub selector : b.selector ≡ d.selector

-- The workbench as it was but for its status and the metadata that are not its name and namespace.
abbrev pub IsSameBench : Workbench → Workbench → Type 0
IsSameBench wb' wb = (key_of wb'.metadata ≡ key_of wb.metadata) × (wb'.spec ≡ wb.spec)

-- The requests that leave the deployments as they are, and those that leave the services.
abbrev pub LeavesDeployments : Request → Type 0
LeavesDeployments q = elim q [
  | create_deployment _ ↦ ⊥
  | update_deployment_request _ ↦ ⊥
  | delete_all_deployments _ _ ↦ ⊥
  | _ ↦ Unit
]

abbrev pub LeavesServices : Request → Type 0
LeavesServices q = elim q [ create_service _ ↦ ⊥ | _ ↦ Unit ]

abbrev pub IsOwnedBy : ObjectMeta → Answer ObjectMeta → Type 0
IsOwnedBy m a = (m' : ObjectMeta) × (a ≡ ok m') × (key_of m' ≡ key_of m)

-- A server that keeps deployments and services as maps and saves the workbench, with the laws of the
-- owner reference and of the finalizer.
pub record StoresServer (P : Platform) : Type 0 where
  pub deployments : StoresDeployments P
  pub services : StoresServices P
  pub keyed :
      (k : ObjectKey) (d : Deployment) (s : P.State)
      → deployments.holds k s ≡ some d
      → key_of d.metadata ≡ k
  pub created :
      (d b : Deployment) (s : P.State)
      → (P.answer (create_deployment d) s).0 ≡ ok b
      → IsStoredAs d b
  pub updates :
      (d c : Deployment) (s : P.State)
      → deployments.holds (key_of d.metadata) s ≡ some c
      → (b : Deployment) × ((P.answer (update_deployment_request d) s).0 ≡ ok b)
        × (deployments.holds (key_of d.metadata) (P.answer (update_deployment_request d) s).1
            ≡ some b)
        × IsStoredAs d b
  pub deployments_stay :
      (q : Request) (s : P.State) (k : ObjectKey)
      → LeavesDeployments q
      → deployments.holds k (P.answer q s).1 ≡ deployments.holds k s
  pub services_stay :
      (q : Request) (s : P.State) (k : ObjectKey)
      → LeavesServices q
      → services.holds k (P.answer q s).1 ≡ services.holds k s
  pub saves :
      (wb : Workbench) (s : P.State)
      → (wb' : Workbench) × ((P.answer (update_workbench wb) s).0 ≡ ok wb') × IsSameBench wb' wb
  pub saves_status :
      (wb : Workbench) (s : P.State)
      → (wb' : Workbench) × ((P.answer (update_workbench_status wb) s).0 ≡ ok wb')
        × IsSameBench wb' wb
  pub owns : (wb : Workbench) (m : ObjectMeta) → IsOwnedBy m (P.set_controller_reference wb m)
  pub finalizes : (m : ObjectMeta) (f : String) → key_of (P.add_finalizer m f).0 ≡ key_of m

-- The update has something to work on: a container and an init container, and pods to look for.
pub record IsUsable (d : Deployment) : Type 0 where
  pub servers : server_containers d ≢ []
  pub inits : sidecars d ≢ []
  pub selector : d.selector ≢ none

abbrev pub InSync : Workbench → Config → Deployment → Type 0
InSync wb config d = update_deployment (init_deployment wb config) d ≡ some (d, false)

map-ne-nil : {A B : Type 0} (f : A → B) (bs cs : List A) → map f bs ≡ map f cs → cs ≢ [] → bs ≢ []
map-ne-nil f [] [] e n = λ _. n refl
map-ne-nil f [] (c ∷ cs) e n = cc
map-ne-nil f (b ∷ bs) cs e n = λ h. cc

pub IsStoredAs-IsUsable : (d b : Deployment) → IsStoredAs d b → IsUsable d → IsUsable b
IsStoredAs-IsUsable d b s u = record {
  servers = map-ne-nil image_of (server_containers b) (server_containers d) s.servers u.servers;
  inits = map-ne-nil image_of (sidecars b) (sidecars d) s.inits u.inits;
  selector = λ e. u.selector (sym s.selector ∙ e);
}

pub init_deployment-IsUsable :
    (wb : Workbench) (config : Config) → IsUsable (init_deployment wb config)
unfolding init_deployment
init_deployment-IsUsable wb config = record {
  servers = λ e. cc;
  inits = λ e. cc;
  selector = λ e. cc;
}

-- The images decide whether there is something to do.
sync-same :
    (s : Container) (cs bs : List Container)
    → map image_of bs ≡ map image_of cs
    → one_item cs ≡ true
    → first_image cs ≡ some s.image
    → sync_containers (s ∷ []) bs ≡ some (bs, false)
unfolding sync_containers
sync-same s [] bs e one first = cc
sync-same s (c ∷ []) [] e one first = cc
sync-same s (c ∷ []) (b ∷ []) e one first = ground arith
sync-same s (c ∷ []) (b ∷ _ ∷ _) e one first = ground arith
sync-same s (c ∷ _ ∷ _) bs e one first = cc

module _ (wb : Workbench) (config : Config) where
  -- What an update leaves is in sync, as the server stores it.
  pub IsStoredAs-InSync :
      (found d b : Deployment) (changed : Bool)
      → update_deployment (init_deployment wb config) found ≡ some (d, changed)
      → IsStoredAs d b
      → InSync wb config b
  unfolding update_deployment init_deployment
  IsStoredAs-InSync found d b changed e s =
      let (first, inits_first, one, inits_one, _, _, _, _, _) =
        update_deployment_lem wb config found d changed e in
      let servers =
        sync-same (server_container wb config) (server_containers d) (server_containers b) s.servers
          one first in
      let inits =
        sync-same (sidecar_container config) (sidecars d) (sidecars b) s.inits inits_one
          inits_first in
      rw (servers, inits) refl

pub IsSameBench-trans : (a b c : Workbench) → IsSameBench a b → IsSameBench b c → IsSameBench a c
IsSameBench-trans a b c (k, s) (j, t) = (k ∙ j, s ∙ t)

pub update_status_from_deployment-same :
    (wb : Workbench) (d : Deployment) → IsSameBench (update_status_from_deployment wb d).0 wb
unfolding update_status_from_deployment
update_status_from_deployment-same wb d = (ground arith, ground arith)
