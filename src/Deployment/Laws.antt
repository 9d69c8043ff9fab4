-- ===== src/Deployment/Laws.antt =====
-- The update of a deployment, and how the deployment and the service fit together.
use workbench_operator.Base.{
  String, Bool, true, false, Option, none, some, List, [], ◌∷◌, ◌≡◌, refl, sym, ◌↔◌, ◌⊎◌, inl, inr,
  Option-cases, arith, string_eq,
}
use mathlib.Core.Path.{subst}
use workbench_operator.Kube.{Container, Deployment}
use workbench_operator.Config.{Config}
use workbench_operator.Workbench.{Workbench}
use workbench_operator.Deployment.{
  init_deployment, update_deployment, sync_containers, server_container, sidecar_container,
  one_item, with_containers,
}

-- The image of the first container.
abbrev pub first_image : List Container → Option String
first_image [] = none
first_image (c ∷ _) = some c.image

abbrev pub server_containers : Deployment → List Container
server_containers d = d.template.spec.containers

abbrev pub sidecars : Deployment → List Container
sidecars d = d.template.spec.init_containers

sync_containers-none :
    (s : Container) (ss found : List Container)
    → (sync_containers (s ∷ ss) found ≡ none) ↔ (found ≡ [])
unfolding sync_containers
sync_containers-none s ss [] = (λ e. refl, λ e. refl)
sync_containers-none s ss (f ∷ fs) = (λ e. cc, λ e. cc)

-- A single container that was found keeps all but its image, which is that of the source; several
-- containers give way to the one of the source.
abbrev pub IsSyncedFrom : Container → List Container → List Container → Type 0
IsSyncedFrom s [] cs = ⊥
IsSyncedFrom s (f ∷ []) cs = cs ≡ record f { image = s.image } ∷ []
IsSyncedFrom s (_ ∷ _ ∷ _) cs = cs ≡ s ∷ []

-- What one half of the update leaves: one container with the image of the source, or the image first
-- of a list that a second update leaves alone.
record IsSynced (s : Container) (found cs : List Container) (changed : Bool) : Type 0 where
  image : first_image cs ≡ some s.image
  one : one_item cs ≡ true
  again : sync_containers (s ∷ []) cs ≡ some (cs, false)
  kept : (changed ≡ false) ↔ (cs ≡ found)
  synced : IsSyncedFrom s found cs

sync_containers-IsSynced :
    (s : Container) (found cs : List Container) (changed : Bool)
    → sync_containers (s ∷ []) found ≡ some (cs, changed)
    → IsSynced s found cs changed
unfolding sync_containers
sync_containers-IsSynced s [] cs changed e = cc
sync_containers-IsSynced s (f ∷ []) cs changed e = record {
  image = ground arith;
  one = ground arith;
  again = ground arith;
  kept = (λ h. ground arith, λ h. ground arith);
  synced = ground arith;
}
sync_containers-IsSynced s (f ∷ g ∷ fs) cs changed e = record {
  image = ground arith;
  one = ground arith;
  again = ground arith;
  kept = (λ h. ground arith, λ h. ground arith);
  synced = ground arith;
}

-- With the operator's own deployment as the source, the update panics exactly where the deployment
-- in the cluster has no container or no init container.
pub update_deployment-none :
    (wb : Workbench) (config : Config) (found : Deployment)
    → (update_deployment (init_deployment wb config) found ≡ none)
      ↔ ((server_containers found ≡ []) ⊎ (sidecars found ≡ []))
unfolding update_deployment init_deployment
update_deployment-none wb config found =
    let a = sync_containers-none (server_container wb config) [] (server_containers found) in
    let b = sync_containers-none (sidecar_container config) [] (sidecars found) in
    (λ e. ground arith, λ e. ground arith)

-- An update with the operator's own deployment as the source that does not panic leaves one server
-- container and one sidecar, with the images of the source. For each of the two: where one container
-- was found, it keeps all but its image, and where several were found, the container of the source
-- stands in their place. The update changes nothing else of the deployment; it says that it changed
-- nothing exactly where the deployment is as it was, and a second update finds nothing to do.
pub update_deployment_lem :
    (wb : Workbench) (config : Config) (found d : Deployment) (changed : Bool)
    → update_deployment (init_deployment wb config) found ≡ some (d, changed)
    → let source = init_deployment wb config in
      (first_image (server_containers d) ≡ first_image (server_containers source))
      × (first_image (sidecars d) ≡ first_image (sidecars source))
      × (one_item (server_containers d) ≡ true)
      × (one_item (sidecars d) ≡ true)
      × (d ≡ with_containers found (sidecars d) (server_containers d))
      × ((changed ≡ false) ↔ (d ≡ found))
      × (update_deployment source d ≡ some (d, false))
      × IsSyncedFrom (server_container wb config) (server_containers found) (server_containers d)
      × IsSyncedFrom (sidecar_container config) (sidecars found) (sidecars d)
unfolding update_deployment init_deployment
update_deployment_lem wb config found d changed e =
    elim (Option-cases
      (sync_containers (server_container wb config ∷ []) (server_containers found))) [
        | inl p ↦ ground arith
        | inr ((cs, c1), p) ↦
            elim (Option-cases (sync_containers (sidecar_container config ∷ []) (sidecars found))) [
              | inl q ↦ ground arith
              | inr ((inits, c2), q) ↦
                  let x =
                    sync_containers-IsSynced (server_container wb config) (server_containers found)
                      cs c1 p in
                  let y =
                    sync_containers-IsSynced (sidecar_container config) (sidecars found) inits c2
                      q in
                  let same : server_containers d ≡ cs = ground arith in
                  let same_inits : sidecars d ≡ inits = ground arith in
                  (
                    ground arith,
                    ground arith,
                    ground arith,
                    ground arith,
                    ground arith,
                    (λ h. ground arith, λ h. ground arith),
                    ground arith,
                    subst (IsSyncedFrom (server_container wb config) (server_containers found))
                        (sym same) x.synced,
                    subst (IsSyncedFrom (sidecar_container config) (sidecars found))
                        (sym same_inits) y.synced,
                  )
            ]
      ]
