-- ===== src/Reconcile/Converge/Prepare.antt =====
-- The part of Reconcile above the apps, on a cluster that stores deployments and services
-- (workbench_controller.go).
use workbench_operator.Base.{◌<>◌, false, some, ◌≡◌, refl, ap, sym, ◌∙◌, string_eq}
use mathlib.Core.Path.{subst}
use workbench_operator.Kube.{ObjectKey, Service}
use workbench_operator.Config.{Config}
use workbench_operator.Workbench.{Workbench}
use workbench_operator.Deployment.{
  server_container, server_image, server_env, init_deployment, update_deployment,
}
use workbench_operator.Platform.{Request, Platform, World}
use workbench_operator.Platform.Monad.{value}
use workbench_operator.Platform.Ensures.{Ensures, Ensures-weaken}
use workbench_operator.Cluster.{key_of}
use workbench_operator.Cluster.Converge.{IsSameBench, IsSameBench-trans, StoresServer}
use workbench_operator.Cluster.Converge.Calls.{HoldsUsable, stay, HasService}
use workbench_operator.Reconcile.{server_phase, prepare}
use workbench_operator.Cluster.Converge.{LeavesDeployments}
use workbench_operator.Reconcile.Converge.{HoldsInSync}
use workbench_operator.Reconcile.Converge.Server.{server_phase-InSync}
use workbench_operator.Reconcile.Converge.Rest.{prepare-Served}

module _ (P : Platform) (cluster : StoresServer P) (config : Config) where
  InSync-kept :
      (wb : Workbench) (k : ObjectKey) (q : Request) (s : P.State)
      → LeavesDeployments q
      → HoldsInSync P cluster wb config k s
      → HoldsInSync P cluster wb config k (P.answer q s).1
  InSync-kept wb k q s l (b, held, sync) = (b, stay P cluster q s k b l held, sync)

  usable-kept :
      (k : ObjectKey) (q : Request) (s : P.State)
      → LeavesDeployments q
      → HoldsUsable P cluster k s
      → HoldsUsable P cluster k (P.answer q s).1
  usable-kept k q s l usable d held = usable d (sym (cluster.deployments_stay q s k l) ∙ held)

  pub init_key :
      (wb' wb : Workbench)
      → IsSameBench wb' wb
      → key_of (init_deployment wb' config).metadata ≡ key_of (init_deployment wb config).metadata
  unfolding init_deployment
  init_key wb' wb (same, _) =
      ap (λ k. record { name = k.name <> "-server"; namespace = k.namespace }) same

  pub init_deployment-same :
      (wb' wb : Workbench)
      → IsSameBench wb' wb
      → init_deployment wb' config ≡ init_deployment wb config
  unfolding init_deployment server_container server_image server_env
  init_deployment-same wb' wb (same, spec) =
      let name = ap (λ k. k.name) same in
      let namespace = ap (λ k. k.namespace) same in rw (name, namespace, spec) refl

  in_sync :
      (wb' wb : Workbench) (k : ObjectKey) (s : P.State)
      → IsSameBench wb' wb
      → HoldsInSync P cluster wb' config k s
      → HoldsInSync P cluster wb config k s
  in_sync wb' wb k s same (b, held, sync) = (
    b,
    held,
    subst (λ d. update_deployment d b ≡ some (b, false)) (init_deployment-same wb' wb same) sync,
  )

  server_phase-same :
      (wb wb' : Workbench)
      → IsSameBench wb' wb
      → let k = key_of (init_deployment wb config).metadata in
        Ensures
          (HoldsUsable P cluster k)
          (server_phase P config wb')
          (λ wb'' s. IsSameBench wb'' wb × HoldsInSync P cluster wb config k s)
  server_phase-same wb wb' same =
      let k = key_of (init_deployment wb config).metadata in
      Ensures-weaken (λ s h. h)
        (λ wb'' s (same', h). (IsSameBench-trans wb'' wb' wb same' same, in_sync wb' wb k s same h))
        (server_phase-InSync P cluster config wb' k (sym (init_key wb' wb same)))

-- On a platform that stores deployments and services and saves the workbench, and from any world in
-- which the deployment held under the name of the server, if there is one, has a container, an init
-- container and a selector, the part of the reconciliation above the apps ends in a value. After it
-- the platform holds a deployment under that name in which updateDeployment finds nothing to change,
-- and a service under the name of the workbench; the workbench has the name, the namespace and the
-- specification it had.
pub prepare-Converges :
    (P : Platform) (cluster : StoresServer P) (config : Config) (wb : Workbench) (w : World P)
    → HoldsUsable P cluster (key_of (init_deployment wb config).metadata) w.state
    → let (outcome, w') = prepare P config wb w in
      (wb' : Workbench) × (service : Service) × (outcome ≡ value (wb', service))
      × IsSameBench wb' wb
      × HasService P cluster (key_of wb.metadata) w'.state
      × HoldsInSync P cluster wb config (key_of (init_deployment wb config).metadata) w'.state
prepare-Converges P cluster config wb w usable =
    let k = key_of (init_deployment wb config).metadata in
    let ((wb', service), e, (same, (held, sync))) =
      (prepare-Served P cluster config (HoldsUsable P cluster k) (HoldsInSync P cluster wb config k)
          (usable-kept P cluster config k) (InSync-kept P cluster config wb k) wb
          (server_phase-same P cluster config wb)).at
        w usable in
    (wb', service, e, same, held, sync)
