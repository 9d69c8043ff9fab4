-- ===== src/Reconcile/Converge/Stays.antt =====
-- Reconcile on a deployment that is as the workbench asks, on a cluster that stores deployments and
-- services (workbench_controller.go).
use workbench_operator.Base.{false, some, ◌≡◌, refl, sym, ◌∙◌, string_eq}
use mathlib.Core.Path.{subst}
use workbench_operator.Kube.{ObjectKey, ObjectMeta, Deployment, Service}
use workbench_operator.Config.{Config}
use workbench_operator.Workbench.{Workbench}
use workbench_operator.Deployment.{init_deployment, update_deployment}
use workbench_operator.Platform.{Platform, World}
use workbench_operator.Platform.Monad.{returned, value, ◌>>=◌}
use workbench_operator.Platform.Ensures.{
  Ensures, Ensures-pure, Ensures-bind, Ensures-fact, Ensures-weaken,
}
use workbench_operator.Cluster.{key_of, create_deployment_if_missing}
use workbench_operator.Cluster.Converge.{
  IsSameBench, IsSameBench-trans, IsUsable, InSync, StoresServer,
}
use workbench_operator.Cluster.Converge.Calls.{Holds, stay, HasService}
use workbench_operator.Reconcile.{push_deployment, update_found_deployment, server_phase, prepare}
use workbench_operator.Cluster.Converge.{LeavesDeployments}
use workbench_operator.Platform.{Request}
use workbench_operator.Reconcile.Saves.{own-IsOwned}
use workbench_operator.Reconcile.Converge.Server.{follow_deployment-Same}
use workbench_operator.Reconcile.Converge.Rest.{prepare-Served}
use workbench_operator.Reconcile.Converge.Prepare.{init_deployment-same, init_key}

module _ (P : Platform) (cluster : StoresServer P) (config : Config) where
  module _ (wb : Workbench) (k : ObjectKey) (d : Deployment) (usable : IsUsable d)
      (sync : InSync wb config d) where
    update_found_deployment-Stays :
        (m : ObjectMeta)
        → Ensures
            (Holds P cluster k d)
            (update_found_deployment P config
              (record (init_deployment wb config) { metadata = m })
              d)
            (λ _. Holds P cluster k d)
    unfolding update_found_deployment push_deployment update_deployment
    update_found_deployment-Stays m = rw sync (Ensures-pure _ (λ s h. h))

    found_as :
        (x : Deployment)
        → key_of x.metadata ≡ k
        → Ensures
            (Holds P cluster k d)
            (create_deployment_if_missing P x)
            (λ r s. (r ≡ returned d) × Holds P cluster k d s)
    unfolding create_deployment_if_missing ◌>>=◌
    found_as x e = record {
      at = λ w held.
          rw (e, cluster.deployments.gets k w.state, held) (returned d, refl, (refl, held));
    }

    server_phase-Stays :
        key_of (init_deployment wb config).metadata ≡ k
        → Ensures
            (Holds P cluster k d)
            (server_phase P config wb)
            (λ wb' s. IsSameBench wb' wb × Holds P cluster k d s)
    unfolding server_phase
    server_phase-Stays e =
        Ensures-bind _ _ _
          (own-IsOwned P config (Holds P cluster k d) cluster.owns wb
            (init_deployment wb config).metadata)
          (λ m. Ensures-fact (λ same.
            Ensures-bind (λ r s. (r ≡ returned d) × Holds P cluster k d s) _ _
              (found_as (record (init_deployment wb config) { metadata = m }) (same ∙ e))
              (λ r. Ensures-fact (λ found. rw found (
                follow_deployment-Same P cluster config wb m k (Holds P cluster k d) d usable
                  (update_found_deployment-Stays m))))))

  server_phase-same_stays :
      (wb wb' : Workbench) (d : Deployment)
      → IsUsable d
      → InSync wb config d
      → IsSameBench wb' wb
      → let k = key_of (init_deployment wb config).metadata in
        Ensures
          (Holds P cluster k d)
          (server_phase P config wb')
          (λ wb'' s. IsSameBench wb'' wb × Holds P cluster k d s)
  server_phase-same_stays wb wb' d usable sync same =
      let k = key_of (init_deployment wb config).metadata in
      let sync' =
        subst (λ x. update_deployment x d ≡ some (d, false))
          (sym (init_deployment-same P cluster config wb' wb same)) sync in
      Ensures-weaken (λ s h. h) (λ wb'' s (same', h). (IsSameBench-trans wb'' wb' wb same' same, h))
        (server_phase-Stays wb' k d usable sync' (init_key P cluster config wb' wb same))

-- On a platform that stores deployments and services and saves the workbench, if the deployment held
-- under the name of the server has a container, an init container and a selector, and updateDeployment
-- finds nothing to change in it, the part of the reconciliation above the apps ends in a value, and
-- after it the platform holds the same deployment under that name, and a service under the name of the
-- workbench.
pub prepare-Stays :
    (P : Platform) (cluster : StoresServer P) (config : Config) (wb : Workbench) (d : Deployment)
    (w : World P)
    → IsUsable d
    → InSync wb config d
    → Holds P cluster (key_of (init_deployment wb config).metadata) d w.state
    → let (outcome, w') = prepare P config wb w in
      (wb' : Workbench) × (service : Service) × (outcome ≡ value (wb', service))
      × IsSameBench wb' wb
      × HasService P cluster (key_of wb.metadata) w'.state
      × Holds P cluster (key_of (init_deployment wb config).metadata) d w'.state
prepare-Stays P cluster config wb d w usable sync held =
    let k = key_of (init_deployment wb config).metadata in
    let keep : (q : Request) (s : P.State)
        → LeavesDeployments q
        → Holds P cluster k d s
        → Holds P cluster k d (P.answer q s).1 =
      λ q s l h. stay P cluster q s k d l h in
    let ((wb', service), e, (same, (served, still))) =
      (prepare-Served P cluster config (Holds P cluster k d) (Holds P cluster k d) keep keep wb
          (λ wb' same. server_phase-same_stays P cluster config wb wb' d usable sync same)).at
        w held in
    (wb', service, e, same, served, still)
