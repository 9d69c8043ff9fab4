-- ===== src/Reconcile/Converge/Server.antt =====
-- createDeployment and the rest of Reconcile on the deployment of the server, on a cluster that
-- stores deployments (workbench_controller.go).
use workbench_operator.Base.{◌≡◌, sym, ◌∙◌, string_eq}
use mathlib.Core.Path.{subst}
use workbench_operator.Kube.{ObjectKey, ObjectMeta, Deployment}
use workbench_operator.Config.{Config}
use workbench_operator.Workbench.{Workbench}
use workbench_operator.Workbench.Status.{update_status_from_deployment}
use workbench_operator.Deployment.{init_deployment}
use workbench_operator.Platform.{Platform}
use workbench_operator.Platform.Monad.{Result, pure, on_result}
use workbench_operator.Platform.Ensures.{Ensures, Ensures-pure, Ensures-bind, Ensures-fact}
use workbench_operator.Cluster.{key_of, create_deployment_if_missing}
use workbench_operator.Cluster.Converge.{
  IsSameBench, IsSameBench-trans, update_status_from_deployment-same, IsUsable, StoresServer,
  init_deployment-IsUsable,
}
use workbench_operator.Cluster.Converge.Calls.{
  stay, HoldsUsable, Holds, Given, create_deployment_if_missing-Given,
  update_server_pod_health-Holds,
}
use workbench_operator.Reconcile.{update_found_deployment, follow_deployment, server_phase}
use workbench_operator.Reconcile.Converge.{HoldsInSync, update_found_deployment-InSync}
use workbench_operator.Platform.{update_workbench_status}
use workbench_operator.Reconcile.Saves.{own-IsOwned, save_status-Kept}

module _ (P : Platform) (cluster : StoresServer P) (config : Config) where
  module _ (wb : Workbench) (m : ObjectMeta) (k : ObjectKey) where
    -- The status is followed, and the update decides what the state is.
    pub follow_deployment-Same :
        (J : P.State → Type 0) (found : Deployment)
        → IsUsable found
        → Ensures
            (Holds P cluster k found)
            (update_found_deployment P config
              (record (init_deployment wb config) { metadata = m })
              found)
            (λ _. J)
        → Ensures
            (Holds P cluster k found)
            (follow_deployment P config wb
              (record (init_deployment wb config) { metadata = m })
              found)
            (λ wb' s. IsSameBench wb' wb × J s)
    unfolding follow_deployment
    follow_deployment-Same J found u updated =
        let wb1 = (update_status_from_deployment wb found).0 in
        let same1 = update_status_from_deployment-same wb found in
        Ensures-bind _ _ _ (update_server_pod_health-Holds P cluster wb1 k found u)
          (λ (wb2, health_updated). Ensures-fact (λ same2.
            Ensures-bind (λ wb3 s. IsSameBench wb3 wb2 × Holds P cluster k found s) _ _
              (save_status-Kept P config (Holds P cluster k found) cluster.saves_status
                (λ wb s h. stay P cluster (update_workbench_status wb) s k found tt h) _ wb2)
              (λ wb3. Ensures-fact (λ same3.
                Ensures-bind (λ _. J) _ _ updated
                  (λ _. Ensures-pure _ (λ s h. (
                    IsSameBench-trans wb3 wb2 wb same3 (IsSameBench-trans wb2 wb1 wb same2 same1),
                    h,
                  )))))))

  followed :
      (wb : Workbench) (m : ObjectMeta) (k : ObjectKey) (r : Result Deployment)
      → Ensures
          (Given P cluster k r)
          (on_result r
            (follow_deployment P config wb (record (init_deployment wb config) { metadata = m }))
            (λ _. pure wb))
          (λ wb' s. IsSameBench wb' wb × HoldsInSync P cluster wb config k s)
  followed wb m k r = record {
    at = λ w (found, e, held, usable). rw e (
        (follow_deployment-Same wb m k (HoldsInSync P cluster wb config k) found usable
            (update_found_deployment-InSync P cluster config wb m k found usable)).at
          w held);
  }

  given :
      (wb : Workbench) (m : ObjectMeta) (k : ObjectKey)
      → key_of m ≡ k
      → Ensures
          (HoldsUsable P cluster k)
          (create_deployment_if_missing P (record (init_deployment wb config) { metadata = m }))
          (Given P cluster k)
  given wb m k same =
      let d = record (init_deployment wb config) { metadata = m } in
      let u = init_deployment-IsUsable wb config in
      subst
        (λ k.
          Ensures (HoldsUsable P cluster k) (create_deployment_if_missing P d) (Given P cluster k))
        same
        (create_deployment_if_missing-Given P cluster d
          (record { servers = u.servers; inits = u.inits; selector = u.selector }))

  pub server_phase-InSync :
      (wb : Workbench) (k : ObjectKey)
      → k ≡ key_of (init_deployment wb config).metadata
      → Ensures
          (HoldsUsable P cluster k)
          (server_phase P config wb)
          (λ wb' s. IsSameBench wb' wb × HoldsInSync P cluster wb config k s)
  unfolding server_phase
  server_phase-InSync wb k e =
      Ensures-bind _ _ _
        (own-IsOwned P config (HoldsUsable P cluster k) cluster.owns wb
          (init_deployment wb config).metadata)
        (λ m. Ensures-fact (λ same.
          Ensures-bind (Given P cluster k) _ _ (given wb m k (same ∙ sym e)) (followed wb m k)))
