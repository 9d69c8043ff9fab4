-- ===== src/Cluster/Converge/Calls.antt =====
-- createDeployment, createService and updateServerPodHealth on a cluster that stores deployments and
-- services (workbench_controller.go).
use workbench_operator.Base.{
  Option, none, some, ◌≡◌, refl, ◌≢◌, ◌∙◌, inl, inr, Option-cases, Bool-cases, string_eq,
}
use workbench_operator.Kube.{ObjectKey, Deployment, Service, Labels}
use workbench_operator.Workbench.{Workbench, ServerPodHealth}
use workbench_operator.Health.{set_server_pod_health, same_health}
use workbench_operator.Platform.{Request, create_service, list_pods, Platform}
use workbench_operator.Platform.Monad.{returned, Result, ◌>>=◌}
use workbench_operator.Platform.Ensures.{
  Ensures, Ensures-clock, Ensures-pure, Ensures-call, Ensures-bind,
}
use workbench_operator.Cluster.{
  key_of, listed_health, create_deployment_if_missing, create_service_if_missing,
  update_server_pod_health, health_by_selector,
}
use workbench_operator.Cluster.Converge.{
  IsSameBench, IsUsable, StoresServer, IsStoredAs-IsUsable, LeavesDeployments,
}

set_server_pod_health-same :
    (wb : Workbench) (h : ServerPodHealth) → IsSameBench (set_server_pod_health wb h).0 wb
unfolding set_server_pod_health
set_server_pod_health-same wb h = elim (Option-cases wb.status.server_deployment.server_pod) [
  | inl e ↦ rw e (refl, refl)
  | inr (c, e) ↦ rw e (elim (Bool-cases (same_health c h)) [
    | inl same ↦ rw same (refl, refl)
    | inr other ↦ rw other (refl, refl)
  ])
]

module _ (P : Platform) (cluster : StoresServer P) where
  open cluster use {deployments, services}

  -- What is held under the key, if anything, is usable.
  abbrev pub HoldsUsable : ObjectKey → P.State → Type 0
  HoldsUsable k s = (d : Deployment) → deployments.holds k s ≡ some d → IsUsable d

  abbrev pub Holds : ObjectKey → Deployment → P.State → Type 0
  Holds k d s = deployments.holds k s ≡ some d

  abbrev pub Given : ObjectKey → Result Deployment → P.State → Type 0
  Given k r s = (d : Deployment) × (r ≡ returned d) × Holds k d s × IsUsable d

  pub create_deployment_if_missing-Given :
      (d : Deployment)
      → IsUsable d
      → Ensures
          (HoldsUsable (key_of d.metadata))
          (create_deployment_if_missing P d)
          (Given (key_of d.metadata))
  unfolding create_deployment_if_missing ◌>>=◌
  create_deployment_if_missing-Given d u = record {
    at = λ w usable. elim (Option-cases (deployments.holds (key_of d.metadata) w.state)) [
      | inl free ↦
          let (b, made, there) = deployments.creates d w.state free in
          rw (deployments.gets (key_of d.metadata) w.state, free, made)
            (
              returned b,
              refl,
              (b, refl, there, IsStoredAs-IsUsable d b (cluster.created d b w.state made) u),
            )
      | inr (b, held) ↦
          rw (deployments.gets (key_of d.metadata) w.state, held)
            (returned b, refl, (b, refl, held, usable b held))
    ];
  }

  -- The state keeps what it holds.
  pub stay :
      (q : Request) (s : P.State) (k : ObjectKey) (d : Deployment)
      → LeavesDeployments q
      → Holds k d s
      → Holds k d (P.answer q s).1
  stay q s k d l h = cluster.deployments_stay q s k l ∙ h

  health_by_selector-Holds :
      (wb : Workbench) (k : ObjectKey) (d : Deployment) (selector : Option Labels)
      → selector ≢ none
      → Ensures
          (Holds k d)
          (health_by_selector P wb selector)
          (λ (wb', _) s. IsSameBench wb' wb × Holds k d s)
  unfolding health_by_selector
  health_by_selector-Holds wb k d none n = absurd (n refl)
  health_by_selector-Holds wb k d (some labels) n =
      Ensures-bind (λ _. Holds k d) _ _
        (Ensures-call (list_pods wb.metadata.namespace labels) (λ s h. stay _ s k d tt h))
        (λ listed.
          Ensures-bind (λ _. Holds k d) _ _ Ensures-clock
            (λ now.
              Ensures-pure _
                (λ s h. (set_server_pod_health-same wb (listed_health now listed), h))))

  pub update_server_pod_health-Holds :
      (wb : Workbench) (k : ObjectKey) (d : Deployment)
      → IsUsable d
      → Ensures
          (Holds k d)
          (update_server_pod_health P wb d)
          (λ (wb', _) s. IsSameBench wb' wb × Holds k d s)
  unfolding update_server_pod_health
  update_server_pod_health-Holds wb k d u = health_by_selector-Holds wb k d d.selector u.selector

  -- A service that is there, whatever it says.
  abbrev pub HasService : ObjectKey → P.State → Type 0
  HasService k s = (x : Service) × (services.holds k s ≡ some x)

  pub create_service_if_missing-HasService :
      (I : P.State → Type 0) (x : Service)
      → ((q : Request) (s : P.State) → LeavesDeployments q → I s → I (P.answer q s).1)
      → Ensures I
          (create_service_if_missing P x)
          (λ r s. (r ≡ returned tt) × HasService (key_of x.metadata) s × I s)
  unfolding create_service_if_missing ◌>>=◌
  create_service_if_missing-HasService I x keep = record {
    at = λ w i. elim (Option-cases (services.holds (key_of x.metadata) w.state)) [
      | inl free ↦
          let (b, made, there) = services.creates x w.state free in
          rw (services.gets (key_of x.metadata) w.state, free, made)
            (returned tt, refl, (refl, (b, there), keep (create_service x) w.state tt i))
      | inr (b, held) ↦
          rw (services.gets (key_of x.metadata) w.state, held)
            (returned tt, refl, (refl, (b, held), i))
    ];
  }
