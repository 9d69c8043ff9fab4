-- ===== src/Reconcile/Reached.antt =====
-- A reconciliation of a live workbench as a whole, on a cluster that stores deployments, services and
-- jobs (workbench_controller.go).
use workbench_operator.Base.{true, false, ◌≡◌, refl, ◌∙◌, ◌⊎◌, inl, inr, All, Bool-cases}
use mathlib.Core.Path.{subst}
use workbench_operator.Config.{Config}
use workbench_operator.Kube.{ObjectKey, Service}
use workbench_operator.Workbench.{Workbench}
use workbench_operator.Deployment.{init_deployment}
use workbench_operator.Platform.{
  Request, get_secret, get_csi_driver, record_event, look_path, read_passwd, get_job, create_job,
  update_job, delete_job, list_jobs, update_workbench_status, Platform, World,
}
use workbench_operator.Platform.Requests.{AppsRequest}
use workbench_operator.Platform.Only.{Steps-keeps}
use workbench_operator.Reconcile.Live.{apps_phase-Only}
use workbench_operator.Reconcile.Converge.{HoldsInSync}
use workbench_operator.Platform.Monad.{Outcome, value, stopped, requeue_after, stop, ◌>>=◌}
use workbench_operator.Cluster.{key_of}
use workbench_operator.Cluster.Converge.{
  IsSameBench, StoresServer, LeavesDeployments, LeavesServices,
}
use workbench_operator.Cluster.Converge.Calls.{HoldsUsable, HasService, stay}
use workbench_operator.Cluster.Jobs.{StoresApps}
use workbench_operator.Reconcile.{prepare, apps_phase, reconcile_live, xpra_ready}
use workbench_operator.Reconcile.Converge.Prepare.{prepare-Converges}
use workbench_operator.Reconcile.Jobs.Apps.Phase.{HasItsJob, ready_phase}

apps_leaves : (q : Request) → AppsRequest q → LeavesDeployments q × LeavesServices q
apps_leaves (get_secret _) a = (tt, tt)
apps_leaves (get_csi_driver _) a = (tt, tt)
apps_leaves (record_event _ _ _) a = (tt, tt)
apps_leaves (look_path _) a = (tt, tt)
apps_leaves (read_passwd _ _) a = (tt, tt)
apps_leaves (get_job _) a = (tt, tt)
apps_leaves (create_job _) a = (tt, tt)
apps_leaves (update_job _) a = (tt, tt)
apps_leaves (delete_job _) a = (tt, tt)
apps_leaves (list_jobs _) a = (tt, tt)
apps_leaves (update_workbench_status _) a = (tt, tt)
apps_leaves _ a = absurd a

module _ (P : Platform) (server : StoresServer P) (config : Config) where
  -- The apps leave the deployment and the service as they are.
  apps_phase-stays :
      (wb wb' : Workbench) (service : Service) (k j : ObjectKey) (w : World P)
      → HasService P server j w.state × HoldsInSync P server wb config k w.state
      → let w' = (apps_phase P config wb' service w).1 in
        HasService P server j w'.state × HoldsInSync P server wb config k w'.state
  apps_phase-stays wb wb' service k j w h =
      Steps-keeps (λ s. HasService P server j s × HoldsInSync P server wb config k s)
        (λ q s a ((x, there), (d, held, sync)).
          let (l, m) = apps_leaves q a in
          ((x, server.services_stay q s j m ∙ there), (d, stay P server q s k d l held, sync)))
        ((apps_phase-Only P config wb' service).steps w) h

module _ (P : Platform) (apps : StoresApps P) (config : Config) (wb wb' : Workbench)
    (service : Service) (same : IsSameBench wb' wb) where
  -- The two ends of a reconciliation.
  abbrev pub Ended : Outcome (Unit {0}) → P.State → Type 0
  Ended outcome s =
      ((xpra_ready wb' ≡ false) × (outcome ≡ stopped (requeue_after 2)))
      ⊎ ((xpra_ready wb' ≡ true)
          × (outcome ≡ value tt)
          × All (HasItsJob P apps config wb s) wb.spec.apps)

  apps_phase-Ended :
      (w : World P)
      → Ended (apps_phase P config wb' service w).0 (apps_phase P config wb' service w).1.state
  unfolding apps_phase stop
  apps_phase-Ended w = elim (Bool-cases (xpra_ready wb')) [
    | inr not_ready ↦ rw not_ready (inl (refl, refl))
    | inl is_ready ↦
        let (_, e, held) = (ready_phase P apps config wb wb' service same is_ready).at w tt in
        inr (
          is_ready,
          e,
          subst
              (λ spec.
                All (HasItsJob P apps config wb (apps_phase P config wb' service w).1.state)
                  spec.apps)
              same.1 held,
        )
  ]

-- On a platform that stores deployments, services and jobs and accepts the saves, the updates of what
-- it holds and the deletions that it is asked for, and from any world in which the deployment held
-- under the name of the server, if there is one, has a container, an init container and a selector, a
-- reconciliation of a live workbench ends in one of two ways, by the readiness of the server in the
-- workbench that its first part gives. Either the server is not ready, and it is to be repeated after
-- two seconds; or it is, and the reconciliation is done, and the platform holds a job under the name
-- of each app, but of those that are not to run and of those that initJob refuses in some world. In
-- both, the platform then holds a deployment under the name of the server in which updateDeployment
-- finds nothing to change, and a service under the name of the workbench.
pub reconcile_live-Reached :
    (P : Platform) (server : StoresServer P) (apps : StoresApps P) (config : Config)
    (wb : Workbench) (w : World P)
    → HoldsUsable P server (key_of (init_deployment wb config).metadata) w.state
    → let (outcome, w') = reconcile_live P config wb w in
      (wb' : Workbench) × (service : Service) × ((prepare P config wb w).0 ≡ value (wb', service))
      × IsSameBench wb' wb
      × HasService P server (key_of wb.metadata) w'.state
      × HoldsInSync P server wb config (key_of (init_deployment wb config).metadata) w'.state
      × (((xpra_ready wb' ≡ false) × (outcome ≡ stopped (requeue_after 2)))
          ⊎ ((xpra_ready wb' ≡ true)
              × (outcome ≡ value tt)
              × All (HasItsJob P apps config wb w'.state) wb.spec.apps))
unfolding reconcile_live ◌>>=◌
reconcile_live-Reached P server apps config wb w usable =
    let (wb', service, e, same, served, sync) = prepare-Converges P server config wb w usable in
    let w1 = (prepare P config wb w).1 in
    let k = key_of (init_deployment wb config).metadata in
    let stays =
      apps_phase-stays P server config wb wb' service k (key_of wb.metadata) w1 (served, sync) in
    (
      wb',
      service,
      e,
      same,
      rw e stays.0,
      rw e stays.1,
      rw e (apps_phase-Ended P apps config wb wb' service same w1),
    )
