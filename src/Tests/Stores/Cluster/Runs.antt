-- ===== src/Tests/Stores/Cluster/Runs.antt =====
-- Runs on a cluster that stores its objects.
use workbench_operator.Base.{true, false, some, [], ◌∷◌, ◌≡◌, refl, string_eq, nat_eq}
use mathlib.Core.Path.{subst}
use workbench_operator.Kube.{Deployment, Service}
use workbench_operator.Workbench.{Workbench}
use workbench_operator.Deployment
use workbench_operator.Deployment.{init_deployment, update_deployment as update_deployment_of}
use workbench_operator.Platform.Monad.{value}
use workbench_operator.Cluster.{key_of}
use workbench_operator.Cluster.Converge.{init_deployment-IsUsable, InSync, IsUsable, IsSameBench}
use workbench_operator.Cluster.Converge.Calls.{Holds, HoldsUsable, HasService}
use workbench_operator.Reconcile.{prepare, reconcile}
use workbench_operator.Reconcile.Converge.{HoldsInSync}
use workbench_operator.Reconcile.Converge.Prepare.{prepare-Converges}
use workbench_operator.Reconcile.Converge.Stays.{prepare-Stays}
use workbench_operator.Platform.Only.{Extends}
use workbench_operator.Reconcile.Role.{IsGranted, are_granted, role, watched, reconcile-IsGranted}
use workbench_operator.Tests.Samples.{key, config, bench, deployment, start}
use workbench_operator.Base.{All, ◌⊎◌, pos}
use workbench_operator.Platform.{World}
use workbench_operator.Platform.Monad.{stopped, requeue_after}
use workbench_operator.Reconcile.{reconcile_live, apps_phase, xpra_ready}
use workbench_operator.Reconcile.Reached.{reconcile_live-Reached}
use workbench_operator.Reconcile.Jobs.Apps.Phase.{HasItsJob, apps_phase-HasItsJob}
use workbench_operator.Tests.Samples.{service, job}
use workbench_operator.Workbench.{ready}
use workbench_operator.Tests.Stores.Cluster.{serving_cluster, stores_server, stores_apps}
use workbench_operator.Tests.Stores.{some-injective, find, same_key}

-- The deployment that is held has old images.
held_usable :
    HoldsUsable serving_cluster stores_server
      (key_of (init_deployment bench config).metadata)
      (deployment ∷ [], ([], []))
unfolding stores_server find string_eq init_deployment same_key
held_usable d e =
    subst IsUsable (some-injective e)
      (record { servers = λ e. cc; inits = λ e. cc; selector = λ e. cc })

prepare-Converges_example :
    let (outcome, w') =
      prepare serving_cluster config bench (start serving_cluster (deployment ∷ [], ([], []))) in
    (wb' : Workbench) × (service : Service) × (outcome ≡ value (wb', service))
    × IsSameBench wb' bench
    × HasService serving_cluster stores_server (key_of bench.metadata) w'.state
    × HoldsInSync serving_cluster stores_server bench config
        (key_of (init_deployment bench config).metadata)
        w'.state
prepare-Converges_example =
    prepare-Converges serving_cluster stores_server config bench
      (start serving_cluster (deployment ∷ [], ([], []))) held_usable

abbrev synced : Deployment
synced = init_deployment bench config

synced_images : InSync bench config synced
unfolding string_eq update_deployment_of init_deployment Deployment.server_image nat_eq
synced_images = refl

synced_held :
    Holds serving_cluster stores_server
      (key_of (init_deployment bench config).metadata)
      synced
      (synced ∷ [], ([], []))
unfolding stores_server find string_eq init_deployment same_key
synced_held = refl

prepare-Stays_example :
    let (outcome, w') =
      prepare serving_cluster config bench (start serving_cluster (synced ∷ [], ([], []))) in
    (wb' : Workbench) × (service : Service) × (outcome ≡ value (wb', service))
    × IsSameBench wb' bench
    × HasService serving_cluster stores_server (key_of bench.metadata) w'.state
    × Holds serving_cluster stores_server
        (key_of (init_deployment bench config).metadata)
        synced
        w'.state
prepare-Stays_example =
    prepare-Stays serving_cluster stores_server config bench synced
      (start serving_cluster (synced ∷ [], ([], []))) (init_deployment-IsUsable bench config)
      synced_images synced_held

reconcile-IsGranted_example :
    Extends IsGranted []
      (reconcile serving_cluster config key (start serving_cluster ([], ([], [])))).1.history
    × (are_granted role watched ≡ true)
reconcile-IsGranted_example =
    reconcile-IsGranted serving_cluster config key (start serving_cluster ([], ([], [])))

abbrev final : World serving_cluster
final =
    (reconcile_live serving_cluster config bench
      (start serving_cluster (deployment ∷ [], ([], [])))).1

reconcile_live-Reached_example :
    let w = start serving_cluster (deployment ∷ [], ([], [])) in
    (wb' : Workbench) × (service : Service) × ((prepare serving_cluster config bench w).0
      ≡ value (wb', service))
    × IsSameBench wb' bench
    × HasService serving_cluster stores_server (key_of bench.metadata) final.state
    × HoldsInSync serving_cluster stores_server bench config
        (key_of (init_deployment bench config).metadata)
        final.state
    × (((xpra_ready wb' ≡ false)
          × ((reconcile_live serving_cluster config bench w).0 ≡ stopped (requeue_after 2)))
        ⊎ ((xpra_ready wb' ≡ true)
            × ((reconcile_live serving_cluster config bench w).0 ≡ value tt)
            × All (HasItsJob serving_cluster stores_apps config bench final.state) bench.spec.apps))
reconcile_live-Reached_example =
    reconcile_live-Reached serving_cluster stores_server stores_apps config bench
      (start serving_cluster (deployment ∷ [], ([], []))) held_usable

abbrev ready_bench : Workbench
ready_bench = record bench {
  status = record (bench.status) {
    server_deployment = record (bench.status.server_deployment) {
      server_pod =
          some (record { status = ready; is_ready = true; restart_count = pos 0; message = "" });
    };
  };
}

apps_phase-HasItsJob_example :
    let (outcome, w') =
      apps_phase serving_cluster config ready_bench service
        (start serving_cluster ([], ([], job ∷ []))) in
    (outcome ≡ value tt)
    × All (HasItsJob serving_cluster stores_apps config ready_bench w'.state) ready_bench.spec.apps
apps_phase-HasItsJob_example =
    apps_phase-HasItsJob serving_cluster stores_apps config ready_bench service
      (start serving_cluster ([], ([], job ∷ []))) refl
