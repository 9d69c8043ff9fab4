-- ===== src/Reconcile/Converge.antt =====
-- The part of Reconcile above the apps, on a cluster that stores deployments and services
-- (workbench_controller.go).
pub mod Server
pub mod Rest
pub mod Prepare
pub mod Stays
use workbench_operator.Base.{
  String, Bool, true, false, some, [], ◌≡◌, refl, ◌≢◌, ap, sym, ◌∙◌, ◌⊎◌, inl, inr, Option-cases,
  Bool-cases, if◌then◌else◌, ◌||◌, arith, string_eq,
}
use mathlib.Core.Path.{subst}
use workbench_operator.Kube.{ObjectKey, ObjectMeta, Deployment, Service}
use workbench_operator.Config.{Config}
use workbench_operator.Workbench.{Workbench}
use workbench_operator.Workbench.Status.{update_status_from_deployment}
use workbench_operator.Deployment.{init_deployment, update_deployment}
use workbench_operator.Deployment.Laws.{
  server_containers, sidecars, update_deployment_lem, update_deployment-none,
}
use workbench_operator.Service.{init_service}
use workbench_operator.Platform.{
  Answer, ok, err, record_event, update_workbench, update_workbench_status,
  update_deployment as update_deployment_request, Platform, World,
}
use workbench_operator.Platform.Monad.{
  returned, value, Result, call, pure, stop, failed, api, ◌>>=◌, on_answer, on_result,
}
use workbench_operator.Platform.Ensures.{
  Ensures, Ensures-pure, Ensures-call, Ensures-bind, Ensures-fact, Ensures-none, Ensures-weaken,
}
use workbench_operator.Cluster.{key_of, create_deployment_if_missing}
use workbench_operator.Cluster.Converge.{
  IsStoredAs, IsSameBench, IsSameBench-trans, update_status_from_deployment-same, IsUsable, InSync,
  StoresServer, IsStoredAs-InSync, init_deployment-IsUsable,
}
use workbench_operator.Cluster.Converge.Calls.{
  HoldsUsable, Holds, Given, create_deployment_if_missing-Given, stay,
  update_server_pod_health-Holds, HasService, create_service_if_missing-HasService,
}
use workbench_operator.Reconcile.{
  finalizer, ensure_finalizer, save_workbench, push_deployment, update_found_deployment,
  follow_deployment, server_phase, service_phase, storage_phase, prepare,
}

-- A deployment is held under the key, and an update finds nothing to do on it.
abbrev pub HoldsInSync :
    (P : Platform) → StoresServer P → Workbench → Config → ObjectKey → P.State → Type 0
HoldsInSync P cluster wb config k s = (b : Deployment) × Holds P cluster k b s × InSync wb config b

module _ (P : Platform) (cluster : StoresServer P) (config : Config) where
  -- The answer to an update: the deployment as it is stored.
  abbrev Stored : ObjectKey → Deployment → Answer Deployment → P.State → Type 0
  Stored k d a s = (b : Deployment) × (a ≡ ok b) × Holds P cluster k b s × IsStoredAs d b

  update_stores :
      (k : ObjectKey) (c d : Deployment)
      → key_of d.metadata ≡ k
      → Ensures (Holds P cluster k c) (call P (update_deployment_request d)) (Stored k d)
  update_stores k c d e = Ensures-call (update_deployment_request d) (λ s h.
      let (b, saved, there, same) =
        cluster.updates d c s (ap (λ j. cluster.deployments.holds j s) e ∙ h) in
      (
        b,
        saved,
        ap (λ j. cluster.deployments.holds j (P.answer (update_deployment_request d) s).1) (sym e)
            ∙ there,
        same,
      ))

  event_stays :
      (k : ObjectKey) (d : Deployment) (kind reason text : String)
      → Ensures
          (Holds P cluster k d)
          (call P (record_event kind reason text))
          (λ _. Holds P cluster k d)
  event_stays k d kind reason text =
      Ensures-call (record_event kind reason text)
        (λ s h. stay P cluster (record_event kind reason text) s k d tt h)

  usable_left : (d : Deployment) → IsUsable d → (server_containers d ≡ []) ⊎ (sidecars d ≡ []) → ⊥
  usable_left d u (inl e) = u.servers e
  usable_left d u (inr e) = u.inits e

  module _ (wb : Workbench) (m : ObjectMeta) (k : ObjectKey) where
    kept_key :
        (found d : Deployment) (changed : Bool)
        → update_deployment (init_deployment wb config) found ≡ some (d, changed)
        → key_of d.metadata ≡ key_of found.metadata
    kept_key found d changed p =
        ap (λ x. key_of x.metadata) (update_deployment_lem wb config found d changed p).4

    unchanged-InSync :
        (found d : Deployment)
        → update_deployment (init_deployment wb config) found ≡ some (d, false)
        → InSync wb config found
    unchanged-InSync found d p =
        p ∙ ap (λ x. some (x, false)) ((update_deployment_lem wb config found d false p).5.0 refl)

    pushed :
        (found d : Deployment)
        → update_deployment (init_deployment wb config) found ≡ some (d, true)
        → (a : Answer Deployment)
        → Ensures {P = P}
            (Stored k d a)
            (on_answer a (λ _. pure tt) (λ e. stop (failed (api e))))
            (λ _. HoldsInSync P cluster wb config k)
    pushed found d p (ok b) =
        Ensures-pure _
          (λ s (c, same, h, stored). (c, h, IsStoredAs-InSync wb config found d c true p stored))
    pushed found d p (err _) = Ensures-none (λ s (c, same, _, _). cc)

    push_deployment-InSync :
        (found d : Deployment) (changed : Bool)
        → key_of found.metadata ≡ k
        → update_deployment (init_deployment wb config) found ≡ some (d, changed)
        → Ensures
            (Holds P cluster k found)
            (push_deployment P config
              (record (init_deployment wb config) { metadata = m })
              (some (d, changed)))
            (λ _. HoldsInSync P cluster wb config k)
    unfolding push_deployment
    push_deployment-InSync found d false e p =
        Ensures-pure _ (λ s h. (found, h, unchanged-InSync found d p))
    push_deployment-InSync found d true e p =
        Ensures-bind (λ _. Holds P cluster k found) _ _ (event_stays k found _ _ _)
          (λ _.
            Ensures-bind (Stored k d) _ _ (update_stores k found d (kept_key found d true p ∙ e))
              (pushed found d p))

    pub update_found_deployment-InSync :
        (found : Deployment)
        → IsUsable found
        → Ensures
            (Holds P cluster k found)
            (update_found_deployment P config
              (record (init_deployment wb config) { metadata = m })
              found)
            (λ _. HoldsInSync P cluster wb config k)
    unfolding update_found_deployment update_deployment
    update_found_deployment-InSync found u =
        elim (Option-cases (update_deployment (init_deployment wb config) found)) [
          | inl none_left ↦
              absurd (usable_left found u ((update_deployment-none wb config found).0 none_left))
          | inr ((d, changed), p) ↦ rw p (record {
            at = λ w h.
                (push_deployment-InSync found d changed (cluster.keyed k found w.state h) p).at w h;
          })
        ]
