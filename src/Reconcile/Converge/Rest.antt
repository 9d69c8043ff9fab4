-- ===== src/Reconcile/Converge/Rest.antt =====
-- The parts of Reconcile around the deployment of the server, on a cluster that stores deployments and
-- services (workbench_controller.go).
use workbench_operator.Base.{◌≡◌, refl, ◌∙◌, inl, inr, Bool-cases, string_eq}
use mathlib.Core.Path.{subst}
use workbench_operator.Kube.{ObjectKey, Service}
use workbench_operator.Config.{Config}
use workbench_operator.Workbench.{Workbench}
use workbench_operator.Service.{init_service}
use workbench_operator.Platform.{
  Request, get_secret, get_csi_driver, create_job, get_pv, create_pv, get_pvc, create_pvc,
  record_event, update_workbench, Platform,
}
use workbench_operator.Platform.Monad.{returned, Result, pure, stop, failed, ◌>>=◌, on_result}
use workbench_operator.Platform.Ensures.{
  Ensures, Ensures-pure, Ensures-bind, Ensures-fact, Ensures-weaken,
}
use workbench_operator.Cluster.{key_of, create_service_if_missing}
use workbench_operator.Cluster.Converge.{IsSameBench, IsSameBench-trans, StoresServer}
use workbench_operator.Cluster.Converge.Calls.{HasService, create_service_if_missing-HasService}
use workbench_operator.Reconcile.{
  finalizer, ensure_finalizer, save_workbench, server_phase, service_phase, storage_phase, prepare,
}
use workbench_operator.Platform.Requests.{StorageRequest}
use workbench_operator.Storage.Manager.Laws.{process_enabled_storage-Only}
use workbench_operator.Storage.Manager.Total.{process_enabled_storage-returned}
use workbench_operator.Platform.Only.{Steps-keeps}
use workbench_operator.Cluster.Converge.{LeavesDeployments, LeavesServices}
use workbench_operator.Reconcile.{with_metadata}
use workbench_operator.Reconcile.Saves.{own-IsOwned}

storage_leaves : (q : Request) → StorageRequest q → LeavesDeployments q × LeavesServices q
storage_leaves (get_secret _) a = (tt, tt)
storage_leaves (get_csi_driver _) a = (tt, tt)
storage_leaves (create_job _) a = (tt, tt)
storage_leaves (record_event _ _ _) a = (tt, tt)
storage_leaves (get_pv _) a = (tt, tt)
storage_leaves (create_pv _) a = (tt, tt)
storage_leaves (get_pvc _) a = (tt, tt)
storage_leaves (create_pvc _) a = (tt, tt)
storage_leaves _ a = absurd a

module _ (P : Platform) (cluster : StoresServer P) (config : Config) where
  service-kept :
      (k : ObjectKey) (q : Request) (s : P.State)
      → LeavesServices q
      → HasService P cluster k s
      → HasService P cluster k (P.answer q s).1
  service-kept k q s l (x, held) = (x, cluster.services_stay q s k l ∙ held)

  -- A property that the requests which leave the deployments alone keep.
  module _ (J : P.State → Type 0)
      (keep : (q : Request) (s : P.State) → LeavesDeployments q → J s → J (P.answer q s).1) where
    save_workbench-Same :
        (wb : Workbench)
        → Ensures J (save_workbench P config wb) (λ wb' s. IsSameBench wb' wb × J s)
    unfolding save_workbench ◌>>=◌
    save_workbench-Same wb = record {
      at = λ w j.
          let (wb', saved, same) = cluster.saves wb w.state in
          rw saved (wb', refl, (same, keep (update_workbench wb) w.state tt j));
    }

    ensure_finalizer-Same :
        (wb : Workbench)
        → Ensures J (ensure_finalizer P config wb) (λ wb' s. IsSameBench wb' wb × J s)
    unfolding ensure_finalizer
    ensure_finalizer-Same wb =
        let marked = with_metadata wb (P.add_finalizer wb.metadata finalizer).0 in
        let same : IsSameBench marked wb = (cluster.finalizes wb.metadata finalizer, refl) in
        elim (Bool-cases (P.contains_finalizer wb.metadata finalizer)) [
          | inl there ↦ rw there (Ensures-pure _ (λ s j. ((refl, refl), j)))
          | inr gone ↦ rw gone (elim (Bool-cases (P.add_finalizer wb.metadata finalizer).1) [
            | inl changed ↦ rw changed (
                Ensures-weaken (λ s j. j)
                  (λ wb' s (t, j). (IsSameBench-trans wb' marked wb t same, j))
                  (save_workbench-Same marked))
            | inr as_was ↦ rw as_was (Ensures-pure _ (λ s j. (same, j)))
          ])
        ]

    -- The service is there, and the property holds.
    abbrev Served : ObjectKey → P.State → Type 0
    Served k s = HasService P cluster k s × J s

    after_service :
        (k : ObjectKey) (x : Service) (r : Result (Unit {0}))
        → Ensures {P = P}
            (λ s. (r ≡ returned tt) × Served k s)
            (on_result r (λ _. pure x) (λ e. stop (failed e)))
            (λ _. Served k)
    after_service k x r = Ensures-fact (λ e. rw e (Ensures-pure _ (λ s j. j)))

    create_service-Served :
        (k : ObjectKey) (x : Service)
        → key_of x.metadata ≡ k
        → Ensures J (create_service_if_missing P x) (λ r s. (r ≡ returned tt) × Served k s)
    create_service-Served k x e =
        subst
          (λ k. Ensures J (create_service_if_missing P x) (λ r s. (r ≡ returned tt) × Served k s)) e
          (Ensures-weaken (λ s h. h) (λ r s (done, service, j). (done, (service, j)))
            (create_service_if_missing-HasService P cluster J x keep))

    service_phase-Served :
        (wb : Workbench) (k : ObjectKey)
        → key_of wb.metadata ≡ k
        → Ensures J (service_phase P config wb) (λ _. Served k)
    unfolding service_phase init_service
    service_phase-Served wb k e =
        Ensures-bind _ _ _ (own-IsOwned P config J cluster.owns wb (init_service wb).metadata) (λ m.
          Ensures-fact (λ same.
            let x = record (init_service wb) { metadata = m } in
            Ensures-bind (λ r s. (r ≡ returned tt) × Served k s) _ _
              (create_service-Served k x (same ∙ e)) (after_service k x)))

    storage_phase-Served :
        (wb : Workbench) (k : ObjectKey)
        → Ensures (Served k) (storage_phase P config wb) (λ _. Served k)
    unfolding storage_phase ◌>>=◌
    storage_phase-Served wb k = record {
      at = λ w served.
          let (names, e) = process_enabled_storage-returned P config wb w in
          rw e (
            tt,
            refl,
            Steps-keeps (Served k)
                (λ q s a (service, j).
                  let (l, m) = storage_leaves q a in (service-kept k q s m service, keep q s l j))
                ((process_enabled_storage-Only P config wb).steps w) served,
          );
    }

    -- The parts below the deployment.
    rest-Served :
        (wb wb' : Workbench)
        → IsSameBench wb' wb
        → Ensures {A = Workbench × Service} J
            (do
              service ← service_phase P config wb'
              _ ← storage_phase P config wb'
              pure (wb', service))
            (λ (wb', _) s. IsSameBench wb' wb × Served (key_of wb.metadata) s)
    rest-Served wb wb' same =
        let k = key_of wb.metadata in
        Ensures-bind (λ _. Served k) _ _ (service_phase-Served wb' k same.0)
          (λ service.
            Ensures-bind (λ _. Served k) _ _ (storage_phase-Served wb' k)
              (λ _. Ensures-pure _ (λ s served. (same, served))))

  -- The deployment's part gives the second property from the first, and the rest keeps both.
  pub prepare-Served :
      (I J : P.State → Type 0)
      → ((q : Request) (s : P.State) → LeavesDeployments q → I s → I (P.answer q s).1)
      → ((q : Request) (s : P.State) → LeavesDeployments q → J s → J (P.answer q s).1)
      → (wb : Workbench)
      → ((wb' : Workbench)
          → IsSameBench wb' wb
          → Ensures I (server_phase P config wb') (λ wb'' s. IsSameBench wb'' wb × J s))
      → Ensures I
          (prepare P config wb)
          (λ (wb', _) s. IsSameBench wb' wb × (HasService P cluster (key_of wb.metadata) s × J s))
  unfolding prepare
  prepare-Served I J keep_I keep_J wb served =
      Ensures-bind _ _ _ (ensure_finalizer-Same I keep_I wb) (λ wb1. Ensures-fact (λ same1.
        Ensures-bind (λ wb2 s. IsSameBench wb2 wb × J s) _ _ (served wb1 same1)
          (λ wb2. Ensures-fact (λ same2. rest-Served J keep_J wb wb2 same2))))
