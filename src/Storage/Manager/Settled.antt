-- ===== src/Storage/Manager/Settled.antt =====
-- processEnabledStorage where the volumes and the claims are there (storage.go).
use workbench_operator.Base.{◌∷◌}
use workbench_operator.Config.{Config}
use workbench_operator.Kube.{PersistentVolume, PersistentVolumeClaim}
use workbench_operator.Workbench.{Workbench}
use workbench_operator.Storage.{BaseProvider}
use workbench_operator.Platform.{
  ok, err, Request, get_pv, get_pvc, get_csi_driver, get_secret, record_event, Platform, Event,
}
use workbench_operator.Platform.Contract.{
  History, Contract, Contract-pure, Contract-bind, Contract-fact_and,
}
use workbench_operator.Platform.Keeps.{Keeps, Keeps-Contract, keeps_rules}
use workbench_operator.Platform.Requests.{LookupRequest}
use workbench_operator.Cluster.Settled.{AllRead, Target, SettledAnswer, settled_call}
use workbench_operator.Storage.Manager.{
  key, ensure_pv, ensure_pvc, provision, process_enabled_storage,
}
use workbench_operator.Storage.Manager.Each.{lookup-Keeps, process_enabled_storage-Keeps}
use workbench_operator.Storage.Manager.Laws.{build_pv-Only}

pub looked_up : (e : Event) (h : History) → LookupRequest e.0 → AllRead h → AllRead (e ∷ h)
looked_up (get_secret _, _) h a i = (tt, i)
looked_up (get_csi_driver _, _) h a i = (tt, i)
looked_up (record_event _ _ _, _) h a i = (tt, i)
looked_up (_, _) h a i = absurd a

module _ (P : Platform) (config : Config) (wb : Workbench) (t : Target)
    (settled : (q : Request) (s : P.State) → SettledAnswer wb t (q, (P.answer q s).0)) where
  ensure_pv-read :
      (b : BaseProvider) (pv : PersistentVolume)
      → Contract AllRead (ensure_pv P config b wb pv) (λ _. AllRead) (λ _. AllRead)
  unfolding ensure_pv
  ensure_pv-read b pv =
      Contract-bind _ _ _ (settled_call P wb t settled (get_pv pv.metadata.name) tt) (elim [
        | ok _ ↦ Contract-pure _ (λ h k. k.1)
        | err _ ↦ Contract-fact_and (λ missing. absurd missing)
      ])

  ensure_pvc-read :
      (c : PersistentVolumeClaim)
      → Contract AllRead (ensure_pvc P config c) (λ _. AllRead) (λ _. AllRead)
  unfolding ensure_pvc
  ensure_pvc-read c =
      Contract-bind _ _ _
        (settled_call P wb t settled (get_pvc (key c.metadata.name c.metadata.namespace)) tt)
        (elim [
          | ok _ ↦ Contract-pure _ (λ h k. k.1)
          | err _ ↦ Contract-fact_and (λ missing. absurd missing)
        ])

  provision-read : (b : BaseProvider) → Keeps AllRead (provision P config wb b)
  unfolding provision
  provision-read b =
      search
        (
          keeps_rules,
          lookup-Keeps P config AllRead looked_up _ (build_pv-Only P config _ _),
          Keeps-Contract AllRead (ensure_pv-read _ _),
          Keeps-Contract AllRead (ensure_pvc-read _),
        )
        depth 8

  pub process_enabled_storage-read : Keeps AllRead (process_enabled_storage P config wb)
  process_enabled_storage-read =
      process_enabled_storage-Keeps P config AllRead looked_up wb provision-read
