-- ===== src/Storage/Manager/Order.antt =====
-- The order in which processStorageProvider makes volumes and claims (storage.go).
use workbench_operator.Base.{String, [], ◌∷◌, ◌≡◌, refl, inl, inr, Any}
use workbench_operator.Config.{Config}
use workbench_operator.Kube.{PersistentVolume, PersistentVolumeClaim}
use workbench_operator.Workbench.{Workbench}
use workbench_operator.Storage.{
  BaseProvider, StorageType, s3, nfs, local, get_pv_name, base_pv, local_pv, create_pvc as pvc_of,
}
use workbench_operator.Platform.{
  Answer, ok, err, not_found, other, get_pv, create_pv, get_pvc, create_pvc, get_secret,
  get_csi_driver, create_job, record_event, Platform, World, Event,
}
use workbench_operator.Platform.Monad.{Result, returned, error}
use workbench_operator.Platform.Contract.{
  History, Contract, Contract-pure, Contract-call, Contract-bind, Contract-Total, Contract-weaken,
  Contract-fact_and,
}
use workbench_operator.Platform.Keeps.{
  Keeps, Keeps-Only, Keeps-Contract, Contract-Keeps, Keeps-gives,
}
use workbench_operator.Platform.Only.{Only}
use workbench_operator.Platform.Requests.{SetupRequest, LookupRequest, lookup_setup}
use workbench_operator.Storage.Manager.{
  key, build_pv_of, build_pv, ensure_pv, ensure_pvc, provision, process_enabled_storage,
}
use workbench_operator.Storage.Manager.Each.{lookup-Keeps, process_enabled_storage-Keeps}
use workbench_operator.Storage.Manager.Laws.{setup-Only, build_pv-Only}
use workbench_operator.Storage.Manager.Total.{s3_secret_config-Total, nfs_secret_config-Total}

-- The volume of that name was found, or created.
abbrev pub HasVolume : String → Event → Type 0
HasVolume name (get_pv n, ok _) = n ≡ name
HasVolume name (create_pv v, ok _) = v.metadata.name ≡ name
HasVolume name _ = ⊥

abbrev pub BackedEvent : Event → History → Type 0
BackedEvent (create_pvc c, _) h = Any (HasVolume c.volume_name) h
BackedEvent _ h = Unit

-- Before each creation of a claim the volume that it names was found or created.
abbrev pub IsBacked : History → Type 0
IsBacked [] = Unit
IsBacked (e ∷ h) = BackedEvent e h × IsBacked h

IsBacked-setup : (e : Event) (h : History) → SetupRequest e.0 → IsBacked h → IsBacked (e ∷ h)
IsBacked-setup (get_secret _, _) h q b = (tt, b)
IsBacked-setup (get_csi_driver _, _) h q b = (tt, b)
IsBacked-setup (create_job _, _) h q b = (tt, b)
IsBacked-setup (record_event _ _ _, _) h q b = (tt, b)
IsBacked-setup (_, _) h q b = absurd q

IsBacked-lookup : (e : Event) (h : History) → LookupRequest e.0 → IsBacked h → IsBacked (e ∷ h)
IsBacked-lookup e h q b = IsBacked-setup e h (lookup_setup e.0 q) b

-- The volume is there, where there was no error.
abbrev VolumeThere : {A : Type 0} → String → Result A → History → Type 0
VolumeThere name (returned _) h = Any (HasVolume name) h × IsBacked h
VolumeThere name (error _) h = IsBacked h

abbrev VolumeFound : String → Answer PersistentVolume → History → Type 0
VolumeFound name (ok _) h = Any (HasVolume name) h × IsBacked h
VolumeFound name (err _) h = IsBacked h

abbrev IsNamed : String → Result PersistentVolume → Type 0
IsNamed name (returned v) = v.metadata.name ≡ name
IsNamed name (error _) = Unit

module _ (P : Platform) (config : Config) where
  setup_step : {A : Type 0} (m : _) → Only SetupRequest {P = P} {A = A} m → Keeps IsBacked m
  setup_step m c = Keeps-Only IsBacked IsBacked-setup c

  build_pv_of-IsNamed :
      (t : StorageType) (b : BaseProvider) (wb : Workbench)
      → Contract
          (λ _. Unit {0})
          (build_pv_of P config t b wb)
          (λ r _. IsNamed (get_pv_name b wb.metadata.namespace) r)
          (λ _ _. Unit {0})
  unfolding build_pv_of base_pv local_pv
  build_pv_of-IsNamed s3 b wb =
      Contract-bind (λ _ _. Unit {0}) _ _
        (Contract-weaken (λ _ u. u) (λ _ _ u. u) (λ _ _ u. tt)
          (Contract-Total (s3_secret_config-Total P config b)))
        (elim [
          | returned _ ↦ Contract-pure _ (λ _ _. refl)
          | error _ ↦ Contract-pure _ (λ _ _. tt)
        ])
  build_pv_of-IsNamed nfs b wb =
      Contract-bind (λ _ _. Unit {0}) _ _
        (Contract-weaken (λ _ u. u) (λ _ _ u. u) (λ _ _ u. tt)
          (Contract-Total (nfs_secret_config-Total P config b)))
        (elim [
          | returned _ ↦ Contract-pure _ (λ _ _. refl)
          | error _ ↦ Contract-pure _ (λ _ _. tt)
        ])
  build_pv_of-IsNamed local b wb = Contract-pure _ (λ _ _. refl)

  build_pv-IsNamed :
      (b : BaseProvider) (wb : Workbench)
      → Contract
          (λ _. Unit {0})
          (build_pv P config b wb)
          (λ r _. IsNamed (get_pv_name b wb.metadata.namespace) r)
          (λ _ _. Unit {0})
  unfolding build_pv
  build_pv-IsNamed b wb = build_pv_of-IsNamed b.storage_type b wb

  pv_found :
      (name : String) (a : Answer PersistentVolume) (h : History)
      → IsBacked h
      → VolumeFound name a ((get_pv name, a) ∷ h)
  pv_found name (ok _) h b = (inl refl, (tt, b))
  pv_found name (err _) h b = (tt, b)

  pv_created :
      (v : PersistentVolume) (a : Answer PersistentVolume) (h : History)
      → IsBacked h
      → VolumeFound v.metadata.name a ((create_pv v, a) ∷ h)
  pv_created v (ok _) h b = (inl refl, (tt, b))
  pv_created v (err _) h b = (tt, b)

  ensure_pv-VolumeThere :
      (b : BaseProvider) (wb : Workbench) (v : PersistentVolume)
      → Contract IsBacked (ensure_pv P config b wb v) (VolumeThere v.metadata.name) (λ _. IsBacked)
  unfolding ensure_pv
  ensure_pv-VolumeThere b wb v =
      Contract-bind (VolumeFound v.metadata.name) _ _
        (Contract-call P (get_pv v.metadata.name) (pv_found v.metadata.name))
        (elim [
          | ok _ ↦ Contract-pure _ (λ _ k. k)
          | err not_found ↦
              Contract-bind (λ _. IsBacked) _ _
                (Contract-Keeps IsBacked (setup_step _ (setup-Only P config b wb)))
                (elim [
                  | returned _ ↦
                      Contract-bind (VolumeFound v.metadata.name) _ _
                        (Contract-call P (create_pv v) (pv_created v))
                        (elim [
                          | ok _ ↦ Contract-pure _ (λ _ k. k)
                          | err _ ↦ Contract-pure _ (λ _ k. k)
                        ])
                  | error _ ↦ Contract-pure _ (λ _ k. k)
                ])
          | err (other _) ↦ Contract-pure _ (λ _ k. k)
        ])

  ensure_pvc-IsBacked :
      (c : PersistentVolumeClaim)
      → Contract
          (λ h. Any (HasVolume c.volume_name) h × IsBacked h)
          (ensure_pvc P config c)
          (λ _. IsBacked)
          (λ _. IsBacked)
  unfolding ensure_pvc
  ensure_pvc-IsBacked c =
      Contract-bind (λ _ h. Any (HasVolume c.volume_name) h × IsBacked h) _ _
        (Contract-call P (get_pvc (key c.metadata.name c.metadata.namespace))
          (λ a h (v, b). (inr v, (tt, b))))
        (elim [
          | ok _ ↦ Contract-pure _ (λ h k. k.1)
          | err not_found ↦
              Contract-bind (λ _. IsBacked) _ _
                (Contract-call P (create_pvc c) (λ a h (v, b). (v, b)))
                (elim [ ok _ ↦ Contract-pure _ (λ h k. k) | err _ ↦ Contract-pure _ (λ h k. k) ])
          | err (other _) ↦ Contract-pure _ (λ h k. k.1)
        ])

  provision-IsBacked :
      (wb : Workbench) (b : BaseProvider) → Keeps IsBacked (provision P config wb b)
  unfolding provision pvc_of
  provision-IsBacked wb b = Keeps-Contract IsBacked (
      Contract-bind (λ r h. IsNamed (get_pv_name b wb.metadata.namespace) r × IsBacked h) _ _
        (Keeps-gives _
          (lookup-Keeps P config IsBacked IsBacked-lookup _ (build_pv-Only P config b wb))
          (build_pv-IsNamed b wb))
        (elim [
          | returned v ↦
              Contract-bind (VolumeThere (get_pv_name b wb.metadata.namespace)) _ _
                (Contract-fact_and (λ named. rw (← named) (ensure_pv-VolumeThere b wb v)))
                (elim [
                  | returned _ ↦
                      Contract-bind (λ _. IsBacked) _ _ (ensure_pvc-IsBacked (pvc_of b wb))
                        (elim [
                          | returned _ ↦ Contract-pure _ (λ h k. k)
                          | error _ ↦ Contract-pure _ (λ h k. k)
                        ])
                  | error _ ↦ Contract-pure _ (λ h k. k)
                ])
          | error _ ↦ Contract-pure _ (λ h k. k.1)
        ]))

-- Whatever the platform answers, a storage step that starts with an empty history tries to create a
-- claim only after it has found or created the very volume that the claim names.
pub process_enabled_storage-IsBacked :
    (P : Platform) (config : Config) (wb : Workbench) (w : World P)
    → w.history ≡ []
    → IsBacked (process_enabled_storage P config wb w).1.history
process_enabled_storage-IsBacked P config wb w e =
    (process_enabled_storage-Keeps P config IsBacked IsBacked-lookup wb
        (provision-IsBacked P config wb)).at
      w (rw e tt)
