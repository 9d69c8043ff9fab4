-- ===== src/Storage/Manager/Total.antt =====
-- How ProcessEnabledStorage ends (storage.go).
use workbench_operator.Base.{◌≡◌, refl, String, List, [], ◌∷◌}
use workbench_operator.Base.Dict.{Dict}
use workbench_operator.Config.{Config}
use workbench_operator.Workbench.{Workbench}
use workbench_operator.Kube.{PersistentVolume, PersistentVolumeClaim, Volume, VolumeMount}
use workbench_operator.Storage.{get_enabled_providers, BaseProvider, StorageType, s3, nfs, local}
use workbench_operator.Platform.{Platform, World}
use workbench_operator.Platform.Monad.{value, returned, ◌>>=◌}
use workbench_operator.Platform.Total.{Total, total_rules}
use workbench_operator.Storage.Manager.{
  get_provider_secret, s3_secret_config, nfs_secret_config, has_driver_of, has_driver,
  has_secret_of, has_secret, setup_of, setup, build_pv_of, build_pv, ensure_pv, ensure_pvc,
  provision, process_storage_provider, process_all, process_enabled_storage, collect_specs,
  get_volume_and_mount_specs,
}

module _ (P : Platform) (config : Config) where
  get_provider_secret-Total : (b : BaseProvider) → Total (get_provider_secret P config b)
  unfolding get_provider_secret
  get_provider_secret-Total b = search total_rules

  pub s3_secret_config-Total : (b : BaseProvider) → Total (s3_secret_config P config b)
  unfolding s3_secret_config
  s3_secret_config-Total b = search (total_rules, get_provider_secret-Total)

  pub nfs_secret_config-Total : (b : BaseProvider) → Total (nfs_secret_config P config b)
  unfolding nfs_secret_config
  nfs_secret_config-Total b = search (total_rules, get_provider_secret-Total)

  has_driver_of-Total : (t : StorageType) (b : BaseProvider) → Total (has_driver_of P config t b)
  unfolding has_driver_of
  has_driver_of-Total s3 b = search total_rules
  has_driver_of-Total nfs b = search total_rules
  has_driver_of-Total local b = search total_rules

  has_secret_of-Total : (t : StorageType) (b : BaseProvider) → Total (has_secret_of P config t b)
  unfolding has_secret_of
  has_secret_of-Total s3 b = search (total_rules, s3_secret_config-Total)
  has_secret_of-Total nfs b = search (total_rules, nfs_secret_config-Total)
  has_secret_of-Total local b = search total_rules

  pub has_driver-Total : (b : BaseProvider) → Total (has_driver P config b)
  unfolding has_driver
  has_driver-Total b = has_driver_of-Total b.storage_type b

  pub has_secret-Total : (b : BaseProvider) → Total (has_secret P config b)
  unfolding has_secret
  has_secret-Total b = has_secret_of-Total b.storage_type b

  setup_of-Total :
      (t : StorageType) (b : BaseProvider) (wb : Workbench) → Total (setup_of P config t b wb)
  unfolding setup_of
  setup_of-Total s3 b wb = search total_rules
  setup_of-Total nfs b wb = search (total_rules, nfs_secret_config-Total) depth 8
  setup_of-Total local b wb = search total_rules

  setup-Total : (b : BaseProvider) (wb : Workbench) → Total (setup P config b wb)
  unfolding setup
  setup-Total b wb = setup_of-Total b.storage_type b wb

  build_pv_of-Total :
      (t : StorageType) (b : BaseProvider) (wb : Workbench) → Total (build_pv_of P config t b wb)
  unfolding build_pv_of
  build_pv_of-Total s3 b wb = search (total_rules, s3_secret_config-Total)
  build_pv_of-Total nfs b wb = search (total_rules, nfs_secret_config-Total)
  build_pv_of-Total local b wb = search total_rules

  build_pv-Total : (b : BaseProvider) (wb : Workbench) → Total (build_pv P config b wb)
  unfolding build_pv
  build_pv-Total b wb = build_pv_of-Total b.storage_type b wb

  ensure_pv-Total :
      (b : BaseProvider) (wb : Workbench) (pv : PersistentVolume)
      → Total (ensure_pv P config b wb pv)
  unfolding ensure_pv
  ensure_pv-Total b wb pv = search (total_rules, setup-Total) depth 8

  ensure_pvc-Total : (pvc : PersistentVolumeClaim) → Total (ensure_pvc P config pvc)
  unfolding ensure_pvc
  ensure_pvc-Total pvc = search total_rules

  provision-Total : (wb : Workbench) (b : BaseProvider) → Total (provision P config wb b)
  unfolding provision
  provision-Total wb b =
      search (total_rules, build_pv-Total, ensure_pv-Total, ensure_pvc-Total) depth 8

  process_storage_provider-Total :
      (wb : Workbench) (b : BaseProvider) → Total (process_storage_provider P config wb b)
  unfolding process_storage_provider
  process_storage_provider-Total wb b =
      search (total_rules, has_driver-Total, has_secret-Total, provision-Total) depth 8

  process_all-Total :
      (wb : Workbench) (bs : List BaseProvider) (names : Dict String)
      → Total (process_all P config wb bs names)
  unfolding process_all
  process_all-Total wb [] names = search total_rules
  process_all-Total wb (b ∷ bs) names =
      search (total_rules, process_storage_provider-Total, process_all-Total wb bs)

  -- The storage step of a reconciliation always ends in a value, whatever the platform answers.
  process_enabled_storage-Total : (wb : Workbench) → Total (process_enabled_storage P config wb)
  unfolding process_enabled_storage
  process_enabled_storage-Total wb = search (total_rules, process_all-Total)

  -- The storage step gives the names of its claims, and no error.
  pub process_enabled_storage-returned :
      (wb : Workbench) (w : World P)
      → (names : Dict String) × ((process_enabled_storage P config wb w).0 ≡ value (returned names))
  unfolding process_enabled_storage ◌>>=◌
  process_enabled_storage-returned wb w =
      let (names, e) = (process_all-Total wb (get_enabled_providers config wb) []).at w in
      rw e (names, refl)

  collect_specs-Total :
      (wb : Workbench) (user namespace : String) (bs : List BaseProvider) (vs : List Volume)
      (ms : List VolumeMount)
      → Total (collect_specs P config wb user namespace bs vs ms)
  unfolding collect_specs
  collect_specs-Total wb user namespace [] vs ms = search total_rules
  collect_specs-Total wb user namespace (b ∷ bs) vs ms =
      search (total_rules, has_secret-Total, collect_specs-Total wb user namespace bs)

  get_volume_and_mount_specs-Total :
      (wb : Workbench) (user namespace : String)
      → Total (get_volume_and_mount_specs P config wb user namespace)
  unfolding get_volume_and_mount_specs
  get_volume_and_mount_specs-Total wb user namespace = search (total_rules, collect_specs-Total)
