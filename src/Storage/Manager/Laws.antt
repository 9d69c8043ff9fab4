-- ===== src/Storage/Manager/Laws.antt =====
-- What the storage manager asks of the cluster.
use workbench_operator.Base.{String, List, [], ◌∷◌}
use workbench_operator.Base.Dict.{Dict}
use workbench_operator.Config.{Config}
use workbench_operator.Workbench.{Workbench}
use workbench_operator.Kube.{PersistentVolume, PersistentVolumeClaim, Volume, VolumeMount}
use workbench_operator.Storage.{
  nfs_mkdir_job, local_mkdir_job, BaseProvider, StorageType, s3, nfs, local,
}
use workbench_operator.Platform.{Platform}
use workbench_operator.Platform.Requests.{
  StorageRequest, SetupRequest, LookupRequest, setup_storage, lookup_setup, lookup_storage,
}
use workbench_operator.Platform.Only.{Only, Only-map, only_rules}
use workbench_operator.Storage.Manager.{
  get_provider_secret, s3_secret_config, nfs_secret_config, has_driver_of, has_driver,
  has_secret_of, has_secret, setup_of, setup, build_pv_of, build_pv, ensure_pv, ensure_pvc,
  provision, process_storage_provider, process_all, process_enabled_storage, collect_specs,
  get_volume_and_mount_specs,
}

module _ (P : Platform) (config : Config) where
  get_provider_secret-Only :
      (b : BaseProvider) → Only LookupRequest (get_provider_secret P config b)
  unfolding get_provider_secret
  get_provider_secret-Only b = search (only_rules, tt)

  s3_secret_config-Only : (b : BaseProvider) → Only LookupRequest (s3_secret_config P config b)
  unfolding s3_secret_config
  s3_secret_config-Only b = search (only_rules, get_provider_secret-Only)

  nfs_secret_config-Only : (b : BaseProvider) → Only LookupRequest (nfs_secret_config P config b)
  unfolding nfs_secret_config
  nfs_secret_config-Only b = search (only_rules, get_provider_secret-Only)

  has_driver_of-Only :
      (t : StorageType) (b : BaseProvider) → Only LookupRequest (has_driver_of P config t b)
  unfolding has_driver_of
  has_driver_of-Only s3 b = search (only_rules, tt)
  has_driver_of-Only nfs b = search (only_rules, tt)
  has_driver_of-Only local b = search only_rules

  has_secret_of-Only :
      (t : StorageType) (b : BaseProvider) → Only LookupRequest (has_secret_of P config t b)
  unfolding has_secret_of
  has_secret_of-Only s3 b = search (only_rules, s3_secret_config-Only)
  has_secret_of-Only nfs b = search (only_rules, nfs_secret_config-Only)
  has_secret_of-Only local b = search only_rules

  pub has_driver-Only : (b : BaseProvider) → Only LookupRequest (has_driver P config b)
  unfolding has_driver
  has_driver-Only b = has_driver_of-Only b.storage_type b

  pub has_secret-Only : (b : BaseProvider) → Only LookupRequest (has_secret P config b)
  unfolding has_secret
  has_secret-Only b = has_secret_of-Only b.storage_type b

  setup_of-Only :
      (t : StorageType) (b : BaseProvider) (wb : Workbench)
      → Only SetupRequest (setup_of P config t b wb)
  unfolding setup_of nfs_mkdir_job local_mkdir_job
  setup_of-Only s3 b wb = search only_rules
  setup_of-Only nfs b wb =
      search (only_rules, Only-map lookup_setup (nfs_secret_config-Only _)) depth 8
  setup_of-Only local b wb = search only_rules

  pub setup-Only : (b : BaseProvider) (wb : Workbench) → Only SetupRequest (setup P config b wb)
  unfolding setup
  setup-Only b wb = setup_of-Only b.storage_type b wb

  build_pv_of-Only :
      (t : StorageType) (b : BaseProvider) (wb : Workbench)
      → Only LookupRequest (build_pv_of P config t b wb)
  unfolding build_pv_of
  build_pv_of-Only s3 b wb = search (only_rules, s3_secret_config-Only)
  build_pv_of-Only nfs b wb = search (only_rules, nfs_secret_config-Only)
  build_pv_of-Only local b wb = search only_rules

  pub build_pv-Only :
      (b : BaseProvider) (wb : Workbench) → Only LookupRequest (build_pv P config b wb)
  unfolding build_pv
  build_pv-Only b wb = build_pv_of-Only b.storage_type b wb

  ensure_pv-Only :
      (b : BaseProvider) (wb : Workbench) (pv : PersistentVolume)
      → Only StorageRequest (ensure_pv P config b wb pv)
  unfolding ensure_pv
  ensure_pv-Only b wb pv = search (only_rules, tt, Only-map setup_storage (setup-Only _ _)) depth 8

  ensure_pvc-Only : (pvc : PersistentVolumeClaim) → Only StorageRequest (ensure_pvc P config pvc)
  unfolding ensure_pvc
  ensure_pvc-Only pvc = search (only_rules, tt)

  provision-Only :
      (wb : Workbench) (b : BaseProvider) → Only StorageRequest (provision P config wb b)
  unfolding provision
  provision-Only wb b =
      search
        (only_rules, Only-map lookup_storage (build_pv-Only _ _), ensure_pv-Only, ensure_pvc-Only)
        depth 8

  process_storage_provider-Only :
      (wb : Workbench) (b : BaseProvider)
      → Only StorageRequest (process_storage_provider P config wb b)
  unfolding process_storage_provider
  process_storage_provider-Only wb b =
      search
        (
          only_rules,
          tt,
          Only-map lookup_storage (has_driver-Only _),
          Only-map lookup_storage (has_secret-Only _),
          provision-Only,
        )
        depth 8

  process_all-Only :
      (wb : Workbench) (bs : List BaseProvider) (names : Dict String)
      → Only StorageRequest (process_all P config wb bs names)
  unfolding process_all
  process_all-Only wb [] names = search only_rules
  process_all-Only wb (b ∷ bs) names =
      search (only_rules, process_storage_provider-Only, process_all-Only wb bs)

  -- The storage step of a reconciliation makes only calls of the kinds that StorageRequest lists,
  -- whatever the platform answers.
  pub process_enabled_storage-Only :
      (wb : Workbench) → Only StorageRequest (process_enabled_storage P config wb)
  unfolding process_enabled_storage
  process_enabled_storage-Only wb = search (only_rules, process_all-Only)

  collect_specs-Only :
      (wb : Workbench) (user namespace : String) (bs : List BaseProvider) (vs : List Volume)
      (ms : List VolumeMount)
      → Only LookupRequest (collect_specs P config wb user namespace bs vs ms)
  unfolding collect_specs
  collect_specs-Only wb user namespace [] vs ms = search only_rules
  collect_specs-Only wb user namespace (b ∷ bs) vs ms =
      search (only_rules, has_secret-Only, collect_specs-Only wb user namespace bs)

  pub get_volume_and_mount_specs-Only :
      (wb : Workbench) (user namespace : String)
      → Only LookupRequest (get_volume_and_mount_specs P config wb user namespace)
  unfolding get_volume_and_mount_specs
  get_volume_and_mount_specs-Only wb user namespace = search (only_rules, collect_specs-Only)
