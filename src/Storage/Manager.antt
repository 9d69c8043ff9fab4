-- ===== src/Storage/Manager.antt =====
-- The parts of internal/controller/storage.go, storage_s3.go, storage_nfs.go and storage_local.go
-- that talk to the cluster. The reconciler has a recorder, as cmd/main.go sets one, so the test of
-- the recorder for nil passes.
pub mod Laws
pub mod Order
pub mod Total
pub mod Specs
pub mod Picked
pub mod Each
pub mod Settled
use workbench_operator.Base.{
  String, ◌<>◌, Bool, true, false, none, some, List, [], ◌∷◌, ◌++◌, string_eq, ◌==◌, if◌then◌else◌,
}
use workbench_operator.Base.Dict.{Dict, lookup, insert}
use workbench_operator.Kube.{
  ObjectKey, Secret, Volume, VolumeMount, PersistentVolume, PersistentVolumeClaim,
}
use workbench_operator.Config.{Config}
use workbench_operator.Workbench.{Workbench}
use workbench_operator.Storage.{
  StorageType, s3, nfs, local, type_name, BaseProvider, get_volume_name, get_pvc_name,
  get_volume_spec, get_volume_mount_specs, base_pv, local_pv, create_pvc, nfs_mkdir_job,
  local_mkdir_job, get_enabled_providers,
}
use workbench_operator.Platform.{
  not_found, other, Answer, ok, err, Request, get_secret, get_csi_driver, create_job, record_event,
  get_pv, create_pv, get_pvc, create_pvc as create_pvc_request, Platform,
}
use workbench_operator.Platform.Monad.{
  api, message, wrapped, Result, returned, error, M, call, pure, ◌>>=◌, ◌>>◌, on_answer, on_result,
  on_found,
}

abbrev pub key : String → String → ObjectKey
key name namespace = record { name = name; namespace = namespace }

abbrev is_ok : {A : Type 0} → Answer A → Bool
is_ok (ok _) = true
is_ok (err _) = false

abbrev is_returned : {A : Type 0} → Result A → Bool
is_returned (returned _) = true
is_returned (error _) = false

-- `string(secret.Data[field])`
abbrev field : String → Secret → String
field name secret = elim (lookup name secret) [ none ↦ "" | some v ↦ v ]

-- The checks of the two `getSecretConfig` on the secret's fields.
unfoldable pub s3_config : Secret → Result String
unfolding lookup
s3_config secret =
    if field "name" secret == ""
    then error (message "JuiceFS secret missing required 'name' field")
    else returned (field "name" secret)

unfoldable pub nfs_config : Secret → Result (String × String)
unfolding lookup
nfs_config secret =
    if field "server" secret == ""
    then error (message "NFS secret missing required 'server' field")
    else if field "share" secret == ""
    then error (message "NFS secret missing required 'share' field")
    else returned (field "server" secret, field "share" secret)

module _ (P : Platform) (config : Config) where
  unfoldable pub get_provider_secret : BaseProvider → M P (Result Secret)
  get_provider_secret b = do
    found ← call P (get_secret (key b.secret_name b.secret_namespace))
    on_answer found (λ s. pure (returned s))
        λ e.
          pure (error (wrapped ("failed to get " <> type_name b.storage_type <> " secret") (api e)))

  unfoldable pub s3_secret_config : BaseProvider → M P (Result String)
  unfolding s3_config
  s3_secret_config b = do
    found ← get_provider_secret b
    on_result found (λ s. pure (s3_config s)) (λ e. pure (error e))

  unfoldable pub nfs_secret_config : BaseProvider → M P (Result (String × String))
  unfolding nfs_config
  nfs_secret_config b = do
    found ← get_provider_secret b
    on_result found (λ s. pure (nfs_config s)) (λ e. pure (error e))

  abbrev csi_driver_found : BaseProvider → M P Bool
  csi_driver_found b = do found ← call P (get_csi_driver b.driver_name); pure (is_ok found)

  has_driver_of : StorageType → BaseProvider → M P Bool
  has_driver_of s3 b = csi_driver_found b
  has_driver_of nfs b = csi_driver_found b
  has_driver_of local b = pure config.local_storage_enabled

  unfoldable pub has_driver : BaseProvider → M P Bool
  unfolding has_driver_of
  has_driver b = has_driver_of b.storage_type b

  has_secret_of : StorageType → BaseProvider → M P Bool
  has_secret_of s3 b = do found ← s3_secret_config b; pure (is_returned found)
  has_secret_of nfs b = do found ← nfs_secret_config b; pure (is_returned found)
  has_secret_of local b = pure config.local_storage_enabled

  unfoldable pub has_secret : BaseProvider → M P Bool
  unfolding has_secret_of
  has_secret b = has_secret_of b.storage_type b

  abbrev created : {A : Type 0} → Answer A → M P (Result (Unit {0}))
  created made = on_answer made (λ _. pure (returned tt)) (λ e. pure (error (api e)))

  setup_of : StorageType → BaseProvider → Workbench → M P (Result (Unit {0}))
  setup_of s3 b wb = pure (returned tt)
  setup_of nfs b wb = do
    found ← nfs_secret_config b
    on_result found
        (λ (server, share). do
          made ← call P (create_job (nfs_mkdir_job server share wb))
          created made)
        (λ e. pure (error e))
  setup_of local b wb = do made ← call P (create_job (local_mkdir_job config wb)); created made

  unfoldable pub setup : BaseProvider → Workbench → M P (Result (Unit {0}))
  unfolding setup_of
  setup b wb = setup_of b.storage_type b wb

  build_pv_of : StorageType → BaseProvider → Workbench → M P (Result PersistentVolume)
  build_pv_of s3 b wb = do
    found ← s3_secret_config b
    on_result found
        (λ name. pure (
          returned (
            base_pv b wb.metadata.namespace (("name", name) ∷ ("path", "/") ∷ [])
              (some (record { name = b.secret_name; namespace = b.secret_namespace })))))
        (λ e. pure (error e))
  build_pv_of nfs b wb = do
    found ← nfs_secret_config b
    on_result found
        (λ (server, share). pure (
          returned
            (base_pv b wb.metadata.namespace (("server", server) ∷ ("share", share) ∷ []) none)))
        (λ e. pure (error e))
  build_pv_of local b wb = pure (returned (local_pv config b wb.metadata.namespace))

  -- `CreatePV` of the three providers.
  unfoldable pub build_pv : BaseProvider → Workbench → M P (Result PersistentVolume)
  unfolding build_pv_of
  build_pv b wb = build_pv_of b.storage_type b wb

  -- "Check if PV already exists", with the setup and the creation if it does not.
  unfoldable pub ensure_pv : BaseProvider → Workbench → PersistentVolume → M P (Result (Unit {0}))
  ensure_pv b wb pv = do
    found ← call P (get_pv pv.metadata.name)
    on_found found (λ _. pure (returned tt))
        (do
          ready ← setup b wb
          on_result ready (λ _. do made ← call P (create_pv pv); created made)
              (λ e. pure (error e)))
        (λ e. pure (error (api e)))

  -- "Create PVC if it doesn't exist"
  unfoldable pub ensure_pvc : PersistentVolumeClaim → M P (Result (Unit {0}))
  ensure_pvc pvc = do
    found ← call P (get_pvc (key pvc.metadata.name pvc.metadata.namespace))
    on_found found (λ _. pure (returned tt))
        (do made ← call P (create_pvc_request pvc); created made) (λ e. pure (error (api e)))

  abbrev driver_missing : BaseProvider → Request
  driver_missing b =
      let t = type_name b.storage_type in
      record_event "Warning" (t <> "DriverMissing") (
        "Storage driver '" <> b.driver_name <> "' not found - skipping " <> t
        <> " storage mount. Workbench will work without this storage. "
        <> "Please install the CSI driver if you need " <> t <> " storage.")

  abbrev secret_missing : BaseProvider → Request
  secret_missing b =
      let t = type_name b.storage_type in
      record_event "Warning" (t <> "SecretMissing") (
        t <> " driver '" <> b.driver_name <> "' is present but secret '" <> b.secret_name
        <> "' not found in namespace '" <> b.secret_namespace <> "'. Skipping " <> t
        <> " storage mount. Workbench will work without this storage. "
        <> "Please create the secret if you need " <> t <> " storage.")

  -- The part of `processStorageProvider` that runs where both the driver and the secret are there.
  unfoldable pub provision : Workbench → BaseProvider → M P (Result String)
  provision wb b = do
    built ← build_pv b wb
    on_result built
        (λ pv. do
          volume ← ensure_pv b wb pv
          on_result volume
              (λ _. do
                claim ← ensure_pvc (create_pvc b wb)
                on_result claim (λ _. pure (returned (get_pvc_name b wb.metadata.namespace)))
                    (λ e. pure (error e)))
              (λ e. pure (error e)))
        (λ e. pure (error e))

  unfoldable pub process_storage_provider : Workbench → BaseProvider → M P (Result String)
  process_storage_provider wb b = do
    driver ← has_driver b
    if driver
        then (do
          secret ← has_secret b
          if secret then provision wb b else (do _ ← call P (secret_missing b); pure (returned "")))
        else (do _ ← call P (driver_missing b); pure (returned ""))

  -- An error is logged and the loop goes on.
  process_all : Workbench → List BaseProvider → Dict String → M P (Dict String)
  process_all wb [] names = pure names
  process_all wb (b ∷ bs) names = do
    result ← process_storage_provider wb b
    on_result result
        (λ name.
          process_all wb bs
            (if name == "" then names else insert (type_name b.storage_type) name names))
        (λ _. process_all wb bs names)

  unfoldable pub process_enabled_storage : Workbench → M P (Result (Dict String))
  unfolding process_all
  process_enabled_storage wb = do
    names ← process_all wb (get_enabled_providers config wb) []
    pure (returned names)

  collect_specs :
      Workbench
      → String
      → String
      → List BaseProvider
      → List Volume
      → List VolumeMount
      → M P (List Volume × List VolumeMount)
  collect_specs wb user namespace [] volumes mounts = pure (volumes, mounts)
  collect_specs wb user namespace (b ∷ bs) volumes mounts = do
    secret ← has_secret b
    collect_specs wb user namespace bs
        (volumes
          ++ (if secret then get_volume_spec b (get_pvc_name b wb.metadata.namespace) ∷ [] else []))
        (mounts ++ (if secret then get_volume_mount_specs b user namespace else []))

  unfoldable pub get_volume_and_mount_specs :
      Workbench → String → String → M P (Result (List Volume × List VolumeMount))
  unfolding collect_specs
  get_volume_and_mount_specs wb user namespace = do
    specs ← collect_specs wb user namespace (get_enabled_providers config wb) [] []
    pure (returned specs)
