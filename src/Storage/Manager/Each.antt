-- ===== src/Storage/Manager/Each.antt =====
-- What the storage manager keeps, from what it keeps for each provider.
use workbench_operator.Base.{List, [], ◌∷◌}
use workbench_operator.Base.Dict.{Dict}
use workbench_operator.Base.{String}
use workbench_operator.Config.{Config}
use workbench_operator.Workbench.{Workbench}
use workbench_operator.Storage.{BaseProvider}
use workbench_operator.Platform.{Request, Platform, Event}
use workbench_operator.Platform.Monad.{returned, call}
use workbench_operator.Platform.Contract.{History}
use workbench_operator.Platform.Keeps.{
  Keeps, Keeps-Only, Keeps-bind, Keeps-pure, Keeps-if, keeps_rules,
}
use workbench_operator.Platform.Only.{Only, Only-call}
use workbench_operator.Platform.Requests.{LookupRequest}
use workbench_operator.Storage.Manager.{
  provision, process_storage_provider, process_all, process_enabled_storage, driver_missing,
  secret_missing,
}
use workbench_operator.Storage.Manager.Laws.{has_driver-Only, has_secret-Only}

module _ (P : Platform) (config : Config) (I : History → Type 0)
    (kept : (e : Event) (h : History) → LookupRequest e.0 → I h → I (e ∷ h)) where
  pub lookup-Keeps : {A : Type 0} (m : _) → Only LookupRequest {P = P} {A = A} m → Keeps I m
  lookup-Keeps m c = Keeps-Only I kept c

  call-Keeps : (q : Request) → LookupRequest q → Keeps I (call P q)
  call-Keeps q a = lookup-Keeps (call P q) (Only-call P q a)

  module _ (wb : Workbench) (each : (b : BaseProvider) → Keeps I (provision P config wb b)) where
    process_storage_provider-Keeps :
        (b : BaseProvider) → Keeps I (process_storage_provider P config wb b)
    unfolding process_storage_provider
    process_storage_provider-Keeps b =
        Keeps-bind (lookup-Keeps _ (has_driver-Only P config b)) (λ driver.
          Keeps-if driver _ _
            (Keeps-bind (lookup-Keeps _ (has_secret-Only P config b)) (λ secret.
              Keeps-if secret _ _ (each b) (
                Keeps-bind (call-Keeps (secret_missing P config b) tt)
                  (λ _. Keeps-pure (returned "")))))
            (Keeps-bind (call-Keeps (driver_missing P config b) tt)
              (λ _. Keeps-pure (returned ""))))

    process_all-Keeps :
        (bs : List BaseProvider) (names : Dict String) → Keeps I (process_all P config wb bs names)
    unfolding process_all
    process_all-Keeps [] names = search keeps_rules
    process_all-Keeps (b ∷ bs) names =
        search (keeps_rules, process_storage_provider-Keeps, process_all-Keeps bs)

    pub process_enabled_storage-Keeps : Keeps I (process_enabled_storage P config wb)
    unfolding process_enabled_storage
    process_enabled_storage-Keeps = Keeps-bind (process_all-Keeps _ _) (λ _. Keeps-pure _)
