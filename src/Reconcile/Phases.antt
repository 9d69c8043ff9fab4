-- ===== src/Reconcile/Phases.antt =====
-- The two ways of a reconciliation: a workbench that is being deleted, and one that lives.
use workbench_operator.Base.{String, some, ◌∷◌, ◌≡◌, refl, ◌⊎◌, inl, inr}
use workbench_operator.Base.Dict.{Dict}
use workbench_operator.Storage.Manager.{process_enabled_storage}
use workbench_operator.Storage.Manager.Total.{process_enabled_storage-returned}
use workbench_operator.Config.{Config}
use workbench_operator.Kube.{ObjectKey, Time}
use workbench_operator.Workbench.{Workbench}
use workbench_operator.Platform.{Answer, ok, Request, get_workbench, Platform, World}
use workbench_operator.Platform.Monad.{returned, value, ◌>>=◌, stop, on_answer}
use workbench_operator.Platform.Only.{Extends, same, more, Extends-map, Extends-trans}
use workbench_operator.Platform.Requests.{TeardownRequest}
use workbench_operator.Reconcile.{
  ignore_not_found, by_deletion, reconcile_found, reconcile, storage_phase,
}
use workbench_operator.Reconcile.Calls.{reconcile_deleted-Only}

-- The read of the workbench, or a call of the teardown.
abbrev pub DeletedRequest : ObjectKey → Request → Type 0
DeletedRequest key q = (q ≡ get_workbench key) ⊎ TeardownRequest q

module _ (P : Platform) (config : Config) (wb : Workbench) (t : Time)
    (deleting : wb.metadata.deletion_timestamp ≡ some t) where
  found_teardown :
      (w : World P) → Extends TeardownRequest w.history (reconcile_found P config wb w).1.history
  unfolding reconcile_found
  found_teardown w = rw (deleting, by_deletion) ((reconcile_deleted-Only P config wb).at w)

  answered_teardown :
      (a : Answer Workbench) (w : World P)
      → a ≡ ok wb
      → Extends TeardownRequest w.history
          (on_answer a (reconcile_found P config) (λ e. stop (ignore_not_found e)) w).1.history
  answered_teardown a w e = rw e (found_teardown w)

-- Where the workbench that is read is being deleted, the reconciliation reads it and makes only calls
-- of the teardown, whatever the platform answers: nothing is created, no job and no deployment is
-- updated, and no single job is deleted.
pub reconcile-teardown :
    (P : Platform) (config : Config) (key : ObjectKey) (w : World P) (wb : Workbench) (t : Time)
    → (P.answer (get_workbench key) w.state).0 ≡ ok wb
    → wb.metadata.deletion_timestamp ≡ some t
    → Extends (DeletedRequest key) w.history (reconcile P config key w).1.history
unfolding reconcile ◌>>=◌
reconcile-teardown P config key w wb t e d =
    let (a, s) = P.answer (get_workbench key) w.state in
    Extends-trans (more (get_workbench key, a) (inl refl) same) (
      Extends-map (λ q r. inr r)
        (answered_teardown P config wb t d a
          (record { state = s; history = (get_workbench key, a) ∷ w.history }) e))

-- Whatever the platform answers, the storage step gives a map of names and no error, and the phase of
-- the storage ends in a value, so no failure of a driver, a secret or a create ends the reconciliation.
pub storage_phase_lem :
    (P : Platform) (config : Config) (wb : Workbench) (w : World P)
    → ((names : Dict String) × ((process_enabled_storage P config wb w).0 ≡ value (returned names)))
      × ((storage_phase P config wb w).0 ≡ value tt)
unfolding storage_phase ◌>>=◌
storage_phase_lem P config wb w =
    let (names, e) = process_enabled_storage-returned P config wb w in ((names, e), rw e refl)
