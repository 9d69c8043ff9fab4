-- ===== src/Reconcile/Guarded.antt =====
-- The finalizer and the creations of a first reconciliation (workbench_controller.go).
use workbench_operator.Base.{true, false, [], ◌∷◌, ◌≡◌, refl, inl, inr, Any}
use workbench_operator.Config.{Config}
use workbench_operator.Workbench.{Workbench}
use workbench_operator.Platform.{
  Answer, ok, err, Request, create_deployment, create_service, create_job, create_pv, create_pvc,
  update_workbench, Platform, World, Event,
}
use workbench_operator.Platform.Contract.{
  History, Contract, Contract-pure, Contract-stop, Contract-call, Contract-bind, Contract-weaken,
}
use workbench_operator.Platform.Only.{Only}
use workbench_operator.Platform.Keeps.{Keeps-Only, Keeps-Contract, Contract-Keeps}
use workbench_operator.Reconcile.{
  finalizer, with_metadata, save_workbench, ensure_finalizer, prepare, reconcile_live,
}
use workbench_operator.Reconcile.Calls.{server_phase-Only, service_phase-Only, storage_phase-Only}
use workbench_operator.Reconcile.Live.{apps_phase-Only}

-- The workbench was saved with this content.
abbrev pub SavedAs : Workbench → Event → Type 0
SavedAs wb (update_workbench wb', ok _) = wb' ≡ wb
SavedAs wb _ = ⊥

abbrev pub GuardedEvent : Workbench → Event → History → Type 0
GuardedEvent wb (create_deployment _, _) h = Any (SavedAs wb) h
GuardedEvent wb (create_service _, _) h = Any (SavedAs wb) h
GuardedEvent wb (create_job _, _) h = Any (SavedAs wb) h
GuardedEvent wb (create_pv _, _) h = Any (SavedAs wb) h
GuardedEvent wb (create_pvc _, _) h = Any (SavedAs wb) h
GuardedEvent wb _ h = Unit

-- Before each creation the workbench was saved with this content.
abbrev pub IsGuarded : Workbench → History → Type 0
IsGuarded wb [] = Unit
IsGuarded wb (e ∷ h) = GuardedEvent wb e h × IsGuarded wb h

abbrev Guard : Workbench → History → Type 0
Guard wb h = Any (SavedAs wb) h × IsGuarded wb h

GuardedEvent-of_saved :
    (wb : Workbench) (e : Event) (h : History) → Any (SavedAs wb) h → GuardedEvent wb e h
GuardedEvent-of_saved wb (create_deployment _, _) h s = s
GuardedEvent-of_saved wb (create_service _, _) h s = s
GuardedEvent-of_saved wb (create_job _, _) h s = s
GuardedEvent-of_saved wb (create_pv _, _) h s = s
GuardedEvent-of_saved wb (create_pvc _, _) h s = s
GuardedEvent-of_saved wb (_, _) h s = tt

Guard-cons : (wb : Workbench) (e : Event) (h : History) → Guard wb h → Guard wb (e ∷ h)
Guard-cons wb e h (s, g) = (inr s, (GuardedEvent-of_saved wb e h s, g))

module _ (P : Platform) (config : Config) (wb : Workbench) where
  -- The workbench with the finalizer.
  abbrev pub with_finalizer : Workbench
  with_finalizer = with_metadata wb (P.add_finalizer wb.metadata finalizer).0

  abbrev Saved : History → Type 0
  Saved = Guard with_finalizer

  keep :
      {A : Type 0} {Allowed : Request → Type 0} (m : _)
      → Only Allowed {P = P} {A = A} m
      → Contract Saved m (λ _. Saved) (λ _. IsGuarded with_finalizer)
  keep m c =
      Contract-weaken (λ h s. s) (λ a h s. s) (λ v h s. s.1)
        (Contract-Keeps Saved (Keeps-Only Saved (λ e h a s. Guard-cons with_finalizer e h s) c))

  abbrev AfterSave : Answer Workbench → History → Type 0
  AfterSave (ok _) h = Saved h
  AfterSave (err _) h = IsGuarded with_finalizer h

  after_save :
      (a : Answer Workbench) (h : History)
      → IsGuarded with_finalizer h
      → AfterSave a ((update_workbench with_finalizer, a) ∷ h)
  after_save (ok _) h g = (inl refl, (tt, g))
  after_save (err _) h g = (tt, g)

  module _ (missing : P.contains_finalizer wb.metadata finalizer ≡ false)
      (added : (P.add_finalizer wb.metadata finalizer).1 ≡ true) where
    ensure_finalizer-Saved :
        Contract
          (IsGuarded with_finalizer)
          (ensure_finalizer P config wb)
          (λ _. Saved)
          (λ _. IsGuarded with_finalizer)
    unfolding ensure_finalizer save_workbench
    ensure_finalizer-Saved =
        rw (missing, added)
          (Contract-bind AfterSave _ _
            (Contract-call P (update_workbench with_finalizer) after_save)
            (elim [ ok _ ↦ Contract-pure _ (λ h s. s) | err _ ↦ Contract-stop _ (λ h g. g) ]))

    reconcile_live-Guarded :
        Contract
          (IsGuarded with_finalizer)
          (reconcile_live P config wb)
          (λ _. IsGuarded with_finalizer)
          (λ _. IsGuarded with_finalizer)
    unfolding reconcile_live prepare
    reconcile_live-Guarded =
        Contract-bind (λ _. Saved) _ _
          (Contract-bind (λ _. Saved) _ _ ensure_finalizer-Saved
            (λ wb1.
              Contract-bind (λ _. Saved) _ _ (keep _ (server_phase-Only P config wb1))
                (λ wb2.
                  Contract-bind (λ _. Saved) _ _ (keep _ (service_phase-Only P config wb2))
                    (λ service.
                      Contract-bind (λ _. Saved) _ _ (keep _ (storage_phase-Only P config wb2))
                        (λ _. Contract-pure _ (λ h s. s))))))
          (λ (wb', service).
            Contract-weaken (λ h s. s) (λ a h s. s.1) (λ v h g. g)
              (keep _ (apps_phase-Only P config wb' service)))

-- Where a workbench lacks the finalizer and adding it changes the metadata, a reconciliation of it
-- that starts with an empty history tries to create a deployment, a service, a job, a volume or a
-- claim only after the workbench was saved with the finalizer added, whatever the platform answers.
pub reconcile_live-IsGuarded :
    (P : Platform) (config : Config) (wb : Workbench) (w : World P)
    → P.contains_finalizer wb.metadata finalizer ≡ false
    → (P.add_finalizer wb.metadata finalizer).1 ≡ true
    → w.history ≡ []
    → IsGuarded (with_finalizer P config wb) (reconcile_live P config wb w).1.history
reconcile_live-IsGuarded P config wb w missing added e =
    (Keeps-Contract (IsGuarded (with_finalizer P config wb))
        (reconcile_live-Guarded P config wb missing added)).at
      w (rw e tt)
