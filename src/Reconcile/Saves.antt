-- ===== src/Reconcile/Saves.antt =====
-- The status update and the owner reference of Reconcile, on a cluster that accepts them
-- (workbench_controller.go).
use workbench_operator.Base.{Bool, true, false, ◌≡◌, refl}
use workbench_operator.Kube.{ObjectMeta}
use workbench_operator.Config.{Config}
use workbench_operator.Workbench.{Workbench}
use workbench_operator.Platform.{Answer, ok, update_workbench_status, Platform}
use workbench_operator.Platform.Monad.{api, failed, pure, stop, ◌>>=◌, on_answer}
use workbench_operator.Platform.Ensures.{Ensures, Ensures-pure}
use workbench_operator.Cluster.{key_of}
use workbench_operator.Cluster.Converge.{IsSameBench, IsOwnedBy}
use workbench_operator.Reconcile.{save_status, own}

-- The server accepts the status.
abbrev pub SavesStatus : Platform → Type 0
SavesStatus P =
    (wb : Workbench) (s : P.State)
    → (wb' : Workbench) × ((P.answer (update_workbench_status wb) s).0 ≡ ok wb')
      × IsSameBench wb' wb

abbrev pub Owns : Platform → Type 0
Owns P = (wb : Workbench) (m : ObjectMeta) → IsOwnedBy m (P.set_controller_reference wb m)

module _ (P : Platform) (config : Config) (J : P.State → Type 0) where
  pub save_status-Kept :
      SavesStatus P
      → ((wb : Workbench) (s : P.State) → J s → J (P.answer (update_workbench_status wb) s).1)
      → (updated : Bool) (wb : Workbench)
      → Ensures J (save_status P config updated wb) (λ wb' s. IsSameBench wb' wb × J s)
  unfolding save_status ◌>>=◌
  save_status-Kept saves keep false wb = Ensures-pure _ (λ s j. ((refl, refl), j))
  save_status-Kept saves keep true wb = record {
    at = λ w j.
        let (wb', saved, same) = saves wb w.state in
        rw saved (wb', refl, (same, keep wb w.state j));
  }

  owned_as :
      (m : ObjectMeta) (a : Answer ObjectMeta)
      → IsOwnedBy m a
      → Ensures {P = P} J
          (on_answer a pure (λ e. stop (failed (api e))))
          (λ m' s. (key_of m' ≡ key_of m) × J s)
  owned_as m a (m2, e, same) = rw e (Ensures-pure _ (λ s j. (same, j)))

  pub own-IsOwned :
      Owns P
      → (wb : Workbench) (m : ObjectMeta)
      → Ensures J (own P config wb m) (λ m' s. (key_of m' ≡ key_of m) × J s)
  unfolding own
  own-IsOwned owns wb m = owned_as m _ (owns wb m)
