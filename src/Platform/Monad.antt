-- ===== src/Platform/Monad.antt =====
-- The code of the reconciler as functions on the world. A computation gives a value, or stops the
-- whole reconciliation: with a result, with an error, or with a panic.
use workbench_operator.Base.{ℕ, String, Bool, true, false, ◌∷◌}
use workbench_operator.Kube.{Time}
use workbench_operator.Platform.{
  ApiError, not_found, other, Answer, ok, err, Request, Response, Platform, World,
}

pub data Error : Type 0 where
  api : ApiError → Error
  suspended_job : Error
  message : String → Error
  -- `fmt.Errorf("…: %w", err)`
  wrapped : String → Error → Error

-- What a Go function gives that returns a value and an error.
pub data Result {ℓ} (A : Type ℓ) : Type ℓ where
  returned : A → Result A
  error : Error → Result A

-- How a reconciliation ends: `ctrl.Result{}` or one with a `RequeueAfter`, in seconds, an error, or
-- a panic.
pub data Verdict : Type 0 where
  done : Verdict
  requeue_after : ℕ → Verdict
  failed : Error → Verdict
  panicked : Verdict

pub data Outcome {ℓ} (A : Type ℓ) : Type ℓ where
  value : A → Outcome A
  stopped : Verdict → Outcome A

abbrev pub M : Platform → Type 0 → Type 0
M P A = World P → Outcome A × World P

module _ (P : Platform) where
  unfoldable pub call : (q : Request) → M P (Answer (Response q))
  call q w =
      let (a, s) = P.answer q w.state in
      (value a, record { state = s; history = (q, a) ∷ w.history })

  -- `time.Now()`
  unfoldable pub read_clock : M P Time
  read_clock w = (value (P.clock w.state), w)

module _ {P : Platform} where
  unfoldable pub pure : {A : Type 0} → A → M P A
  pure a w = (value a, w)

  unfoldable pub stop : {A : Type 0} → Verdict → M P A
  stop v w = (stopped v, w)

  abbrev pub continue : {A B : Type 0} → Outcome A → (A → M P B) → M P B
  continue (value a) f w = f a w
  continue (stopped v) f w = (stopped v, w)

  infixl 5 ◌>>=◌ ◌>>◌
  -- opening this opens `pure`, `stop` and `call` too
  unfoldable pub ◌>>=◌ : {A B : Type 0} → M P A → (A → M P B) → M P B
  unfolding pure stop call read_clock
  ◌>>=◌ m f w = continue (m w).0 f (m w).1

  abbrev pub ◌>>◌ : {A B : Type 0} → M P A → M P B → M P B
  m >> n = m >>= λ _. n

  -- The two answers of a call, each with the code that follows.
  abbrev pub on_answer : {A B : Type 0} → Answer A → (A → M P B) → (ApiError → M P B) → M P B
  on_answer (ok a) f g = f a
  on_answer (err e) f g = g e

  abbrev pub on_result : {A B : Type 0} → Result A → (A → M P B) → (Error → M P B) → M P B
  on_result (returned a) f g = f a
  on_result (error e) f g = g e

module _ {P : Platform} where
  -- The three outcomes of a read that the code tells apart: found, not found, and any other error.
  abbrev pub on_found : {A B : Type 0} → Answer A → (A → M P B) → M P B → (ApiError → M P B) → M P B
  on_found (ok a) f g k = f a
  on_found (err not_found) f g k = g
  on_found (err (other e)) f g k = k (other e)

-- `errors.Is(err, ErrSuspendedJob)`
abbrev pub is_suspended_job : Error → Bool
is_suspended_job suspended_job = true
is_suspended_job (api _) = false
is_suspended_job (message _) = false
is_suspended_job (wrapped _ e) = is_suspended_job e
