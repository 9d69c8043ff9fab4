-- ===== src/Platform/Total.antt =====
-- Computations that always end in a value: they never stop the reconciliation.
use workbench_operator.Base.{Bool, true, false, ◌≡◌, refl, if◌then◌else◌}
use workbench_operator.Platform.{
  Answer, ok, err, ApiError, not_found, other, Request, Platform, World,
}
use workbench_operator.Platform.Monad.{
  Outcome, value, stopped, M, call, pure, continue, ◌>>=◌, Result, returned, error, Error,
  on_answer, on_result, on_found,
}

pub record Total {P : Platform} {A : Type 0} (m : M P A) : Type 0 where
  pub at : (w : World P) → (a : A) × ((m w).0 ≡ value a)

module _ {P : Platform} where
  pub Total-pure : {A : Type 0} (a : A) → Total (pure {P = P} a)
  unfolding pure
  Total-pure a = record { at = λ w. (a, refl) }

  pub Total-call : (q : Request) → Total (call P q)
  unfolding call
  Total-call q = record { at = λ w. ((P.answer q w.state).0, refl) }

  continue-Total :
      {A B : Type 0} (f : A → M P B)
      → ((a : A) → Total (f a))
      → (o : Outcome A) (w : World P) → (a : A) × (o ≡ value a)
      → (b : B) × ((continue o f w).0 ≡ value b)
  continue-Total f k (value a) w _ = (k a).at w
  continue-Total f k (stopped v) w (a, e) = cc

  pub Total-bind :
      {A B : Type 0} {m : M P A} {f : A → M P B}
      → Total m
      → ((a : A) → Total (f a))
      → Total (m >>= f)
  unfolding ◌>>=◌
  Total-bind {m} {f} c k = record { at = λ w. continue-Total f k (m w).0 (m w).1 (c.at w) }

module _ {P : Platform} {A B : Type 0} where
  pub Total-on_answer :
      (r : Answer A) (f : A → M P B) (g : ApiError → M P B)
      → ((a : A) → Total (f a))
      → ((e : ApiError) → Total (g e))
      → Total (on_answer r f g)
  Total-on_answer (ok a) f g k l = k a
  Total-on_answer (err e) f g k l = l e

  pub Total-on_result :
      (r : Result A) (f : A → M P B) (g : Error → M P B)
      → ((a : A) → Total (f a))
      → ((e : Error) → Total (g e))
      → Total (on_result r f g)
  Total-on_result (returned a) f g k l = k a
  Total-on_result (error e) f g k l = l e

  pub Total-on_found :
      (r : Answer A) (f : A → M P B) (g : M P B) (h : ApiError → M P B)
      → ((a : A) → Total (f a))
      → Total g
      → ((e : ApiError) → Total (h e))
      → Total (on_found r f g h)
  Total-on_found (ok a) f g h k l m = k a
  Total-on_found (err not_found) f g h k l m = l
  Total-on_found (err (other e)) f g h k l m = m (other e)

module _ {P : Platform} {B : Type 0} where
  pub Total-if : (b : Bool) (m n : M P B) → Total m → Total n → Total (if b then m else n)
  Total-if true m n k l = k
  Total-if false m n k l = l

pub ruleset total_rules =
    (Total-pure, Total-call, Total-bind, Total-on_answer, Total-on_result, Total-on_found, Total-if)
