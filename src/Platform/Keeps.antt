-- ===== src/Platform/Keeps.antt =====
-- Predicates of the history that a computation keeps, however it ends.
use workbench_operator.Base.{Bool, ◌∷◌, if◌then◌else◌}
use workbench_operator.Platform.{Answer, ok, err, ApiError, Request, Platform, World, Event}
use workbench_operator.Platform.Monad.{
  Outcome, value, stopped, M, Verdict, Result, returned, error, Error, pure, stop, ◌>>=◌, on_answer,
  on_result,
}
use workbench_operator.Platform.Only.{Only, Extends-keeps}
use workbench_operator.Platform.Contract.{
  History, Contract, Ends, Contract-pure, Contract-stop, Contract-if, Contract-bind,
}

-- The predicate holds after the computation if it held before.
pub record Keeps {P : Platform} {A : Type 0} (I : History → Type 0) (m : M P A) : Type 0 where
  pub at : (w : World P) → I w.history → I (m w).1.history

Ends-keep :
    {A : Type 0} (I : History → Type 0) (o : Outcome A) (h : History)
    → I h
    → Ends (λ _. I) (λ _. I) o h
Ends-keep I (value a) h i = i
Ends-keep I (stopped v) h i = i

keep_ends :
    {A : Type 0} (I : History → Type 0) (o : Outcome A) (h : History)
    → Ends (λ _. I) (λ _. I) o h
    → I h
keep_ends I (value a) h i = i
keep_ends I (stopped v) h i = i

module _ {P : Platform} {A : Type 0} (I : History → Type 0) {m : M P A} where
  pub Keeps-Contract : Contract I m (λ _. I) (λ _. I) → Keeps I m
  Keeps-Contract c = record { at = λ w i. keep_ends I (m w).0 (m w).1.history (c.at w i) }

  pub Contract-Keeps : Keeps I m → Contract I m (λ _. I) (λ _. I)
  Contract-Keeps c = record { at = λ w i. Ends-keep I (m w).0 (m w).1.history (c.at w i) }

  -- What each allowed call keeps, a computation of such calls keeps.
  pub Keeps-Only :
      {Allowed : Request → Type 0}
      → ((e : Event) (h : History) → Allowed e.0 → I h → I (e ∷ h))
      → Only Allowed m
      → Keeps I m
  Keeps-Only keep c = record { at = λ w i. Extends-keeps I keep (c.at w) i }

both-Ends :
    {A : Type 0} (I : History → Type 0) (Fact : A → Type 0) (o : Outcome A) (h : History)
    → Ends (λ a _. Fact a) (λ _ _. Unit {0}) o h
    → I h
    → Ends (λ a k. Fact a × I k) (λ _. I) o h
both-Ends I Fact (value a) h f i = (f, i)
both-Ends I Fact (stopped v) h f i = i

module _ {P : Platform} {A : Type 0} {I : History → Type 0} where
  pub Keeps-pure : (a : A) → Keeps {P = P} I (pure a)
  Keeps-pure a = Keeps-Contract I (Contract-pure a (λ h i. i))

  pub Keeps-stop : (v : Verdict) → Keeps {P = P} {A = A} I (stop v)
  Keeps-stop v = Keeps-Contract I (Contract-stop v (λ h i. i))

  pub Keeps-if : (b : Bool) (m n : M P A) → Keeps I m → Keeps I n → Keeps I (if b then m else n)
  Keeps-if b m n k l =
      Keeps-Contract I (Contract-if b m n (λ _. Contract-Keeps I k) (λ _. Contract-Keeps I l))

  -- A fact about the value, and the predicate.
  pub Keeps-gives :
      {m : M P A} (Fact : A → Type 0)
      → Keeps I m
      → Contract (λ _. Unit {0}) m (λ a _. Fact a) (λ _ _. Unit {0})
      → Contract I m (λ a h. Fact a × I h) (λ _. I)
  Keeps-gives {m} Fact k g = record {
    at = λ w i. both-Ends I Fact (m w).0 (m w).1.history (g.at w tt) (k.at w i);
  }

module _ {P : Platform} {A B : Type 0} {I : History → Type 0} where
  pub Keeps-bind :
      {m : M P A} {f : A → M P B} → Keeps I m → ((a : A) → Keeps I (f a)) → Keeps I (m >>= f)
  Keeps-bind {m} {f} k l =
      Keeps-Contract I
        (Contract-bind (λ _. I) m f (Contract-Keeps I k) (λ a. Contract-Keeps I (l a)))

  pub Keeps-on_answer :
      (r : Answer A) (f : A → M P B) (g : ApiError → M P B)
      → ((a : A) → Keeps I (f a))
      → ((e : ApiError) → Keeps I (g e))
      → Keeps I (on_answer r f g)
  Keeps-on_answer (ok a) f g k l = k a
  Keeps-on_answer (err e) f g k l = l e

  pub Keeps-on_result :
      (r : Result A) (f : A → M P B) (g : Error → M P B)
      → ((a : A) → Keeps I (f a))
      → ((e : Error) → Keeps I (g e))
      → Keeps I (on_result r f g)
  Keeps-on_result (returned a) f g k l = k a
  Keeps-on_result (error e) f g k l = l e

pub ruleset keeps_rules =
    (Keeps-pure, Keeps-stop, Keeps-if, Keeps-bind, Keeps-on_answer, Keeps-on_result)
