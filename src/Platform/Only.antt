-- ===== src/Platform/Only.antt =====
-- Which calls a computation makes. `Only Allowed m` holds if every call of `m` is of an allowed
-- request, whatever the platform answers.
use mathlib.Core.Path.{subst, sym}
use workbench_operator.Base.{◌∷◌, ◌≡◌, refl, Bool, true, false, if◌then◌else◌}
use workbench_operator.Platform.{
  Answer, ok, err, ApiError, not_found, other, Request, Platform, World, Event,
}
use workbench_operator.Platform.Monad.{
  Verdict, Outcome, value, stopped, M, call, read_clock, pure, stop, continue, ◌>>=◌, Result,
  returned, error, Error, on_answer, on_result, on_found,
}
use workbench_operator.Platform.Contract.{History}

module _ (Allowed : Request → Type 0) where
  -- The second history is the first with allowed calls on top.
  pub data Extends (h : History) : History → Type 0 where
    same : Extends h h
    more : {h' : History} (e : Event) → Allowed e.0 → Extends h h' → Extends h (e ∷ h')

  -- The second state is reached from the first by allowed calls.
  pub data Steps (P : Platform) (s : P.State) : P.State → Type 0 where
    still : Steps P s s
    step :
        {t u : P.State} (q : Request) → Allowed q → u ≡ (P.answer q t).1 → Steps P s t → Steps P s u

  pub record Only {P : Platform} {A : Type 0} (m : M P A) : Type 0 where
    pub at : (w : World P) → Extends w.history (m w).1.history
    pub steps : (w : World P) → Steps P w.state (m w).1.state

module _ {Allowed : Request → Type 0} where
  pub Extends-trans :
      {h h' h'' : History} → Extends Allowed h h' → Extends Allowed h' h'' → Extends Allowed h h''
  Extends-trans x same = x
  Extends-trans x (more e a y) = more e a (Extends-trans x y)

  Steps-trans :
      {P : Platform} {s t u : P.State}
      → Steps Allowed P s t
      → Steps Allowed P t u
      → Steps Allowed P s u
  Steps-trans x still = x
  Steps-trans x (step q a e y) = step q a e (Steps-trans x y)

  pub Only-pure : {P : Platform} {A : Type 0} (a : A) → Only Allowed (pure {P = P} a)
  unfolding pure
  Only-pure a = record { at = λ w. same; steps = λ w. still }

  pub Only-stop : {P : Platform} {A : Type 0} (v : Verdict) → Only Allowed (stop {P = P} {A = A} v)
  unfolding stop
  Only-stop v = record { at = λ w. same; steps = λ w. still }

  pub Only-clock : (P : Platform) → Only Allowed (read_clock P)
  unfolding read_clock
  Only-clock P = record { at = λ w. same; steps = λ w. still }

  pub Only-call : (P : Platform) (q : Request) → Allowed q → Only Allowed (call P q)
  unfolding call
  Only-call P q a = record {
    at = λ w. more (q, (P.answer q w.state).0) a same;
    steps = λ w. step q a refl still;
  }

  continue-Only :
      {P : Platform} {A B : Type 0} (f : A → M P B)
      → ((a : A) → Only Allowed (f a))
      → (o : Outcome A) (w : World P) → Extends Allowed w.history (continue o f w).1.history
  continue-Only f k (value a) w = (k a).at w
  continue-Only f k (stopped v) w = same

  continue-Steps :
      {P : Platform} {A B : Type 0} (f : A → M P B)
      → ((a : A) → Only Allowed (f a))
      → (o : Outcome A) (w : World P) → Steps Allowed P w.state (continue o f w).1.state
  continue-Steps f k (value a) w = (k a).steps w
  continue-Steps f k (stopped v) w = still

  pub Only-bind :
      {P : Platform} {A B : Type 0} {m : M P A} {f : A → M P B}
      → Only Allowed m
      → ((a : A) → Only Allowed (f a))
      → Only Allowed (m >>= f)
  unfolding ◌>>=◌
  Only-bind {m} {f} c k = record {
    at = λ w. Extends-trans (c.at w) (continue-Only f k (m w).0 (m w).1);
    steps = λ w. Steps-trans (c.steps w) (continue-Steps f k (m w).0 (m w).1);
  }

-- What each allowed call keeps, the computation keeps.
pub Extends-keeps :
    {Allowed : Request → Type 0} {h h' : History} (I : History → Type 0)
    → ((e : Event) (k : History) → Allowed e.0 → I k → I (e ∷ k))
    → Extends Allowed h h'
    → I h
    → I h'
Extends-keeps I f same i = i
Extends-keeps I f (more {h' = k} e a x) i = f e k a (Extends-keeps I f x i)

pub Steps-keeps :
    {P : Platform} {Allowed : Request → Type 0} {s t : P.State} (I : P.State → Type 0)
    → ((q : Request) (s : P.State) → Allowed q → I s → I (P.answer q s).1)
    → Steps Allowed P s t
    → I s
    → I t
Steps-keeps I f still i = i
Steps-keeps I f (step {t = t} q a e x) i = subst I (sym e) (f q t a (Steps-keeps I f x i))

module _ {Allowed Allowed' : Request → Type 0} (f : (q : Request) → Allowed q → Allowed' q) where
  pub Extends-map : {h h' : History} → Extends Allowed h h' → Extends Allowed' h h'
  Extends-map same = same
  Extends-map (more e a x) = more e (f e.0 a) (Extends-map x)

  Steps-map : {P : Platform} {s t : P.State} → Steps Allowed P s t → Steps Allowed' P s t
  Steps-map still = still
  Steps-map (step q a e x) = step q (f q a) e (Steps-map x)

  pub Only-map : {P : Platform} {A : Type 0} {m : M P A} → Only Allowed m → Only Allowed' m
  Only-map c = record { at = λ w. Extends-map (c.at w); steps = λ w. Steps-map (c.steps w) }

-- The rules for the branches of a computation.
module _ {Allowed : Request → Type 0} {P : Platform} {A B : Type 0} where
  pub Only-on_answer :
      (r : Answer A) (f : A → M P B) (g : ApiError → M P B)
      → ((a : A) → Only Allowed (f a))
      → ((e : ApiError) → Only Allowed (g e))
      → Only Allowed (on_answer r f g)
  Only-on_answer (ok a) f g k l = k a
  Only-on_answer (err e) f g k l = l e

  pub Only-on_result :
      (r : Result A) (f : A → M P B) (g : Error → M P B)
      → ((a : A) → Only Allowed (f a))
      → ((e : Error) → Only Allowed (g e))
      → Only Allowed (on_result r f g)
  Only-on_result (returned a) f g k l = k a
  Only-on_result (error e) f g k l = l e

  pub Only-on_found :
      (r : Answer A) (f : A → M P B) (g : M P B) (h : ApiError → M P B)
      → ((a : A) → Only Allowed (f a))
      → Only Allowed g
      → ((e : ApiError) → Only Allowed (h e))
      → Only Allowed (on_found r f g h)
  Only-on_found (ok a) f g h k l m = k a
  Only-on_found (err not_found) f g h k l m = l
  Only-on_found (err (other e)) f g h k l m = m (other e)

module _ {Allowed : Request → Type 0} {P : Platform} {B : Type 0} where
  pub Only-if :
      (b : Bool) (m n : M P B) → Only Allowed m → Only Allowed n → Only Allowed (if b then m else n)
  Only-if true m n k l = k
  Only-if false m n k l = l

pub ruleset only_rules = (
  Only-pure, Only-stop, Only-clock, Only-call, Only-bind, Only-on_answer, Only-on_result,
  Only-on_found, Only-if,
)
