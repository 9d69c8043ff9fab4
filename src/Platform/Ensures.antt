-- ===== src/Platform/Ensures.antt =====
-- Computations that end in a value, in a state of the platform with some property. One rule for each
-- way to build a computation.
use workbench_operator.Base.{◌≡◌, refl}
use workbench_operator.Platform.{Answer, Request, Response, Platform, World}
use workbench_operator.Platform.Monad.{Outcome, value, M, call, read_clock, pure, continue, ◌>>=◌}
use workbench_operator.Platform.Total.{Total}
use workbench_operator.Platform.Only.{Only, Steps-keeps}

-- From a state with `pre` the computation ends in a value with `post`.
pub record Ensures {P : Platform} {A : Type 0} (pre : P.State → Type 0) (m : M P A)
    (post : A → P.State → Type 0) : Type 0 where
  pub at : (w : World P) → pre w.state → (a : A) × ((m w).0 ≡ value a) × post a (m w).1.state

module _ {P : Platform} {A : Type 0} {pre : P.State → Type 0} {post : A → P.State → Type 0} where
  pub Ensures-pure :
      (a : A) → ((s : P.State) → pre s → post a s) → Ensures {P = P} pre (pure a) post
  unfolding pure
  Ensures-pure a f = record { at = λ w p. (a, refl, f w.state p) }

  -- A fact that does not depend on the state is a hypothesis.
  pub Ensures-fact :
      {m : M P A} {Fact : Type 0} → (Fact → Ensures pre m post) → Ensures (λ s. Fact × pre s) m post
  Ensures-fact k = record { at = λ w (f, p). (k f).at w p }

  -- No state has the property.
  pub Ensures-none : {m : M P A} → ((s : P.State) → pre s → ⊥) → Ensures pre m post
  Ensures-none f = record { at = λ w p. absurd (f w.state p) }

  pub Ensures-weaken :
      {m : M P A} {pre' : P.State → Type 0} {post' : A → P.State → Type 0}
      → ((s : P.State) → pre' s → pre s)
      → ((a : A) (s : P.State) → post a s → post' a s)
      → Ensures pre m post
      → Ensures pre' m post'
  Ensures-weaken {m} f g c = record {
    at = λ w p. let (a, e, q) = c.at w (f w.state p) in (a, e, g a (m w).1.state q);
  }

module _ {P : Platform} where
  pub Ensures-call :
      {pre : P.State → Type 0} (q : Request) {post : Answer (Response q) → P.State → Type 0}
      → ((s : P.State) → pre s → post (P.answer q s).0 (P.answer q s).1)
      → Ensures pre (call P q) post
  unfolding call
  Ensures-call q f = record { at = λ w p. ((P.answer q w.state).0, refl, f w.state p) }

  pub Ensures-clock : {pre : P.State → Type 0} → Ensures pre (read_clock P) (λ _. pre)
  unfolding read_clock
  Ensures-clock = record { at = λ w p. (P.clock w.state, refl, p) }

  continue_ensures :
      {A B : Type 0} {mid : A → P.State → Type 0} {post : B → P.State → Type 0} (f : A → M P B)
      → ((a : A) → Ensures (mid a) (f a) post)
      → (o : Outcome A) (w : World P) → (a : A) × (o ≡ value a) × mid a w.state
      → (b : B) × ((continue o f w).0 ≡ value b) × post b (continue o f w).1.state
  continue_ensures f k o w (a, e, i) = rw e ((k a).at w i)

  pub Ensures-bind :
      {A B : Type 0} {pre : P.State → Type 0} {post : B → P.State → Type 0}
      (mid : A → P.State → Type 0) (m : M P A) (f : A → M P B)
      → Ensures pre m mid
      → ((a : A) → Ensures (mid a) (f a) post)
      → Ensures pre (m >>= f) post
  unfolding ◌>>=◌
  Ensures-bind mid m f c k = record { at = λ w p. continue_ensures f k (m w).0 (m w).1 (c.at w p) }

  -- A computation that never stops and makes only allowed calls, where these keep a property.
  pub Ensures-Only :
      {A : Type 0} {m : M P A} {Allowed : Request → Type 0} (I : P.State → Type 0)
      → ((q : Request) (s : P.State) → Allowed q → I s → I (P.answer q s).1)
      → Only Allowed m
      → Total m
      → Ensures I m (λ _. I)
  Ensures-Only {m} I keep c t = record {
    at = λ w i. let (a, e) = t.at w in (a, e, Steps-keeps I keep (c.steps w) i);
  }

  -- The same, where each run says of its value what holds of it.
  pub Ensures-result :
      {A : Type 0} {m : M P A} {Allowed : Request → Type 0} (Fact : A → Type 0)
      (I : P.State → Type 0)
      → ((q : Request) (s : P.State) → Allowed q → I s → I (P.answer q s).1)
      → Only Allowed m
      → ((w : World P) → (a : A) × ((m w).0 ≡ value a) × Fact a)
      → Ensures I m (λ a s. Fact a × I s)
  Ensures-result {m} Fact I keep c t = record {
    at = λ w i. let (a, e, f) = t w in (a, e, (f, Steps-keeps I keep (c.steps w) i));
  }
