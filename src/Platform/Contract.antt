-- ===== src/Platform/Contract.antt =====
-- Contracts of computations on the history of calls: from a history with `pre` the computation ends
-- in a value with `post`, or stops with `final`, whatever the platform answers. One rule for each
-- way to build a computation.
use workbench_operator.Base.{List, ◌∷◌, Bool, true, false, ◌≡◌, refl, if◌then◌else◌}
use workbench_operator.Platform.{Answer, Request, Response, Platform, World, Event}
use workbench_operator.Platform.Total.{Total}
use workbench_operator.Platform.Monad.{
  Verdict, Outcome, value, stopped, M, call, pure, stop, continue, ◌>>=◌,
}

abbrev pub History : Type 0
History = List Event

abbrev pub Ends :
    {A : Type 0}
    → (A → History → Type 0)
    → (Verdict → History → Type 0)
    → Outcome A
    → History
    → Type 0
Ends post final (value a) h = post a h
Ends post final (stopped v) h = final v h

module _ {P : Platform} where
  pub record Contract {A : Type 0} (pre : History → Type 0) (m : M P A)
      (post : A → History → Type 0) (final : Verdict → History → Type 0) : Type 0 where
    pub at : (w : World P) → pre w.history → Ends post final (m w).0 (m w).1.history

module _ {P : Platform} {A : Type 0} {pre : History → Type 0}
    {final : Verdict → History → Type 0} where
  pub Contract-pure :
      {post : A → History → Type 0} (a : A)
      → ((h : History) → pre h → post a h)
      → Contract {P = P} pre (pure a) post final
  unfolding pure
  Contract-pure a f = record { at = λ w p. f w.history p }

  pub Contract-stop :
      {post : A → History → Type 0} (v : Verdict)
      → ((h : History) → pre h → final v h)
      → Contract {P = P} pre (stop v) post final
  unfolding stop
  Contract-stop v f = record { at = λ w p. f w.history p }

module _ (P : Platform) {pre : History → Type 0} {final : Verdict → History → Type 0} where
  pub Contract-call :
      (q : Request) {post : Answer (Response q) → History → Type 0}
      → ((a : Answer (Response q)) (h : History) → pre h → post a ((q, a) ∷ h))
      → Contract pre (call P q) post final
  unfolding call
  Contract-call q f = record { at = λ w p. f (P.answer q w.state).0 w.history p }

continue_at :
    {P : Platform} {A B : Type 0} {mid : A → History → Type 0} {post : B → History → Type 0}
    {final : Verdict → History → Type 0} (f : A → M P B)
    → ((a : A) → Contract (mid a) (f a) post final)
    → (o : Outcome A) (w : World P) → Ends mid final o w.history
    → Ends post final (continue o f w).0 (continue o f w).1.history
continue_at f k (value a) w e = (k a).at w e
continue_at f k (stopped v) w e = e

module _ {P : Platform} {A B : Type 0} {pre : History → Type 0} {post : B → History → Type 0}
    {final : Verdict → History → Type 0} where
  pub Contract-bind :
      (mid : A → History → Type 0) (m : M P A) (f : A → M P B)
      → Contract pre m mid final
      → ((a : A) → Contract (mid a) (f a) post final)
      → Contract pre (m >>= f) post final
  unfolding ◌>>=◌
  Contract-bind mid m f c k = record { at = λ w p. continue_at f k (m w).0 (m w).1 (c.at w p) }

weaken_end :
    {A : Type 0} {post post' : A → History → Type 0} {final final' : Verdict → History → Type 0}
    → ((a : A) (h : History) → post a h → post' a h)
    → ((v : Verdict) (h : History) → final v h → final' v h)
    → (o : Outcome A) (h : History) → Ends post final o h
    → Ends post' final' o h
weaken_end f g (value a) h e = f a h e
weaken_end f g (stopped v) h e = g v h e

-- A weaker start and weaker ends.
module _ {P : Platform} {A : Type 0} {m : M P A} where
  pub Contract-weaken :
      {pre pre' : History → Type 0} {post post' : A → History → Type 0}
      {final final' : Verdict → History → Type 0}
      → ((h : History) → pre' h → pre h)
      → ((a : A) (h : History) → post a h → post' a h)
      → ((v : Verdict) (h : History) → final v h → final' v h)
      → Contract pre m post final
      → Contract pre' m post' final'
  Contract-weaken p f g c = record {
    at = λ w e. weaken_end f g (m w).0 (m w).1.history (c.at w (p w.history e));
  }

module _ {P : Platform} {A : Type 0} {pre : History → Type 0} {post : A → History → Type 0}
    {final : Verdict → History → Type 0} where
  pub Contract-if :
      (b : Bool) (m n : M P A)
      → (b ≡ true → Contract pre m post final)
      → (b ≡ false → Contract pre n post final)
      → Contract pre (if b then m else n) post final
  Contract-if true m n k l = k refl
  Contract-if false m n k l = l refl

total-Ends :
    {A : Type 0} (o : Outcome A) (h : History)
    → (a : A) × (o ≡ value a)
    → Ends (λ _ _. Unit {0}) (λ _ _. ⊥) o h
total-Ends (value a) h _ = tt
total-Ends (stopped v) h (a, e) = cc

-- A computation that never stops.
pub Contract-Total :
    {P : Platform} {A : Type 0} {m : M P A}
    → Total m
    → Contract (λ _. Unit {0}) m (λ _ _. Unit {0}) (λ _ _. ⊥)
Contract-Total {m} c = record { at = λ w _. total-Ends (m w).0 (m w).1.history (c.at w) }

Ends-value :
    {A : Type 0} (post : A → History → Type 0) (o : Outcome A) (h : History)
    → Ends post (λ _ _. ⊥) o h
    → (a : A) × (o ≡ value a) × post a h
Ends-value post (value a) h e = (a, refl, e)
Ends-value post (stopped v) h e = absurd e

-- What a computation gives that has a contract and never stops.
pub Contract-result :
    {P : Platform} {A : Type 0} {m : M P A} {pre : History → Type 0} {post : A → History → Type 0}
    → Contract pre m post (λ _ _. ⊥)
    → (w : World P) → pre w.history
    → (a : A) × ((m w).0 ≡ value a) × post a (m w).1.history
Contract-result {m} {post} c w p = Ends-value post (m w).0 (m w).1.history (c.at w p)

-- A fact that does not depend on the history is a hypothesis.
pub Contract-fact_and :
    {P : Platform} {A : Type 0} {m : M P A} {Fact : Type 0} {pre : History → Type 0}
    {post : A → History → Type 0} {final : Verdict → History → Type 0}
    → (Fact → Contract pre m post final)
    → Contract (λ h. Fact × pre h) m post final
Contract-fact_and k = record { at = λ w (f, p). (k f).at w p }

pub Contract-fact :
    {P : Platform} {A : Type 0} {m : M P A} {Fact : Type 0} {post : A → History → Type 0}
    {final : Verdict → History → Type 0}
    → (Fact → Contract (λ _. Unit {0}) m post final)
    → Contract (λ _. Fact) m post final
Contract-fact k = record { at = λ w f. (k f).at w tt }
