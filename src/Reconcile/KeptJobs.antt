-- ===== src/Reconcile/KeptJobs.antt =====
-- An invariant of the history about the jobs of the apps, and createJob (workbench_controller.go).
use workbench_operator.Base.{
  String, Option, none, List, [], ◌∷◌, ◌++◌, ◌≡◌, refl, ◌≢◌, ◌⊎◌, inl, inr, All, string_eq,
}
use workbench_operator.Kube.{Job}
use workbench_operator.Names.Laws.{Listed}
use workbench_operator.Platform.{
  Answer, ok, err, not_found, other, get_job, create_job, delete_job, Platform, Event,
}
use workbench_operator.Platform.Monad.{Outcome, value, stopped, M, Result, returned, error}
use workbench_operator.Platform.Contract.{
  History, Contract, Contract-pure, Contract-call, Contract-bind, Contract-if, Ends,
}
use workbench_operator.Platform.Only.{Only, Extends-keeps}
use workbench_operator.Platform.Requests.{QuietRequest}
use workbench_operator.Cluster.{asks_suspend, create_job_if_missing}

-- The names hold the job, if the call found a job or created one of an app.
abbrev pub KeptEvent : List String → Event → Type 0
KeptEvent names (get_job k, ok _) = Listed k.name names
KeptEvent names (create_job j, ok _) = (j.suspend ≡ none) ⊎ Listed j.metadata.name names
KeptEvent names _ = Unit

abbrev pub KeptIn : List String → History → Type 0
KeptIn names = All (KeptEvent names)

-- The event did not find or create the job's name.
abbrev pub Spares : Job → Event → Type 0
Spares j (get_job k, ok _) = k.name ≢ j.metadata.name
Spares j (create_job c, ok _) = (c.suspend ≡ none) ⊎ (c.metadata.name ≢ j.metadata.name)
Spares j _ = Unit

abbrev SafeEvent : Event → History → Type 0
SafeEvent (delete_job j, _) h = All (Spares j) h
SafeEvent _ h = Unit

-- No call deletes a job of a name that an earlier call found, or created for an app.
abbrev pub IsSafe : History → Type 0
IsSafe [] = Unit
IsSafe (e ∷ h) = SafeEvent e h × IsSafe h

abbrev pub Kept : List String → History → Type 0
Kept names h = KeptIn names h × IsSafe h

KeptEvent-of_quiet : (names : List String) (e : Event) → QuietRequest e.0 → KeptEvent names e
KeptEvent-of_quiet names (get_job k, a) q = absurd q
KeptEvent-of_quiet names (create_job j, ok _) q = inl q
KeptEvent-of_quiet names (create_job j, err _) q = tt
KeptEvent-of_quiet names (_, _) q = tt

SafeEvent-of_quiet : (e : Event) (h : History) → QuietRequest e.0 → SafeEvent e h
SafeEvent-of_quiet (delete_job j, a) h q = absurd q
SafeEvent-of_quiet (_, _) h q = tt

Kept-cons :
    (names : List String) (e : Event) (h : History)
    → QuietRequest e.0
    → Kept names h
    → Kept names (e ∷ h)
Kept-cons names e h q (k, s) = ((KeptEvent-of_quiet names e q, k), (SafeEvent-of_quiet e h q, s))

Ends-of_Kept :
    {A : Type 0} (names : List String) (o : Outcome A) (h : History)
    → Kept names h
    → Ends (λ _. Kept names) (λ _. IsSafe) o h
Ends-of_Kept names (value a) h k = k
Ends-of_Kept names (stopped v) h k = k.1

module _ {P : Platform} {A : Type 0} (m : M P A) where
  pub Contract-quiet :
      (names : List String)
      → Only QuietRequest m
      → Contract (Kept names) m (λ _. Kept names) (λ _. IsSafe)
  Contract-quiet names c = record {
    at = λ w k.
        Ends-of_Kept names (m w).0 (m w).1.history
          (Extends-keeps (Kept names) (Kept-cons names) (c.at w) k);
  }

pub Listed-append_left : (t : String) (xs ys : List String) → Listed t xs → Listed t (xs ++ ys)
Listed-append_left t (x ∷ xs) ys (inl e) = inl e
Listed-append_left t (x ∷ xs) ys (inr m) = inr (Listed-append_left t xs ys m)
Listed-append_left t [] ys m = absurd m

pub Listed-append_last : (t : String) (xs : List String) → Listed t (xs ++ t ∷ [])
Listed-append_last t [] = inl refl
Listed-append_last t (x ∷ xs) = inr (Listed-append_last t xs)

KeptEvent-append :
    (names more : List String) (e : Event) → KeptEvent names e → KeptEvent (names ++ more) e
KeptEvent-append names more (get_job k, ok _) m = Listed-append_left k.name names more m
KeptEvent-append names more (get_job k, err _) m = tt
KeptEvent-append names more (create_job j, ok _) (inl e) = inl e
KeptEvent-append names more (create_job j, ok _) (inr m) =
    inr (Listed-append_left j.metadata.name names more m)
KeptEvent-append names more (create_job j, err _) m = tt
KeptEvent-append names more (_, _) m = tt

KeptIn-append : (names more : List String) (h : History) → KeptIn names h → KeptIn (names ++ more) h
KeptIn-append names more [] k = tt
KeptIn-append names more (e ∷ h) (k, ks) =
    (KeptEvent-append names more e k, KeptIn-append names more h ks)

abbrev pub AfterCreate : List String → Job → Result (Option Job) → History → Type 0
AfterCreate names job (returned _) h = Kept (names ++ job.metadata.name ∷ []) h
AfterCreate names job (error _) h = Kept names h

abbrev AfterGet : List String → Job → Answer Job → History → Type 0
AfterGet names job (ok _) h = Kept (names ++ job.metadata.name ∷ []) h
AfterGet names job (err _) h = Kept names h

module _ (P : Platform) where
  get_job-Kept :
      (names : List String) (job : Job) (a : Answer Job) (h : History)
      → Kept names h
      → AfterGet names job a (
          (get_job (record { name = job.metadata.name; namespace = job.metadata.namespace }), a)
          ∷ h)
  get_job-Kept names job (ok f) h (k, s) = (
    (Listed-append_last job.metadata.name names, KeptIn-append names (job.metadata.name ∷ []) h k),
    (tt, s),
  )
  get_job-Kept names job (err e) h (k, s) = ((tt, k), (tt, s))

  create_job-Kept :
      (names : List String) (job : Job) (a : Answer Job) (h : History)
      → Kept names h
      → AfterGet names job a ((create_job job, a) ∷ h)
  create_job-Kept names job (ok f) h (k, s) = (
    (
      inr (Listed-append_last job.metadata.name names),
      KeptIn-append names (job.metadata.name ∷ []) h k,
    ),
    (tt, s),
  )
  create_job-Kept names job (err e) h (k, s) = ((tt, k), (tt, s))

  pub create_job_if_missing-Kept :
      (names : List String) (job : Job)
      → Contract (Kept names) (create_job_if_missing P job) (AfterCreate names job) (λ _. IsSafe)
  unfolding create_job_if_missing
  create_job_if_missing-Kept names job =
      Contract-bind (AfterGet names job) _ _
        (Contract-call P (get_job _) (λ a h k. get_job-Kept names job a h k))
        (elim [
          | ok f ↦ Contract-pure _ (λ h k. k)
          | err (other e) ↦ Contract-pure _ (λ h k. k)
          | err not_found ↦
              Contract-if (asks_suspend job.suspend) _ _ (λ _. Contract-pure _ (λ h k. k))
                (λ _.
                  Contract-bind (AfterGet names job) _ _
                    (Contract-call P (create_job job) (λ a h k. create_job-Kept names job a h k))
                    (elim [
                      | ok f ↦ Contract-pure _ (λ h k. k)
                      | err e ↦ Contract-pure _ (λ h k. k)
                    ]))
        ])
