-- ===== src/Cluster/Ensure.antt =====
-- The create operations against a map of objects (workbench_controller.go).
use workbench_operator.Base.{
  Bool, true, false, Option, none, some, ◌≡◌, refl, ◌≢◌, ◌⊎◌, inl, inr, arith, Option-cases,
  Bool-cases,
}
use workbench_operator.Kube.{ObjectKey, Deployment, Job}
use workbench_operator.Platform.{
  Answer, ok, err, not_found, get_deployment, create_deployment, get_job, create_job, Platform,
  World,
}
use workbench_operator.Platform.Monad.{returned, error, value, is_suspended_job, ◌>>=◌}
use workbench_operator.Cluster.{
  key_of, asks_suspend, create_deployment_if_missing, create_job_if_missing,
}

-- The answer of a read of a map.
abbrev pub found_answer : {A : Type 0} → Option A → Answer A
found_answer none = err not_found
found_answer (some a) = ok a

-- A server that keeps one kind of object as a map: a read shows what the map holds and changes
-- nothing, and a create of an object whose key is free stores it, as the server completes it, and
-- leaves the other keys alone.
pub record Stores {S A : Type 0} (key : A → ObjectKey) (get : ObjectKey → S → Answer A × S)
    (create : A → S → Answer A × S) : Type 0 where
  pub holds : ObjectKey → S → Option A
  pub gets : (k : ObjectKey) (s : S) → get k s ≡ (found_answer (holds k s), s)
  pub creates :
      (a : A) (s : S)
      → holds (key a) s ≡ none
      → (b : A) × ((create a s).0 ≡ ok b) × (holds (key a) (create a s).1 ≡ some b)
  pub spares : (a : A) (s : S) (k : ObjectKey) → k ≢ key a → holds k (create a s).1 ≡ holds k s

-- The state with the object under its key: nothing has changed if it was there, and nothing but that
-- key if it was not.
pub record IsEnsured {S A : Type 0} (holds : ObjectKey → S → Option A) (k : ObjectKey) (b : A)
    (s s' : S) : Type 0 where
  pub there : holds k s' ≡ some b
  pub kept : (c : A) → holds k s ≡ some c → s' ≡ s
  pub others : (j : ObjectKey) → j ≢ k → holds j s' ≡ holds j s

abbrev pub StoresDeployments : Platform → Type 0
StoresDeployments P =
    Stores (λ d. key_of d.metadata) (λ k s. P.answer (get_deployment k) s)
      (λ d s. P.answer (create_deployment d) s)

abbrev pub StoresJobs : Platform → Type 0
StoresJobs P =
    Stores (λ j. key_of j.metadata) (λ k s. P.answer (get_job k) s)
      (λ j s. P.answer (create_job j) s)

-- On a server that keeps deployments as a map, the operation ensures that the deployment is there and
-- returns it as the server holds it, whether it was there before or not.
pub create_deployment_if_missing-IsEnsured :
    (P : Platform) (store : StoresDeployments P) (d : Deployment) (w : World P)
    → let (o, w') = create_deployment_if_missing P d w in
      (b : Deployment) × (o ≡ value (returned b))
      × IsEnsured store.holds (key_of d.metadata) b w.state w'.state
unfolding create_deployment_if_missing ◌>>=◌
create_deployment_if_missing-IsEnsured P store d w =
    elim (Option-cases (store.holds (key_of d.metadata) w.state)) [
      | inl free ↦
          let (b, made, there) = store.creates d w.state free in
          rw (store.gets (key_of d.metadata) w.state, free, made)
            (
              b,
              refl,
              record {
                there = there;
                kept = λ c e. cc;
                others = λ j n. store.spares d w.state j n;
              },
            )
      | inr (b, held) ↦
          rw (store.gets (key_of d.metadata) w.state, held)
            (b, refl, record { there = held; kept = λ c e. refl; others = λ j n. refl })
    ]

asked_to : (o : Option Bool) → asks_suspend o ≡ true → o ≡ some true
asked_to none e = cc
asked_to (some b) e = cc

not_asked_to : (o : Option Bool) → asks_suspend o ≡ false → o ≢ some true
not_asked_to o e n = ground arith

-- On a server that keeps jobs as a map: a job that is there is returned as the server holds it, and
-- nothing changes; a missing one that is to be suspended is not created, and the error says that; and
-- any other missing one is created, and nothing is returned.
pub create_job_if_missing-IsEnsured :
    (P : Platform) (store : StoresJobs P) (j : Job) (w : World P)
    → let (o, w') = create_job_if_missing P j w in
      ((f : Job) × (store.holds (key_of j.metadata) w.state ≡ some f)
        × (o ≡ value (returned (some f)))
        × (w'.state ≡ w.state))
      ⊎ ((store.holds (key_of j.metadata) w.state ≡ none)
          × (j.suspend ≡ some true)
          × ((e : _) × (o ≡ value (error e)) × (is_suspended_job e ≡ true))
          × (w'.state ≡ w.state))
      ⊎ ((store.holds (key_of j.metadata) w.state ≡ none)
          × (j.suspend ≢ some true)
          × (o ≡ value (returned none))
          × ((b : Job) × IsEnsured store.holds (key_of j.metadata) b w.state w'.state))
unfolding create_job_if_missing ◌>>=◌
create_job_if_missing-IsEnsured P store j w =
    elim (Option-cases (store.holds (key_of j.metadata) w.state)) [
      | inr (f, held) ↦
          rw (store.gets (key_of j.metadata) w.state, held) (inl (f, refl, refl, refl))
      | inl free ↦ elim (Bool-cases (asks_suspend j.suspend)) [
        | inl asked ↦
            rw (store.gets (key_of j.metadata) w.state, free, asked)
              (inr (inl (refl, asked_to j.suspend asked, (_, refl, refl), refl)))
        | inr not_asked ↦
            let (b, made, there) = store.creates j w.state free in
            rw (store.gets (key_of j.metadata) w.state, free, not_asked, made)
              (inr (
                inr (
                  refl,
                  not_asked_to j.suspend not_asked,
                  refl,
                  (
                    b,
                    record {
                      there = there;
                      kept = λ c e. cc;
                      others = λ k n. store.spares j w.state k n;
                    },
                  ),
                )))
      ]
    ]
