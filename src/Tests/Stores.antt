-- ===== src/Tests/Stores.antt =====
-- Maps of objects by their keys, as lists with the newest first.
mod Cluster
use workbench_operator.Base.{
  Bool, true, false, Option, none, some, List, [], ◌∷◌, ◌≡◌, refl, ◌≢◌, ◌&&◌, arith, sym, ap, ◌∙◌,
  inl, inr, Bool-cases, string_eq, nat_eq, ◌==◌, if◌then◌else◌,
}
use mathlib.Core.Path.{subst}
use workbench_operator.Kube.{ObjectKey, Deployment, Service, Job}
use workbench_operator.Workbench.{Workbench}
use workbench_operator.Deployment
use workbench_operator.Deployment.{init_deployment, update_deployment as update_deployment_of}
use workbench_operator.Platform.{
  Answer, ok, err, not_found, other, Request, Response, update_workbench, update_workbench_status,
  get_deployment, create_deployment, update_deployment, get_service, create_service, get_job,
  create_job, update_job, delete_job, delete_all_jobs, list_jobs, list_pods, Platform,
}
use workbench_operator.Platform.Monad.{value}
use workbench_operator.Cluster.{key_of}
use workbench_operator.Cluster.Ensure.{found_answer}
use workbench_operator.Cluster.Converge.{
  init_deployment-IsUsable, InSync, LeavesDeployments, LeavesServices, IsUsable, IsStoredAs,
  IsSameBench, StoresServer,
}
use workbench_operator.Cluster.Converge.Calls.{Holds, HoldsUsable, HasService}
use workbench_operator.Reconcile.{prepare, reconcile}
use workbench_operator.Reconcile.Converge.{HoldsInSync}
use workbench_operator.Reconcile.Converge.Prepare.{prepare-Converges}
use workbench_operator.Reconcile.Converge.Stays.{prepare-Stays}
use workbench_operator.Platform.Only.{Extends}
use workbench_operator.Reconcile.Role.{IsGranted, are_granted, role, watched, reconcile-IsGranted}
use workbench_operator.Cluster.Jobs.{TakesNothing, StoresApps}
use workbench_operator.Tests.Samples.{pod, key, config, bench, deployment, start}

pub same_key : ObjectKey → ObjectKey → Bool
same_key k j = k.name == j.name && k.namespace == j.namespace

same_key-parts :
    (k j : ObjectKey) → same_key k j ≡ true → (k.name ≡ j.name) × (k.namespace ≡ j.namespace)
unfolding same_key
same_key-parts k j e = ground arith

same_key-true : (k j : ObjectKey) → same_key k j ≡ true → k ≡ j
same_key-true k j e =
    let (name, namespace) = same_key-parts k j e in
    ap (λ n. record { name = n; namespace = k.namespace }) name
    ∙ ap (λ n. record { name = j.name; namespace = n }) namespace

same_key_refl : (k : ObjectKey) → same_key k k ≡ true
unfolding same_key
same_key_refl k = ground arith

pub some-injective : {A : Type 0} {a b : A} → some a ≡ some b → a ≡ b
some-injective e = cc

module _ {A : Type 0} (key : A → ObjectKey) where
  -- The newest object under the key.
  pub find : ObjectKey → List A → Option A
  find k [] = none
  find k (a ∷ xs) = if same_key (key a) k then some a else find k xs

  find-keyed : (k : ObjectKey) (xs : List A) (b : A) → find k xs ≡ some b → key b ≡ k
  unfolding find
  find-keyed k [] b e = cc
  find-keyed k (a ∷ xs) b e = elim (Bool-cases (same_key (key a) k)) [
    | inl same ↦
        let a_is_b = ap (λ t. if t then some a else find k xs) (sym same) ∙ e in
        subst (λ b. key b ≡ k) (some-injective a_is_b) (same_key-true (key a) k same)
    | inr differs ↦ find-keyed k xs b (ap (λ t. if t then some a else find k xs) (sym differs) ∙ e)
  ]

  find-new : (a : A) (xs : List A) → find (key a) (a ∷ xs) ≡ some a
  unfolding find
  find-new a xs = rw (same_key_refl (key a)) refl

  find-other : (k : ObjectKey) (a : A) (xs : List A) → k ≢ key a → find k (a ∷ xs) ≡ find k xs
  unfolding find
  find-other k a xs n = elim (Bool-cases (same_key (key a) k)) [
    | inl same ↦ absurd (n (sym (same_key-true (key a) k same)))
    | inr differ ↦ rw differ refl
  ]

  -- A create makes the object if its key is free, and an update puts a newer one.
  add : A → List A → Option A → Answer A × List A
  add a xs none = (ok a, a ∷ xs)
  add a xs (some _) = (err (other "AlreadyExists"), xs)

  replace : A → List A → Option A → Answer A × List A
  replace a xs none = (err not_found, xs)
  replace a xs (some _) = (ok a, a ∷ xs)

  add-stores :
      (a : A) (xs : List A) (o : Option A)
      → o ≡ none
      → (b : A) × ((add a xs o).0 ≡ ok b) × (find (key a) (add a xs o).1 ≡ some b)
  unfolding add
  add-stores a xs none e = (a, refl, find-new a xs)
  add-stores a xs (some _) e = cc

  add-other :
      (k : ObjectKey) (a : A) (xs : List A) (o : Option A)
      → k ≢ key a
      → find k (add a xs o).1 ≡ find k xs
  unfolding add
  add-other k a xs none n = find-other k a xs n
  add-other k a xs (some _) n = refl

  add-same : (a b : A) (xs : List A) (o : Option A) → (add a xs o).0 ≡ ok b → a ≡ b
  unfolding add
  add-same a b xs none e = cc
  add-same a b xs (some _) e = cc

  replace-stores :
      (a c : A) (xs : List A) (o : Option A)
      → o ≡ some c
      → ((replace a xs o).0 ≡ ok a) × (find (key a) (replace a xs o).1 ≡ some a)
  unfolding replace
  replace-stores a c xs none e = cc
  replace-stores a c xs (some _) e = (refl, find-new a xs)

  -- What the map holds is not lost by a create, an update, or the removal of another.
  add-kept :
      (k : ObjectKey) (a : A) (xs : List A) (o : Option A)
      → (b : A) × (find k xs ≡ some b)
      → (b : A) × (find k (add a xs o).1 ≡ some b)
  unfolding add find
  add-kept k a xs none (b, held) = elim (Bool-cases (same_key (key a) k)) [
    | inl same ↦ rw same (a, refl)
    | inr differs ↦ rw differs (b, held)
  ]
  add-kept k a xs (some _) h = h

  replace-kept :
      (k : ObjectKey) (a : A) (xs : List A) (o : Option A)
      → (b : A) × (find k xs ≡ some b)
      → (b : A) × (find k (replace a xs o).1 ≡ some b)
  unfolding replace find
  replace-kept k a xs none h = h
  replace-kept k a xs (some _) (b, held) = elim (Bool-cases (same_key (key a) k)) [
    | inl same ↦ rw same (a, refl)
    | inr differs ↦ rw differs (b, held)
  ]

  remove : ObjectKey → List A → List A
  remove k [] = []
  remove k (a ∷ xs) = if same_key (key a) k then remove k xs else a ∷ remove k xs

  remove-other : (k j : ObjectKey) (xs : List A) → j ≢ k → find j (remove k xs) ≡ find j xs
  unfolding remove find
  remove-other k j [] n = refl
  remove-other k j (a ∷ xs) n = elim (Bool-cases (same_key (key a) k)) [
    | inl same ↦ rw same (
        remove-other k j xs n ∙ sym (find-other j a xs (λ e. n (e ∙ same_key-true (key a) k same))))
    | inr differs ↦
        rw differs (ap (λ t. if same_key (key a) j then some a else t) (remove-other k j xs n))
  ]
