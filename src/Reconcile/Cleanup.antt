-- ===== src/Reconcile/Cleanup.antt =====
-- The deletion of the extra jobs, against a plain description of it.
use mathlib.Core.List.{Permᴰ}
use workbench_operator.Names.Order.{sort_any_order}
use workbench_operator.Base.{
  String, Bool, true, false, List, [], ◌∷◌, ◌≡◌, refl, ◌↔◌, inl, inr, arith, ◌||◌, string_eq, ◌==◌,
  if◌then◌else◌, Bool-cases,
}
use workbench_operator.Config.{Config}
use workbench_operator.Kube.{Job}
use workbench_operator.Workbench.{Workbench}
use workbench_operator.Deployment.{workbench_labels}
use workbench_operator.Names.{sort, binary_search}
use workbench_operator.Names.Laws.{Listed, binary_search-sort}
use workbench_operator.Platform.{ok, delete_job, list_jobs, Platform, World}
use workbench_operator.Platform.Monad.{value, ◌>>=◌}
use workbench_operator.Platform.Contract.{History}
use workbench_operator.Cluster.{find_jobs}
use workbench_operator.Reconcile.{delete_extra_jobs, clean_up}

-- The name is one of the list, by a scan.
abbrev pub is_listed : String → List String → Bool
is_listed t [] = false
is_listed t (x ∷ xs) = x == t || is_listed t xs

-- The jobs of the list whose names are not among the names, in their order.
abbrev pub extra_jobs : List String → List Job → List Job
extra_jobs names [] = []
extra_jobs names (j ∷ js) =
    if is_listed j.metadata.name names then extra_jobs names js else j ∷ extra_jobs names js

-- The history after each of the jobs was deleted in turn.
abbrev pub deleted : List Job → History → History
deleted [] h = h
deleted (j ∷ js) h = deleted js ((delete_job j, ok tt) ∷ h)

is_listed_iff : (t : String) (xs : List String) → (is_listed t xs ≡ true) ↔ Listed t xs
is_listed_iff t [] = (λ e. cc, λ m. absurd m)
is_listed_iff t (x ∷ xs) = let ih = is_listed_iff t xs in (λ e. ground arith, λ m. ground arith)

binary_search-eq-is_listed :
    (names : List String) (t : String) → binary_search (sort names) t ≡ is_listed t names
binary_search-eq-is_listed names t =
    let found = binary_search-sort names t in let listed = is_listed_iff t names in ground arith

module _ (P : Platform) (config : Config)
    (deletes : (j : Job) (s : P.State) → (P.answer (delete_job j) s).0 ≡ ok tt) where
  delete_extra_jobs-deleted :
      (names : List String) (jobs : List Job) (w : World P)
      → ((delete_extra_jobs P config (sort names) jobs w).0 ≡ value tt)
        × ((delete_extra_jobs P config (sort names) jobs w).1.history
            ≡ deleted (extra_jobs names jobs) w.history)
  unfolding delete_extra_jobs ◌>>=◌
  delete_extra_jobs-deleted names [] w = (refl, refl)
  delete_extra_jobs-deleted names (j ∷ js) w = elim (Bool-cases (is_listed j.metadata.name names)) [
    | inl kept ↦
        rw (binary_search-eq-is_listed names j.metadata.name, kept)
          (delete_extra_jobs-deleted names js w)
    | inr extra ↦
        rw (binary_search-eq-is_listed names j.metadata.name, extra, deletes j w.state)
          (delete_extra_jobs-deleted names js (record {
            state = (P.answer (delete_job j) w.state).1;
            history = (delete_job j, ok tt) ∷ w.history;
          }))
  ]

-- Where the list of the jobs and the deletions succeed, the clean-up lists the jobs with the label of
-- the workbench and then deletes exactly those whose names are not among the given ones, each once
-- and in the order of the list, in whatever namespace they stand.
pub clean_up-deleted :
    (P : Platform) (config : Config) (wb : Workbench) (names : List String) (jobs : List Job)
    (w : World P)
    → ((j : Job) (s : P.State) → (P.answer (delete_job j) s).0 ≡ ok tt)
    → (P.answer (list_jobs (workbench_labels wb)) w.state).0 ≡ ok jobs
    → ((clean_up P config wb names w).0 ≡ value tt)
      × ((clean_up P config wb names w).1.history
          ≡ deleted
              (extra_jobs names jobs)
              ((list_jobs (workbench_labels wb), ok jobs) ∷ w.history))
unfolding clean_up find_jobs ◌>>=◌
clean_up-deleted P config wb names jobs w deletes e = rw e (
    delete_extra_jobs-deleted P config deletes names jobs (record {
      state = (P.answer (list_jobs (workbench_labels wb)) w.state).1;
      history = (list_jobs (workbench_labels wb), ok jobs) ∷ w.history;
    }))

-- The clean-up gives the same outcome and the same world, its history of calls included, whatever the
-- order of the names that it is to keep, so the order in which the apps of the map come does not
-- matter to it.
pub clean_up_any_order :
    (P : Platform) (config : Config) (wb : Workbench) (names names' : List String) (w : World P)
    → Permᴰ names names'
    → clean_up P config wb names w ≡ clean_up P config wb names' w
unfolding clean_up
clean_up_any_order P config wb names names' w p = rw (sort_any_order names names' p) refl
