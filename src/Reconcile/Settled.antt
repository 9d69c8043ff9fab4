-- ===== src/Reconcile/Settled.antt =====
-- The part of Reconcile above the apps, on a cluster that is as it should be
-- (workbench_controller.go).
pub mod Apps
use workbench_operator.Base.{
  String, Bool, true, false, Option, none, some, List, [], ◌∷◌, ◌≡◌, refl, ◌∙◌, ap, All, ◌||◌,
  if◌then◌else◌, inl, inr, ◌≢◌, ◌⊎◌,
}
use workbench_operator.Base.Dict.{Dict}
use workbench_operator.Config.{Config}
use workbench_operator.Kube.{Job, ObjectKey, ObjectMeta, Service}
use workbench_operator.Workbench.{Workbench, WorkbenchApp}
use workbench_operator.Job.{job_name, is_suspended, get_app_name}
use workbench_operator.Workbench.Status.{update_status_from_deployment, update_status_from_job}
use workbench_operator.Deployment.{init_deployment, update_deployment}
use workbench_operator.Storage.{create_pvc as pvc_of}
use workbench_operator.Platform.{Answer, ok, err, Request, list_jobs, Platform, World}
use workbench_operator.Platform.Monad.{returned, pure, stop, failed, api, on_answer, ◌>>=◌}
use workbench_operator.Platform.Contract.{
  Contract, Contract-pure, Contract-stop, Contract-bind, Contract-fact_and, Contract-weaken,
}
use workbench_operator.Platform.Keeps.{Keeps-Contract, Contract-Keeps, keeps_rules}
use workbench_operator.Cluster.{key_of}
use workbench_operator.Cluster.Settled.{
  AllRead, Target, SettledAnswer, create_service_if_missing-read, create_deployment_if_missing-read,
  update_server_pod_health-read,
}
use workbench_operator.Storage.Manager.Settled.{process_enabled_storage-read}
use workbench_operator.Reconcile.{
  append_name, finalizer, ensure_finalizer, save_status, own, push_deployment,
  update_found_deployment, follow_deployment, server_phase, service_phase, storage_phase, prepare,
}

-- The metadata with an owner has the name and the namespace of that without.
abbrev pub IsOwned : ObjectMeta → Answer ObjectMeta → Type 0
IsOwned m (ok m') = key_of m' ≡ key_of m
IsOwned m (err _) = Unit

abbrev pub job_key : Workbench → String → WorkbenchApp → ObjectKey
job_key wb uid app = record { name = job_name wb uid app; namespace = wb.metadata.namespace }

-- The app is named, and either is suspended and has no job, or has one of that name, suspended as
-- the app says, whose status is the one that is recorded.
abbrev pub IsSettledApp : Target → Workbench → String → WorkbenchApp → Type 0
IsSettledApp t wb uid app =
    (get_app_name app ≢ "")
    × (((t.jobs (job_key wb uid app) ≡ none) × (is_suspended app ≡ true))
        ⊎ ((j : Job) × (t.jobs (job_key wb uid app) ≡ some j)
            × (j.metadata.name ≡ job_name wb uid app)
            × (j.suspend ≡ some (is_suspended app))
            × (update_status_from_job wb uid j ≡ (wb, false))))

abbrev pub kept_name : Option Job → String → Option String
kept_name none name = none
kept_name (some _) name = some name

-- The names of the jobs that are in the cluster, in the order of the apps.
abbrev pub names_of : Target → Workbench → Dict WorkbenchApp → List String → List String
names_of t wb [] names = names
names_of t wb ((uid, app) ∷ apps) names =
    names_of t wb apps
      (append_name names (kept_name (t.jobs (job_key wb uid app)) (job_name wb uid app)))

-- The finalizer is set, the deployment has the images that it should have, the status says what it
-- says, every app is settled, and every answer of the platform is settled.
pub record IsSettled (P : Platform) (config : Config) (wb : Workbench) (t : Target) : Type 0 where
  pub held : P.contains_finalizer wb.metadata finalizer ≡ true
  pub images :
      update_deployment (init_deployment wb config) t.deployment ≡ some (t.deployment, false)
  pub status : update_status_from_deployment wb t.deployment ≡ (wb, false)
  pub owner : (m : ObjectMeta) → IsOwned m (P.set_controller_reference wb m)
  pub apps : All (λ (uid, app). IsSettledApp t wb uid app) wb.spec.apps
  pub kept : names_of t wb wb.spec.apps [] ≡ t.kept
  pub answers : (q : Request) (s : P.State) → SettledAnswer wb t (q, (P.answer q s).0)

module _ (P : Platform) (config : Config) (wb : Workbench) (t : Target)
    (settled : IsSettled P config wb t) where
  ensure_finalizer-read :
      Contract AllRead (ensure_finalizer P config wb) (λ r h. (r ≡ wb) × AllRead h) (λ _. AllRead)
  unfolding ensure_finalizer
  ensure_finalizer-read = rw settled.held (Contract-pure _ (λ h i. (refl, i)))

  owned-read :
      (m : ObjectMeta) (a : Answer ObjectMeta)
      → IsOwned m a
      → Contract {P = P} AllRead
          (on_answer a pure (λ e. stop (failed (api e))))
          (λ m' h. (key_of m' ≡ key_of m) × AllRead h)
          (λ _. AllRead)
  owned-read m (ok m') same = Contract-pure _ (λ h i. (same, i))
  owned-read m (err _) same = Contract-stop _ (λ h i. i)

  pub own-read :
      (m : ObjectMeta)
      → Contract AllRead
          (own P config wb m)
          (λ m' h. (key_of m' ≡ key_of m) × AllRead h)
          (λ _. AllRead)
  unfolding own
  own-read m = owned-read m _ (settled.owner m)

  storage_phase-read : Contract AllRead (storage_phase P config wb) (λ _. AllRead) (λ _. AllRead)
  unfolding storage_phase
  storage_phase-read =
      Contract-Keeps AllRead
        (search (keeps_rules, process_enabled_storage-read P config wb t settled.answers))

  service_phase-read : Contract AllRead (service_phase P config wb) (λ _. AllRead) (λ _. AllRead)
  unfolding service_phase
  service_phase-read = Contract-bind _ _ _ (own-read _) (λ m. Contract-fact_and (λ _.
      Contract-bind (λ _. AllRead) _ _ (create_service_if_missing-read P wb t settled.answers _)
        (λ r. Contract-Keeps AllRead (search keeps_rules))))

  update_found_deployment-read :
      (m : ObjectMeta)
      → Contract AllRead
          (update_found_deployment P config
            (record (init_deployment wb config) { metadata = m })
            t.deployment)
          (λ _. AllRead)
          (λ _. AllRead)
  unfolding update_found_deployment push_deployment update_deployment
  update_found_deployment-read m = rw settled.images (Contract-pure _ (λ h i. i))

  follow_deployment-read :
      (m : ObjectMeta)
      → Contract AllRead
          (follow_deployment P config wb
            (record (init_deployment wb config) { metadata = m })
            t.deployment)
          (λ r h. (r ≡ wb) × AllRead h)
          (λ _. AllRead)
  unfolding follow_deployment save_status
  follow_deployment-read m = rw settled.status (
      Contract-bind _ _ _ (update_server_pod_health-read P wb t settled.answers) (λ r.
        Contract-fact_and (λ same. rw same (
          Contract-bind (λ wb3 h. (wb3 ≡ wb) × AllRead h) _ _ (Contract-pure _ (λ h i. (refl, i)))
            (λ wb3. Contract-fact_and (λ kept.
              Contract-bind (λ _. AllRead) _ _ (update_found_deployment-read m)
                (λ _. Contract-pure _ (λ h i. (kept, i)))))))))

  server_phase-read :
      Contract AllRead (server_phase P config wb) (λ r h. (r ≡ wb) × AllRead h) (λ _. AllRead)
  unfolding server_phase
  server_phase-read = Contract-bind _ _ _ (own-read _) (λ m. Contract-fact_and (λ _.
      Contract-bind (λ r h. (r ≡ returned t.deployment) × AllRead h) _ _
        (create_deployment_if_missing-read P wb t settled.answers _)
        (λ r. Contract-fact_and (λ found. rw found (follow_deployment-read m)))))

  pub prepare-read :
      Contract AllRead (prepare P config wb) (λ (wb', _) h. (wb' ≡ wb) × AllRead h) (λ _. AllRead)
  unfolding prepare
  prepare-read = Contract-bind _ _ _ ensure_finalizer-read (λ wb1. Contract-fact_and (λ same1.
      rw same1 (
        Contract-bind _ _ _ server_phase-read (λ wb2. Contract-fact_and (λ same2. rw same2 (
          Contract-bind (λ _. AllRead) _ _ service_phase-read
            (λ service.
              Contract-bind (λ _. AllRead) _ _ storage_phase-read
                (λ _. Contract-pure _ (λ h i. (refl, i))))))))))
