-- ===== src/Cluster/Settled.antt =====
-- The answers of a cluster where a workbench is as it should be, and the operations of the reconciler
-- on it (workbench_controller.go).
use workbench_operator.Base.{String, Option, true, false, some, none, List, [], ◌≡◌, refl, ap, All}
use workbench_operator.Job.Passwd.{collisions}
use workbench_operator.Names.Laws.{Listed}
use mathlib.Core.Path.{subst}
use workbench_operator.Kube.{Job, ObjectKey, Deployment, Service, Time, Labels}
use workbench_operator.Workbench.{Workbench}
use workbench_operator.Health.{set_server_pod_health}
use workbench_operator.Platform.{
  Answer, ok, err, not_found, other, Request, get_workbench, get_deployment, list_deployments,
  get_service, get_job, list_jobs, list_pods, get_pv, get_pvc, get_csi_driver, get_secret,
  record_event, look_path, read_passwd, Platform, Event,
}
use workbench_operator.Platform.Monad.{returned, error, Error, is_suspended_job, call, read_clock}
use workbench_operator.Platform.Contract.{
  History, Contract, Contract-pure, Contract-stop, Contract-bind, Contract-fact_and,
}
use workbench_operator.Platform.Keeps.{Keeps-Only, Contract-Keeps}
use workbench_operator.Platform.Only.{Only, Only-clock}
use workbench_operator.Cluster.{
  listed_health, create_deployment_if_missing, create_service_if_missing, update_server_pod_health,
  health_by_selector, key_of, create_job_if_missing, asks_suspend,
}

-- The requests that change no object. An event is only a message.
abbrev pub IsRead : Request → Type 0
IsRead q = elim q [
  | get_workbench _ ↦ Unit
  | get_deployment _ ↦ Unit
  | list_deployments _ ↦ Unit
  | get_service _ ↦ Unit
  | get_job _ ↦ Unit
  | list_jobs _ ↦ Unit
  | list_pods _ _ ↦ Unit
  | get_pv _ ↦ Unit
  | get_pvc _ ↦ Unit
  | get_csi_driver _ ↦ Unit
  | get_secret _ ↦ Unit
  | record_event _ _ _ ↦ Unit
  | look_path _ ↦ Unit
  | read_passwd _ _ ↦ Unit
  | _ ↦ ⊥
]

abbrev pub AllRead : History → Type 0
AllRead h = All (λ e. IsRead e.0) h

abbrev pub IsFound : {A : Type 0} → Answer A → Type 0
IsFound (ok _) = Unit
IsFound (err _) = ⊥

abbrev pub Gives : {A : Type 0} → A → Answer A → Type 0
Gives a (ok b) = b ≡ a
Gives a (err _) = ⊥

abbrev pub GivesJob : Option Job → Answer Job → Type 0
GivesJob (some j) r = Gives j r
GivesJob none (ok _) = ⊥
GivesJob none (err not_found) = Unit
GivesJob none (err (other _)) = ⊥

abbrev pub GivesKept : List String → Answer (List Job) → Type 0
GivesKept kept (ok js) = All (λ j. Listed j.metadata.name kept) js
GivesKept kept (err _) = Unit

abbrev pub GivesFree : Answer String → Type 0
GivesFree (ok text) = collisions text ≡ []
GivesFree (err _) = Unit

-- The objects of a workbench in the cluster: its deployment, its jobs by key, and the names of the
-- jobs that are to be kept.
pub record Target : Type 0 where
  pub deployment : Deployment
  pub jobs : ObjectKey → Option Job
  pub kept : List String

-- What an answer says where the cluster is as it should be: the deployment and the jobs are these,
-- the pods give the health that is recorded, the service, the volumes and the claims are there, no
-- other jobs are listed, and no image has a reserved UID.
abbrev pub SettledAnswer : Workbench → Target → Event → Type 0
SettledAnswer wb t (get_deployment _, r) = Gives t.deployment r
SettledAnswer wb t (list_pods _ _, r) =
    (now : Time) → set_server_pod_health wb (listed_health now r) ≡ (wb, false)
SettledAnswer wb t (get_service _, r) = IsFound r
SettledAnswer wb t (get_pv _, r) = IsFound r
SettledAnswer wb t (get_pvc _, r) = IsFound r
SettledAnswer wb t (get_job k, r) = GivesJob (t.jobs k) r
SettledAnswer wb t (list_jobs _, r) = GivesKept t.kept r
SettledAnswer wb t (read_passwd _ _, r) = GivesFree r
SettledAnswer wb t _ = Unit

module _ (P : Platform) (wb : Workbench) (t : Target)
    (settled : (q : Request) (s : P.State) → SettledAnswer wb t (q, (P.answer q s).0)) where
  pub reads :
      {A : Type 0} {Allowed : Request → Type 0} (m : _)
      → ((q : Request) → Allowed q → IsRead q)
      → Only Allowed {P = P} {A = A} m
      → Contract AllRead m (λ _. AllRead) (λ _. AllRead)
  reads m f c = Contract-Keeps AllRead (Keeps-Only AllRead (λ e h a i. (f e.0 a, i)) c)

  pub settled_call :
      (q : Request)
      → IsRead q
      → Contract AllRead (call P q) (λ a h. SettledAnswer wb t (q, a) × AllRead h) (λ _. AllRead)
  unfolding call
  settled_call q a = record { at = λ w i. (settled q w.state, (a, i)) }

  pub create_service_if_missing-read :
      (s : Service) → Contract AllRead (create_service_if_missing P s) (λ _. AllRead) (λ _. AllRead)
  unfolding create_service_if_missing
  create_service_if_missing-read s =
      Contract-bind _ _ _ (settled_call (get_service (key_of s.metadata)) tt) (elim [
        | ok _ ↦ Contract-pure _ (λ h k. k.1)
        | err _ ↦ Contract-fact_and (λ missing. absurd missing)
      ])

  pub create_deployment_if_missing-read :
      (m : Deployment)
      → Contract AllRead
          (create_deployment_if_missing P m)
          (λ r h. (r ≡ returned t.deployment) × AllRead h)
          (λ _. AllRead)
  unfolding create_deployment_if_missing
  create_deployment_if_missing-read m =
      Contract-bind _ _ _ (settled_call (get_deployment (key_of m.metadata)) tt) (elim [
        | ok f ↦ Contract-fact_and (λ same. Contract-pure _ (λ h k. (ap returned same, k)))
        | err _ ↦ Contract-fact_and (λ missing. absurd missing)
      ])

  health_by_selector-read :
      (selector : Option Labels)
      → Contract AllRead
          (health_by_selector P wb selector)
          (λ r h. (r ≡ (wb, false)) × AllRead h)
          (λ _. AllRead)
  unfolding health_by_selector
  health_by_selector-read none = Contract-stop _ (λ h i. i)
  health_by_selector-read (some labels) =
      Contract-bind _ _ _ (settled_call (list_pods wb.metadata.namespace labels) tt) (λ listed.
        Contract-fact_and (λ same.
          Contract-bind (λ _. AllRead) _ _
            (reads (read_clock P) (λ q a. absurd a) (Only-clock {Allowed = λ _. ⊥} P))
            (λ now. Contract-pure _ (λ h i. (same now, i)))))

  pub update_server_pod_health-read :
      Contract AllRead
        (update_server_pod_health P wb t.deployment)
        (λ r h. (r ≡ (wb, false)) × AllRead h)
        (λ _. AllRead)
  unfolding update_server_pod_health
  update_server_pod_health-read = health_by_selector-read t.deployment.selector

  settled_job :
      (k : ObjectKey) (o : Option Job)
      → t.jobs k ≡ o
      → Contract AllRead (call P (get_job k)) (λ r h. GivesJob o r × AllRead h) (λ _. AllRead)
  settled_job k o e =
      subst
        (λ x.
          Contract AllRead (call P (get_job k)) (λ r h. GivesJob x r × AllRead h) (λ _. AllRead))
        e (settled_call (get_job k) tt)

  pub create_job_if_missing-found :
      (j f : Job)
      → t.jobs (key_of j.metadata) ≡ some f
      → Contract AllRead
          (create_job_if_missing P j)
          (λ r h. (r ≡ returned (some f)) × AllRead h)
          (λ _. AllRead)
  unfolding create_job_if_missing
  create_job_if_missing-found j f e =
      Contract-bind _ _ _ (settled_job (key_of j.metadata) (some f) e) (elim [
        | ok g ↦
            Contract-fact_and
              (λ same. Contract-pure _ (λ h i. (ap (λ x. returned (some x)) same, i)))
        | err _ ↦ Contract-fact_and (λ missing. absurd missing)
      ])

  -- The error that says that the job is to be suspended.
  pub create_job_if_missing-suspended :
      (j : Job)
      → t.jobs (key_of j.metadata) ≡ none
      → asks_suspend j.suspend ≡ true
      → Contract AllRead
          (create_job_if_missing P j)
          (λ r h. ((e : Error) × (r ≡ error e) × (is_suspended_job e ≡ true)) × AllRead h)
          (λ _. AllRead)
  unfolding create_job_if_missing
  create_job_if_missing-suspended j e s =
      Contract-bind _ _ _ (settled_job (key_of j.metadata) none e) (elim [
        | ok g ↦ Contract-fact_and (λ found. absurd found)
        | err not_found ↦ rw s (Contract-pure _ (λ h (_, i). ((_, refl, refl), i)))
        | err (other _) ↦ Contract-fact_and (λ failed. absurd failed)
      ])
