-- ===== src/Job/Init/Fits.antt =====
-- What initJob gives (job.go).
use workbench_operator.Base.{
  String, ◌<>◌, Bool, true, false, Option, none, some, List, Option-cases, ◌≡◌, refl, ◌≢◌, ◌⊎◌, inl,
  inr, arith, string_eq, ◌==◌, if◌then◌else◌, Bool-cases,
}
use workbench_operator.Config.{Config}
use workbench_operator.Kube.{Service, Job, Volume, VolumeMount}
use workbench_operator.Workbench.{Workbench, WorkbenchApp, Image}
use workbench_operator.Base.Text.Laws.{Lacks, IsLastPart}
use mathlib.Core.Path.{subst}
use workbench_operator.Job.{app_image, get_app_name, build_job, job_name, is_suspended}
use workbench_operator.Job.Laws.{get_app_name_lem, MountsDeclared, build_job-MountsDeclared}
use workbench_operator.Platform.{Platform, World}
use workbench_operator.Platform.Monad.{Error, wrapped, Result, returned, error, value}
use workbench_operator.Platform.Total.{Total, total_rules}
use workbench_operator.Platform.Contract.{
  Contract, Contract-pure, Contract-bind, Contract-Total, Contract-fact, Contract-result,
}
use workbench_operator.Storage.Manager.{get_volume_and_mount_specs}
use workbench_operator.Storage.Manager.Specs.{GivesDeclared, get_volume_and_mount_specs-Declared}
use workbench_operator.Job.Init.{
  read_collisions, check_image_for_uid_collisions, validate_app_image, specs_or_none, init_job,
}

-- The name of an app: the last part of the repository of its image.
abbrev pub IsNameOf : WorkbenchApp → String → Type 0
IsNameOf app name =
    (image : Image) × (app.image ≡ some image) × Lacks b'/' name × IsLastPart name image.repository

-- The app runs where its state is empty or "Running", and is suspended in every other state.
abbrev pub IsSuspendedFor : WorkbenchApp → Option Bool → Type 0
IsSuspendedFor app suspend =
    (((app.state ≡ "") ⊎ (app.state ≡ "Running")) × (suspend ≡ some false))
    ⊎ ((app.state ≢ "") × (app.state ≢ "Running") × (suspend ≡ some true))

-- The job of an app.
pub record IsJobFor (wb : Workbench) (uid : String) (app : WorkbenchApp) (job : Job) : Type 0 where
  pub name : job.metadata.name ≡ wb.metadata.name <> "-" <> uid <> "-" <> app.name
  pub namespace : job.metadata.namespace ≡ wb.metadata.namespace
  pub suspended : IsSuspendedFor app job.suspend
  pub named : (name : String) × IsNameOf app name × (name ≢ "")
  pub mounts : MountsDeclared job.template.spec

-- The image was refused by the validation, which says why.
abbrev pub IsRefusal : Config → WorkbenchApp → Error → Type 0
IsRefusal config app e =
    (why : Error) × (e
      ≡ wrapped ("app image validation failed for " <> (app_image config app).0) why)

abbrev pub FitsApp : Workbench → Config → String → WorkbenchApp → Result Job → Type 0
FitsApp wb config uid app (returned job) = IsJobFor wb uid app job
FitsApp wb config uid app (error e) = (app.image ≡ none) ⊎ IsNameOf app "" ⊎ IsRefusal config app e

is_suspended_lem : (app : WorkbenchApp) → IsSuspendedFor app (some (is_suspended app))
unfolding is_suspended
is_suspended_lem app = ground arith

no_name : (app : WorkbenchApp) → app.image ≡ none → get_app_name app ≡ ""
unfolding get_app_name
no_name app e = rw (e, get_app_name) refl

named_app :
    (app : WorkbenchApp) → get_app_name app ≢ "" → (name : String) × IsNameOf app name × (name ≢ "")
named_app app n = elim (Option-cases app.image) [
  | inl e ↦ absurd (n (no_name app e))
  | inr (image, e) ↦
      let (lacks, last) = get_app_name_lem app image e in
      (get_app_name app, (image, e, lacks, last), n)
]

unnamed_app : (app : WorkbenchApp) → get_app_name app ≡ "" → (app.image ≡ none) ⊎ IsNameOf app ""
unnamed_app app n = elim (Option-cases app.image) [
  | inl e ↦ inl e
  | inr (image, e) ↦
      let (lacks, last) = get_app_name_lem app image e in
      inr (subst (IsNameOf app) n (image, e, lacks, last))
]

module _ (P : Platform) where
  read_collisions-Total : (tool image : String) → Total (read_collisions P tool image)
  unfolding read_collisions
  read_collisions-Total tool image = search total_rules

  check-Total : (image : String) → Total (check_image_for_uid_collisions P image)
  unfolding check_image_for_uid_collisions
  check-Total image = search (total_rules, read_collisions-Total) depth 8

  validate_app_image-Total : (image : String) → Total (validate_app_image P image)
  unfolding validate_app_image
  validate_app_image-Total image = search (total_rules, check-Total)

module _ (wb : Workbench) (config : Config) (uid : String) (app : WorkbenchApp)
    (service : Service) where
  build_job-IsJobFor :
      (vs : List Volume) (ms : List VolumeMount)
      → GivesDeclared (returned (vs, ms))
      → get_app_name app ≢ ""
      → IsJobFor wb uid app (build_job wb config uid app service vs ms)
  unfolding build_job job_name
  build_job-IsJobFor vs ms d n = record {
    name = refl;
    namespace = refl;
    suspended = is_suspended_lem app;
    named = named_app app n;
    mounts = build_job-MountsDeclared wb config uid app service vs ms d;
  }

  validated-FitsApp :
      (specs : Result (List Volume × List VolumeMount)) (e : Error)
      → GivesDeclared specs
      → FitsApp wb config uid app (
          if get_app_name app == ""
          then error e
          else returned
              (build_job wb config uid app service (specs_or_none specs).0 (specs_or_none specs).1))
  validated-FitsApp (returned (vs, ms)) e d = elim (Bool-cases (get_app_name app == "")) [
    | inl unnamed ↦
        rw unnamed (elim (unnamed_app app (ground arith)) [ inl e ↦ inl e | inr n ↦ inr (inl n) ])
    | inr named ↦ rw named (build_job-IsJobFor vs ms d (ground arith))
  ]
  validated-FitsApp (error _) e d = absurd d

  -- What `initJob` gives, from what the storage manager gives: the job that is built from that, the
  -- error of an app without a name, or the refusal of its image.
  pub init_job-Contract :
      (P : Platform) (Given : Result (List Volume × List VolumeMount) → Type 0)
      (Good : Result Job → Type 0)
      → Contract
          (λ _. Unit {0})
          (get_volume_and_mount_specs P config wb wb.spec.server.user wb.metadata.namespace)
          (λ specs _. Given specs)
          (λ _ _. ⊥)
      → ((specs : Result (List Volume × List VolumeMount)) (e : Error)
          → Given specs
          → Good (
              if get_app_name app == ""
              then error e
              else returned (
                  build_job wb config uid app service
                    (specs_or_none specs).0
                    (specs_or_none specs).1)))
      → ((e why : Error)
          → e ≡ wrapped ("app image validation failed for " <> (app_image config app).0) why
          → Good (error e))
      → Contract (λ _. Unit {0}) (init_job P wb config uid app service) (λ r _. Good r) (λ _ _. ⊥)
  unfolding init_job
  init_job-Contract P Given Good given built refused =
      Contract-bind (λ specs _. Given specs) _ _ given
        (λ specs. Contract-fact (λ holds.
          Contract-bind (λ _ _. Unit {0}) _ _
            (Contract-Total (validate_app_image-Total P (app_image config app).0))
            (elim [
              | returned _ ↦ Contract-pure _ (λ _ _. built specs _ holds)
              | error why ↦ Contract-pure _ (λ _ _. refused _ why refl)
            ])))

-- Whatever the platform answers, `initJob` ends in a value. If that is a job, its name is the names of
-- the workbench, of its key in the map and of the app, with dashes between them, and its namespace is
-- the one of the workbench; it is not suspended where the state of the app is empty or "Running", and
-- suspended in every other state; its mounts name its volumes; and the app has an image, the last part
-- of whose repository is not empty. If it is an error, the app has no image, or the last part of its
-- repository is empty, or the error says that the validation failed for the app's image.
pub init_job_lem :
    (P : Platform) (wb : Workbench) (config : Config) (uid : String) (app : WorkbenchApp)
    (service : Service) (w : World P)
    → (r : Result Job) × ((init_job P wb config uid app service w).0 ≡ value r)
      × FitsApp wb config uid app r
init_job_lem P wb config uid app service w =
    Contract-result
      (init_job-Contract wb config uid app service P GivesDeclared (FitsApp wb config uid app)
        (get_volume_and_mount_specs-Declared P config wb wb.spec.server.user wb.metadata.namespace)
        (validated-FitsApp wb config uid app service) (λ e why p. inr (inr (why, p))))
      w tt
