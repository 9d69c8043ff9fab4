-- ===== src/Job/Init.antt =====
-- `initJob`, with `checkImageForUIDCollisions` and `validateAppImage`, from
-- internal/controller/job.go.
pub mod Laws
pub mod Fits
pub mod Distinct
pub mod Settled
use workbench_operator.Base.{String, ◌<>◌, List, [], ◌∷◌, string_eq, ◌==◌, if◌then◌else◌}
use workbench_operator.Kube.{Service, Job, Volume, VolumeMount}
use workbench_operator.Config.{Config}
use workbench_operator.Workbench.{Workbench, WorkbenchApp}
use workbench_operator.Job.{app_image, get_app_name, build_job}
use workbench_operator.Job.Passwd.{collisions}
use workbench_operator.Platform.{look_path, read_passwd, Platform}
use workbench_operator.Platform.Monad.{
  message, wrapped, Result, returned, error, M, call, pure, ◌>>=◌, on_answer, on_result,
}
use workbench_operator.Storage.Manager.{get_volume_and_mount_specs}

-- `strings.Join(parts, ", ")`
unfoldable pub join : List String → String
join [] = ""
join (p ∷ []) = p
join (p ∷ q ∷ ps) = p <> ", " <> join (q ∷ ps)

-- The name stands in quotes where the code says `%q`, which is exact for a name that needs no
-- escape.

-- No storage where the specs could not be had.
abbrev specs_or_none : Result (List Volume × List VolumeMount) → List Volume × List VolumeMount
specs_or_none (returned specs) = specs
specs_or_none (error _) = ([], [])

image_verdict : String → List String → Result (Unit {0})
unfolding join
image_verdict image [] = returned tt
image_verdict image (c ∷ cs) = error (
    message (
      "image "
      <> image
      <> " contains UIDs in reserved Chorus range (1001-9999): "
      <> join (c ∷ cs)
      <> ". This causes audit trail confusion. See APP-DEVELOPMENT-GUIDELINES.md for details"))

module _ (P : Platform) where
  read_collisions : String → String → M P (List String)
  read_collisions tool image = do
    output ← call P (read_passwd tool image)
    on_answer output (λ text. pure (collisions text)) (λ _. pure [])

  -- Without docker and podman, and where the tool fails, there is nothing to report.
  unfoldable pub check_image_for_uid_collisions : String → M P (List String)
  unfolding read_collisions
  check_image_for_uid_collisions image = do
    docker ← call P (look_path "docker")
    on_answer docker (λ path. read_collisions path image)
        λ _. do
          podman ← call P (look_path "podman")
          on_answer podman (λ path. read_collisions path image) (λ _. pure [])

  unfoldable pub validate_app_image : String → M P (Result (Unit {0}))
  unfolding check_image_for_uid_collisions image_verdict
  validate_app_image image = do
    found ← check_image_for_uid_collisions image
    pure (image_verdict image found)

  unfoldable pub init_job : Workbench → Config → String → WorkbenchApp → Service → M P (Result Job)
  unfolding validate_app_image
  init_job wb config uid app service = do
    specs ← get_volume_and_mount_specs P config wb wb.spec.server.user wb.metadata.namespace
    let image = (app_image config app).0
    valid ← validate_app_image image
    on_result valid
        (λ _. pure (
          if get_app_name app == ""
          then error (
              message ("app.Image is required: app \"" <> app.name <> "\" has no image configured"))
          else returned (
              build_job wb config uid app service (specs_or_none specs).0 (specs_or_none specs).1)))
        (λ e. pure (error (wrapped ("app image validation failed for " <> image) e)))
