-- ===== src/Job/Init/Laws.antt =====
-- The calls of `initJob`, and what it gives.
use workbench_operator.Base.{String}
use workbench_operator.Config.{Config}
use workbench_operator.Kube.{Service}
use workbench_operator.Workbench.{Workbench, WorkbenchApp}
use workbench_operator.Platform.{Platform}
use workbench_operator.Platform.Only.{Only, Only-map, only_rules}
use workbench_operator.Platform.Requests.{InitRequest, lookup_init}
use workbench_operator.Storage.Manager.{get_volume_and_mount_specs}
use workbench_operator.Storage.Manager.Laws.{get_volume_and_mount_specs-Only}
use workbench_operator.Job.Init.{
  read_collisions, check_image_for_uid_collisions, validate_app_image, init_job,
}

module _ (P : Platform) where
  read_collisions-Only : (tool image : String) → Only InitRequest (read_collisions P tool image)
  unfolding read_collisions
  read_collisions-Only tool image = search (only_rules, tt)

  check_image_for_uid_collisions-Only :
      (image : String) → Only InitRequest (check_image_for_uid_collisions P image)
  unfolding check_image_for_uid_collisions
  check_image_for_uid_collisions-Only image = search (only_rules, tt, read_collisions-Only) depth 8

  validate_app_image-Only : (image : String) → Only InitRequest (validate_app_image P image)
  unfolding validate_app_image
  validate_app_image-Only image = search (only_rules, check_image_for_uid_collisions-Only)

  specs-Only :
      (config : Config) (wb : Workbench) (user namespace : String)
      → Only InitRequest (get_volume_and_mount_specs P config wb user namespace)
  specs-Only config wb user namespace =
      Only-map lookup_init (get_volume_and_mount_specs-Only P config wb user namespace)

  pub init_job-Only :
      (wb : Workbench) (config : Config) (uid : String) (app : WorkbenchApp) (service : Service)
      → Only InitRequest (init_job P wb config uid app service)
  unfolding init_job
  init_job-Only wb config uid app service =
      search (only_rules, specs-Only config, validate_app_image-Only) depth 8
