-- ===== src/Job/Init/Settled.antt =====
-- initJob where no image has a reserved UID (job.go).
use workbench_operator.Base.{String, List, [], ◌≡◌, refl, ◌≢◌, arith, string_eq}
use workbench_operator.Config.{Config}
use workbench_operator.Kube.{Service, Volume, VolumeMount}
use workbench_operator.Workbench.{Workbench, WorkbenchApp}
use workbench_operator.Job.{app_image, get_app_name, build_job}
use workbench_operator.Platform.{ok, err, Request, look_path, read_passwd, Platform}
use workbench_operator.Platform.Monad.{returned}
use workbench_operator.Platform.Contract.{Contract, Contract-pure, Contract-bind, Contract-fact_and}
use workbench_operator.Platform.Keeps.{Contract-Keeps}
use workbench_operator.Cluster.Settled.{AllRead, Target, SettledAnswer, settled_call}
use workbench_operator.Storage.Manager.Each.{lookup-Keeps}
use workbench_operator.Storage.Manager.Settled.{looked_up}
use workbench_operator.Storage.Manager.Laws.{get_volume_and_mount_specs-Only}
use workbench_operator.Job.Init.{
  read_collisions, check_image_for_uid_collisions, validate_app_image, image_verdict, specs_or_none,
  init_job,
}

module _ (P : Platform) (wb : Workbench) (t : Target)
    (settled : (q : Request) (s : P.State) → SettledAnswer wb t (q, (P.answer q s).0)) where
  read_collisions-none :
      (tool image : String)
      → Contract AllRead (read_collisions P tool image) (λ r h. (r ≡ []) × AllRead h) (λ _. AllRead)
  unfolding read_collisions
  read_collisions-none tool image =
      Contract-bind _ _ _ (settled_call P wb t settled (read_passwd tool image) tt)
        (elim [ ok _ ↦ Contract-pure _ (λ h i. i) | err _ ↦ Contract-pure _ (λ h i. (refl, i.1)) ])

  check-none :
      (image : String)
      → Contract AllRead
          (check_image_for_uid_collisions P image)
          (λ r h. (r ≡ []) × AllRead h)
          (λ _. AllRead)
  unfolding check_image_for_uid_collisions
  check-none image =
      Contract-bind _ _ _ (settled_call P wb t settled (look_path "docker") tt) (elim [
        | ok path ↦ Contract-fact_and (λ _. read_collisions-none path image)
        | err _ ↦ Contract-fact_and (λ _.
            Contract-bind _ _ _ (settled_call P wb t settled (look_path "podman") tt) (elim [
              | ok path ↦ Contract-fact_and (λ _. read_collisions-none path image)
              | err _ ↦ Contract-pure _ (λ h i. (refl, i.1))
            ]))
      ])

  validate_app_image-returned :
      (image : String)
      → Contract AllRead
          (validate_app_image P image)
          (λ r h. (r ≡ returned tt) × AllRead h)
          (λ _. AllRead)
  unfolding validate_app_image image_verdict
  validate_app_image-returned image = Contract-bind _ _ _ (check-none image) (λ found.
      Contract-fact_and (λ none_found. rw none_found (Contract-pure _ (λ h i. (refl, i)))))

  pub init_job-built :
      (config : Config) (uid : String) (app : WorkbenchApp) (service : Service)
      → get_app_name app ≢ ""
      → Contract AllRead
          (init_job P wb config uid app service)
          (λ r h.
            ((vs : List Volume) × (ms : List VolumeMount) × (r
                ≡ returned (build_job wb config uid app service vs ms)))
            × AllRead h)
          (λ _. AllRead)
  unfolding init_job
  init_job-built config uid app service named =
      Contract-bind (λ _. AllRead) _ _
        (Contract-Keeps AllRead (
          lookup-Keeps P config AllRead looked_up _ (
            get_volume_and_mount_specs-Only P config wb wb.spec.server.user wb.metadata.namespace)))
        (λ specs.
          Contract-bind _ _ _ (validate_app_image-returned (app_image config app).0) (λ valid.
            Contract-fact_and (λ good. rw good (
              Contract-pure _
                (λ h i. (((specs_or_none specs).0, (specs_or_none specs).1, ground arith), i))))))
