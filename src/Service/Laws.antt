-- ===== src/Service/Laws.antt =====
-- The selector of the service.
use workbench_operator.Base.{some, ◌≡◌, refl}
use workbench_operator.Config.{Config}
use workbench_operator.Workbench.{Workbench}
use workbench_operator.Deployment.{init_deployment}
use workbench_operator.Service.{init_service}

-- The service stands in the namespace of the deployment and selects its pods by the very labels that
-- the deployment gives them and selects them by.
init_service-selector :
    (wb : Workbench) (config : Config)
    → let d = init_deployment wb config in
      let s = init_service wb in
      (d.selector ≡ some d.template.labels)
      × (s.selector ≡ d.template.labels)
      × (s.metadata.namespace ≡ d.metadata.namespace)
unfolding init_deployment init_service
init_service-selector wb config = (refl, refl, refl)
