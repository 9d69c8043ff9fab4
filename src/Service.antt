-- ===== src/Service.antt =====
-- internal/controller/service.go: the service in front of the Xpra server.
pub mod Laws
use workbench_operator.Base.{[], ◌∷◌}
use workbench_operator.Kube.{Service, from_string, from_int}
use workbench_operator.Kube.Zero.{object_meta}
use workbench_operator.Deployment.{workbench_labels}
use workbench_operator.Workbench.{Workbench}

unfoldable pub init_service : Workbench → Service
init_service wb = record {
  metadata = object_meta wb.metadata.name wb.metadata.namespace (workbench_labels wb);
  selector = workbench_labels wb;
  ports =
      record { name = "http"; port = 8080; target_port = from_string "http"; protocol = "TCP" }
      ∷ record { name = "x11-socket"; port = 6080; target_port = from_int 6080; protocol = "TCP" }
      ∷ [];
  service_type = "ClusterIP";
}
