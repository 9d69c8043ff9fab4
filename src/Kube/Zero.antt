-- ===== src/Kube/Zero.antt =====
-- Go's zero values of the objects that the operator builds field by field.
use workbench_operator.Base.{String, none, [], pos}
use workbench_operator.Kube.{
  ObjectMeta, ResourceRequirements, Container, PodSpec, PodTemplate, JobStatus, Labels,
  SecurityContext,
}

abbrev pub object_meta : String → String → Labels → ObjectMeta
object_meta name namespace labels = record {
  name = name;
  namespace = namespace;
  labels = labels;
  annotations = [];
  finalizers = [];
  owners = [];
  deletion_timestamp = none;
}

abbrev pub no_resources : ResourceRequirements
no_resources = record { limits = none; requests = none }

abbrev pub container : String → String → Container
container name image = record {
  name = name;
  image = image;
  image_pull_policy = none;
  restart_policy = none;
  command = [];
  args = [];
  ports = [];
  env = [];
  resources = no_resources;
  volume_mounts = [];
  liveness_probe = none;
  readiness_probe = none;
  security_context = none;
}

abbrev pub pod_spec : PodSpec
pod_spec = record {
  volumes = [];
  init_containers = [];
  containers = [];
  restart_policy = "";
  service_account_name = "";
  priority_class_name = "";
  image_pull_secrets = [];
  hostname = "";
  security_context = none;
}

abbrev pub pod_template : PodTemplate
pod_template = record { labels = []; annotations = []; spec = pod_spec }

abbrev pub job_status : JobStatus
job_status = record { active = pos 0; ready = none; succeeded = pos 0 }

abbrev pub security_context : SecurityContext
security_context = record {
  run_as_user = none;
  run_as_group = none;
  run_as_non_root = none;
  allow_privilege_escalation = none;
  privileged = none;
  capabilities = none;
}
