-- ===== src/Controller/Instance/Workload.antt =====
-- internal/controller/instance_workload.go, where the owner is set by the caller's argument.
pub mod Consistent
use Prim.Native.String.{◌++◌ as ◌<>◌}
use pocketid_operator.Base.{
  ℕ, String, Bool, true, false, is_empty, if◌then◌else◌, Option, none, some, List, [], ◌∷◌,
}
use pocketid_operator.Base.Integer.{ℤ, pos, print_int}
use pocketid_operator.Base.Dict.{Dict, insert}
use pocketid_operator.Error.{Error, Result, ok, err}
use pocketid_operator.Api.Meta.{ObjectMeta, named}
use pocketid_operator.Api.Core.{ConfigMap, Service, ServicePort}
use pocketid_operator.Api.Instance.{
  Instance, SecretKeySelector, PvcConfig, SmtpConfig, InstanceSpec,
}
use pocketid_operator.Api.Workload.{
  Container, StatefulSet, PodTemplate, Container, EnvSource, config_map_ref, secret_ref, Probe,
  VolumeMount, VolumeClaim,
}
use pocketid_operator.World.{Env, instance_kind}

abbrev pub config_map_name : Instance → String
config_map_name i = i.name <> "-config"

abbrev pub service_name : Instance → String
service_name i = i.name <> "-svc"

-- `%t`
abbrev pub print_bool : Bool → String
print_bool true = "true"
print_bool false = "false"

abbrev pub secret_name_or : Option SecretKeySelector → String → String
secret_name_or none default = default
secret_name_or (some ref) default = ref.name

unfoldable pub instance_labels : Instance → Dict String
instance_labels i =
    ("app.kubernetes.io/name", "pocketid")
    ∷ ("app.kubernetes.io/instance", i.name)
    ∷ ("app.kubernetes.io/managed-by", "pocketid-operator")
    ∷ []

abbrev pub add_smtp : Option SmtpConfig → Dict String → Dict String
add_smtp none contents = contents
add_smtp (some smtp) contents = insert "SMTP_TLS" (print_bool smtp.tls) (
    insert "SMTP_FROM" smtp.from
      (insert "SMTP_PORT" (print_int smtp.port) (insert "SMTP_HOST" smtp.host contents)))

unfoldable pub config_of : InstanceSpec → Dict String
config_of spec = add_smtp spec.smtp (
    ("APP_URL", spec.app_url)
    ∷ ("TRUST_PROXY", print_bool spec.trust_proxy)
    ∷ ("SESSION_DURATION", print_int spec.session_duration)
    ∷ ("DB_PROVIDER", spec.database.provider)
    ∷ [])

abbrev pub health_probe : ℕ → ℕ → Probe
health_probe delay period = record {
  path = "/healthz";
  port = 1411;
  initial_delay_seconds = delay;
  period_seconds = period;
}

-- The one container of the pods.
unfoldable pub pod_container : Instance → Container
pod_container i = record {
  name = "pocketid";
  image = if is_empty i.spec.image then "ghcr.io/pocket-id/pocket-id:latest" else i.spec.image;
  port_name = "http";
  container_port = 1411;
  protocol = "TCP";
  env_from =
      config_map_ref (config_map_name i)
      ∷ secret_ref (secret_name_or i.spec.encryption_key_secret_ref (i.name <> "-encryption-key"))
      ∷ secret_ref (secret_name_or i.spec.static_api_key_secret_ref (i.name <> "-api-key"))
      ∷ [];
  resources = i.spec.resources;
  readiness_probe = health_probe 30 10;
  liveness_probe = health_probe 45 20;
  volume_mounts = record { name = "data"; mount_path = "/app/data" } ∷ [];
}

unfoldable pub pod_template : Instance → PodTemplate
pod_template i = record { labels = instance_labels i; containers = pod_container i ∷ [] }

abbrev pub replicas_of : Option ℤ → ℤ
replicas_of none = pos 1
replicas_of (some n) = n

abbrev pub storage_size : Option PvcConfig → String
storage_size none = "1Gi"
storage_size (some pvc) = if is_empty pvc.size then "1Gi" else pvc.size

abbrev pub storage_class : Option PvcConfig → Option String
storage_class none = none
storage_class (some pvc) = pvc.storage_class_name

module _ (env : Env) where
  -- The zero quantity stands for a failed parse.
  abbrev pub quantity_or_zero : Result ℕ → ℕ
  quantity_or_zero (ok q) = q
  quantity_or_zero (err e) = 0

  unfoldable pub parse_storage_quantity : Option PvcConfig → ℕ
  parse_storage_quantity pvc = elim (env.parse_quantity (storage_size pvc)) [
    | ok q ↦ q
    | err e ↦ quantity_or_zero (env.parse_quantity "1Gi")
  ]

  -- `ownerSetter` applied to the metadata of an object of the instance.
  unfoldable pub owned : Instance → String → Result ObjectMeta
  owned i name = env.set_controller_reference instance_kind i.metadata (named name i.namespace)

  unfoldable pub desired_instance_config_map : Instance → Result ConfigMap
  desired_instance_config_map i = elim (owned i (config_map_name i)) [
    | err e ↦ err e
    | ok metadata ↦ ok (record { metadata = metadata; contents = config_of i.spec })
  ]

  unfoldable pub desired_instance_service : Instance → Result Service
  desired_instance_service i = elim (owned i (service_name i)) [
    | err e ↦ err e
    | ok metadata ↦ ok (record {
      metadata = metadata;
      selector = instance_labels i;
      ports = record { name = "http"; port = 80; target_port = 1411; protocol = "TCP" } ∷ [];
    })
  ]

  unfoldable pub desired_instance_stateful_set : Instance → Result StatefulSet
  desired_instance_stateful_set i = elim (owned i i.name) [
    | err e ↦ err e
    | ok metadata ↦ ok (record {
      metadata = metadata;
      replicas = replicas_of i.spec.replicas;
      service_name = service_name i;
      match_labels = instance_labels i;
      template = pod_template i;
      volume_claim_templates =
          record {
            name = "data";
            access_modes = "ReadWriteOnce" ∷ [];
            storage = parse_storage_quantity i.spec.storage.pvc;
            storage_class_name = storage_class i.spec.storage.pvc;
          }
          ∷ [];
      ready_replicas = pos 0;
    })
  ]
