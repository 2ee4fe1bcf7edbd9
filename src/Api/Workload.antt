-- ===== src/Api/Workload.antt =====
-- The `appsv1.StatefulSet` that runs PocketID, in the fields that instance_workload.go sets.
use pocketid_operator.Base.{ℕ, String, Option, List}
use pocketid_operator.Base.Dict.{Dict}
use pocketid_operator.Base.Integer.{ℤ}
use pocketid_operator.Api.Meta.{ObjectMeta}
use pocketid_operator.Api.Instance.{ResourceRequirements}

pub data EnvSource : Type 0 where
  config_map_ref secret_ref : String → EnvSource

pub record Probe : Type 0 where
  pub path : String
  pub port : ℕ
  pub initial_delay_seconds : ℕ
  pub period_seconds : ℕ

pub record VolumeMount : Type 0 where
  pub name : String
  pub mount_path : String

pub record Container : Type 0 where
  pub name : String
  pub image : String
  pub port_name : String
  pub container_port : ℕ
  pub protocol : String
  pub env_from : List EnvSource
  pub resources : ResourceRequirements
  pub readiness_probe : Probe
  pub liveness_probe : Probe
  pub volume_mounts : List VolumeMount

pub record PodTemplate : Type 0 where
  pub labels : Dict String
  pub containers : List Container

pub record VolumeClaim : Type 0 where
  pub name : String
  pub access_modes : List String
  pub storage : ℕ
  pub storage_class_name : Option String

-- `replicas` is a pointer in Go. The operator always sets it, and the API server fills it in.
pub record StatefulSet : Type 0 where
  pub metadata : ObjectMeta
  pub replicas : ℤ
  pub service_name : String
  pub match_labels : Dict String
  pub template : PodTemplate
  pub volume_claim_templates : List VolumeClaim
  pub ready_replicas : ℤ
