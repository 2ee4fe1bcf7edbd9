-- ===== src/Api/Instance.antt =====
-- api/v1alpha1/pocketidinstance_types.go
use pocketid_operator.Base.{ℕ, Bool, String, Option, List}
use pocketid_operator.Base.Dict.{Dict}
use pocketid_operator.Base.Integer.{ℤ}
use pocketid_operator.Api.Meta.{ObjectMeta, Condition, LabelSelector, LocalObjectReference}

pub record InitialAdminConfig : Type 0 where
  pub username : String
  pub email : String
  pub first_name : String
  pub display_name : String

pub record SecretKeySelector : Type 0 where
  pub name : String
  pub key : String

pub record DatabaseConfig : Type 0 where
  pub provider : String
  pub postgres_secret_ref : Option LocalObjectReference

pub record PvcConfig : Type 0 where
  pub storage_class_name : Option String
  pub size : String

pub record S3Config : Type 0 where
  pub endpoint : String
  pub bucket : String
  pub region : String
  pub secret_ref : LocalObjectReference

pub record StorageConfig : Type 0 where
  pub pvc : Option PvcConfig
  pub s3 : Option S3Config

pub record SmtpConfig : Type 0 where
  pub host : String
  pub port : ℤ
  pub from : String
  pub secret_ref : Option LocalObjectReference
  pub tls : Bool

-- `type FromNamespaces string`: the three constants, and any other text.
pub data FromNamespaces : Type 0 where
  from_all from_same from_selector : FromNamespaces
  from_other : String → FromNamespaces

pub record NamespacesFrom : Type 0 where
  pub from : Option FromNamespaces
  pub selector : Option LabelSelector

pub record AllowedReferences : Type 0 where
  pub namespaces : Option NamespacesFrom

-- `corev1.ResourceRequirements`, handed on as it is.
pub record ResourceRequirements : Type 0 where
  pub limits : Dict String
  pub requests : Dict String

pub record InstanceSpec : Type 0 where
  pub app_url : String
  pub image : String
  pub replicas : Option ℤ
  pub encryption_key_secret_ref : Option SecretKeySelector
  pub static_api_key_secret_ref : Option SecretKeySelector
  pub database : DatabaseConfig
  pub storage : StorageConfig
  pub smtp : Option SmtpConfig
  pub session_duration : ℤ
  pub trust_proxy : Bool
  pub resources : ResourceRequirements
  pub initial_admin : Option InitialAdminConfig
  pub allowed_references : Option AllowedReferences

pub record InstanceStatus : Type 0 where
  pub conditions : List Condition
  pub ready : Bool
  pub internal_url : String
  pub version : String
  pub static_api_key_secret_name : String
  pub observed_generation : ℕ

pub record Instance : Type 0 where
  pub metadata : ObjectMeta
  pub open metadata use {name, namespace}
  pub spec : InstanceSpec
  pub status : InstanceStatus
