-- ===== src/Api/Core.antt =====
-- The objects of other API groups that the controllers handle.
use pocketid_operator.Base.{ℕ, String, List}
use pocketid_operator.Base.Dict.{Dict}
use pocketid_operator.Api.Meta.{ObjectMeta}

-- The type of a secret is always `Opaque`.
pub record Secret : Type 0 where
  pub metadata : ObjectMeta
  pub contents : Dict String

pub record Namespace : Type 0 where
  pub metadata : ObjectMeta

pub record ConfigMap : Type 0 where
  pub metadata : ObjectMeta
  pub contents : Dict String

pub record ServicePort : Type 0 where
  pub name : String
  pub port : ℕ
  pub target_port : ℕ
  pub protocol : String

pub record Service : Type 0 where
  pub metadata : ObjectMeta
  pub selector : Dict String
  pub ports : List ServicePort

pub record HttpRoute : Type 0 where
  pub metadata : ObjectMeta
  pub open metadata use {name, namespace}
  pub hostnames : List String

-- The `spec` of an Envoy Gateway `SecurityPolicy`, which the operator writes as nested maps.
pub record SecurityPolicySpec : Type 0 where
  pub target_group : String
  pub target_kind : String
  pub target_name : String
  pub issuer : String
  pub authorization_endpoint : String
  pub token_endpoint : String
  pub client_id : String
  pub client_secret_name : String
  pub redirect_url : String
  pub logout_path : String

pub record SecurityPolicy : Type 0 where
  pub metadata : ObjectMeta
  pub spec : SecurityPolicySpec
