-- ===== src/Api/OidcClient.antt =====
-- api/v1alpha1/pocketidoidcclient_types.go
use pocketid_operator.Base.{ℕ, Bool, String, Option, List}
use pocketid_operator.Api.Meta.{
  Time, ObjectMeta, Condition, LabelSelector, LocalObjectReference, NamespacedObjectReference,
  CrossNamespaceObjectReference,
}

pub record EnvoyGatewayConfig : Type 0 where
  pub enabled : Bool
  pub http_route_ref : Option NamespacedObjectReference
  pub callback_path : String
  pub logout_path : String

pub record OidcClientSpec : Type 0 where
  pub instance_ref : CrossNamespaceObjectReference
  pub name : String
  pub client_id : String
  pub is_public : Bool
  pub callback_urls : List String
  pub logout_callback_urls : List String
  pub allowed_user_group_refs : List LocalObjectReference
  pub credentials_secret_ref : Option LocalObjectReference
  pub pkce_enabled : Bool
  pub http_route_selector : Option LabelSelector
  pub envoy_gateway : Option EnvoyGatewayConfig

pub record OidcClientStatus : Type 0 where
  pub conditions : List Condition
  pub ready : Bool
  pub client_id : String
  pub synced : Bool
  pub last_sync_time : Option Time
  pub credentials_secret_name : String
  pub security_policy_name : String
  pub observed_generation : ℕ

pub record OidcClient : Type 0 where
  pub metadata : ObjectMeta
  pub open metadata use {name, namespace}
  pub spec : OidcClientSpec
  pub status : OidcClientStatus
