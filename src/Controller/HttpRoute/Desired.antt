-- ===== src/Controller/HttpRoute/Desired.antt =====
-- `parseAllowedGroupRefs` and the middle of `Reconcile` of httproute_controller.go
pub mod Uris
pub mod Refs
use Prim.Native.String.{◌++◌ as ◌<>◌}
use pocketid_operator.Base.{
  String, Bool, true, false, ◌==◌, string_eq, is_empty, if◌then◌else◌, Option, none, some, List, [],
  ◌∷◌, ◌++◌, map,
}
use pocketid_operator.Base.Text.{split, trim_space}
use pocketid_operator.Base.Lists.{contains}
use pocketid_operator.Base.Dict.{get_or_empty}
use pocketid_operator.Api.Meta.{
  named, LocalObjectReference, NamespacedObjectReference, CrossNamespaceObjectReference,
}
use pocketid_operator.Api.Core.{HttpRoute}
use pocketid_operator.Api.OidcClient.{
  OidcClient, OidcClientSpec, OidcClientStatus, EnvoyGatewayConfig,
}

abbrev pub annotation_oidc_enabled : String
annotation_oidc_enabled = "pocketid.tobiash.github.io/oidc-enabled"

abbrev pub annotation_instance : String
annotation_instance = "pocketid.tobiash.github.io/instance"

abbrev pub annotation_client_name : String
annotation_client_name = "pocketid.tobiash.github.io/client-name"

abbrev pub annotation_redirect_paths : String
annotation_redirect_paths = "pocketid.tobiash.github.io/redirect-paths"

abbrev pub annotation_allowed_groups : String
annotation_allowed_groups = "pocketid.tobiash.github.io/allowed-groups"

abbrev pub annotation_envoy_gateway : String
annotation_envoy_gateway = "pocketid.tobiash.github.io/envoy-gateway"

-- `route.Annotations[…]`
abbrev pub annotation : HttpRoute → String → String
annotation route key = get_or_empty key route.metadata.annotations

-- The loop of `parseAllowedGroupRefs`, with the names seen so far.
unfoldable pub collect_refs : List String → List String → List LocalObjectReference
collect_refs [] seen = []
collect_refs (part ∷ parts) seen =
    let name = trim_space part in
    let skipped = collect_refs parts seen in
    let taken = record { name = name } ∷ collect_refs parts (name ∷ seen) in
    if is_empty name then skipped else if contains seen name then skipped else taken

unfoldable pub parse_allowed_group_refs : String → List LocalObjectReference
parse_allowed_group_refs text = if is_empty text then [] else collect_refs (split b',' text) []

unfoldable pub client_name : HttpRoute → String
client_name route =
    let name = annotation route annotation_client_name in
    if is_empty name then route.name <> "-oidc" else name

abbrev pub uri : String → String → String
uri host path = "https://" <> host <> path

-- The two loops over the hosts and the paths.
abbrev pub uris_of_host : String → List String → List String
uris_of_host host [] = []
uris_of_host host (path ∷ paths) = uri host (trim_space path) ∷ uris_of_host host paths

abbrev pub uris_of_hosts : List String → List String → List String
uris_of_hosts [] paths = []
uris_of_hosts (host ∷ hosts) paths = uris_of_host host paths ++ uris_of_hosts hosts paths

abbrev pub default_uri : String → String
default_uri host = "https://" <> host <> "/oauth2/callback"

unfoldable pub redirect_uris : HttpRoute → List String
redirect_uris route =
    let paths = annotation route annotation_redirect_paths in
    if is_empty paths
    then map default_uri route.hostnames
    else uris_of_hosts route.hostnames (split b',' paths)

abbrev pub uses_envoy_gateway : HttpRoute → Bool
uses_envoy_gateway route = annotation route annotation_envoy_gateway == "true"

-- `desired`, before its controller reference is set.
unfoldable pub desired_client : HttpRoute → CrossNamespaceObjectReference → List String → OidcClient
desired_client route ref uris = record {
  metadata = named (client_name route) route.namespace;
  spec = record {
    instance_ref = ref;
    name = client_name route;
    client_id = "";
    is_public = false;
    callback_urls = uris;
    logout_callback_urls = [];
    allowed_user_group_refs = parse_allowed_group_refs (annotation route annotation_allowed_groups);
    credentials_secret_ref =
        if uses_envoy_gateway route
        then some (record { name = client_name route <> "-credentials" })
        else none;
    pkce_enabled = false;
    http_route_selector = none;
    envoy_gateway =
        if uses_envoy_gateway route
        then some (record {
          enabled = true;
          http_route_ref = some (record { name = route.name; namespace = route.namespace });
          callback_path = "";
          logout_path = "";
        })
        else none;
  };
  status = record {
    conditions = [];
    ready = false;
    client_id = "";
    synced = false;
    last_sync_time = none;
    credentials_secret_name = "";
    security_policy_name = "";
    observed_generation = 0;
  };
}

-- The fields of an existing client that the reconciler overwrites.
unfoldable pub overwrite_spec : OidcClientSpec → OidcClientSpec → OidcClientSpec
overwrite_spec existing desired = record existing {
  callback_urls = desired.callback_urls;
  instance_ref = desired.instance_ref;
  allowed_user_group_refs = desired.allowed_user_group_refs;
  envoy_gateway = desired.envoy_gateway;
  credentials_secret_ref = desired.credentials_secret_ref;
}
