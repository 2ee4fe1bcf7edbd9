-- ===== src/Tests/Guarded.antt =====
-- A route that asks for a gateway, and the client that it makes.
use pocketid_operator.Base.{◌≡◌, ◌↔◌, refl, true, [], ◌∷◌, none, some, string_eq}
use pocketid_operator.Base.Lists.{contains}
use pocketid_operator.Api.Core.{HttpRoute, SecurityPolicy}
use pocketid_operator.Api.Meta.{CrossNamespaceObjectReference, named}
use pocketid_operator.Api.OidcClient.{OidcClient, EnvoyGatewayConfig}
use pocketid_operator.PocketId.Request.{answered, undecodable}
use pocketid_operator.World.{
  Env, History, Kind, Carrier, http_route_kind, create, update, fetch_all, fetch, put, ◌>>=◌,
}
use pocketid_operator.Error.{Result, ok}
use pocketid_operator.Api.Meta.{Key}
use pocketid_operator.Controller.References.{
  resolve_instance_reference, validate_cross_namespace_reference,
}
use pocketid_operator.Controller.References.Rules.{same_namespace}
use pocketid_operator.Controller.HttpRoute.Desired.{
  client_name, redirect_uris, desired_client, overwrite_spec, parse_allowed_group_refs,
}
use pocketid_operator.Controller.HttpRoute.Reconcile.{
  single_instance, choose_instance, write_client, apply_client, apply_route, with_choice,
  reconcile_route,
}
use pocketid_operator.Controller.HttpRoute.Reconcile.Managed.{Manages}
use pocketid_operator.Controller.OidcClient.Policy.{
  policy_spec, build_security_policy, write_policy, apply_policy, protect_route, enable_policy,
  ensure_security_policy,
}
use pocketid_operator.Controller.OidcClient.Policy.Effect.{Protects}
use pocketid_operator.Operator.Guarded.{IsRegistered, reconcile_route-guarded}
use pocketid_operator.Tests.Sample.{
  instance, user, group, oidc_client, environment, route, sample_get,
}

abbrev guarded : HttpRoute
guarded = record route {
  metadata = record route.metadata {
    annotations =
        ("pocketid.tobiash.github.io/oidc-enabled", "true")
        ∷ ("pocketid.tobiash.github.io/envoy-gateway", "true")
        ∷ [];
  };
}

-- The client of an earlier run, which has its id and its secret by now.
abbrev existing : OidcClient
existing = record oidc_client {
  status = record oidc_client.status { credentials_secret_name = "my-app-oidc-credentials" };
}

abbrev get : (k : Kind) → History → Key → Result (Carrier k)
get http_route_kind h key = ok guarded
get k h key = sample_get user group existing k h key

abbrev env : Env
env = record (environment user group existing (answered 200 "" undecodable)) { get = get }

abbrev main : CrossNamespaceObjectReference
main = record { name = "main"; namespace = none }

abbrev managed : OidcClient
managed = record existing {
  spec = overwrite_spec existing.spec (desired_client guarded main (redirect_uris guarded)).spec;
}

manages_route : Manages env guarded [] (reconcile_route env guarded []).1
unfolding reconcile_route choose_instance with_choice apply_route apply_client write_client
    desired_client overwrite_spec redirect_uris parse_allowed_group_refs client_name
    resolve_instance_reference validate_cross_namespace_reference single_instance fetch_all fetch
    put ◌>>=◌
manages_route = record {
  enabled = refl;
  at = [];
  instance = instance;
  ref = main;
  at_read = [];
  found = refl;
  may_reference = same_namespace refl;
  verb = update;
  client = managed;
  client_ref = refl;
  urls = refl;
  has_urls = refl;
  groups = refl;
  gateway = refl;
  one_effect = refl;
}

abbrev gateway : EnvoyGatewayConfig
gateway = record {
  enabled = true;
  http_route_ref = some (record { name = "my-app"; namespace = "auth" });
  callback_path = "";
  logout_path = "";
}

abbrev policy : SecurityPolicy
policy = record {
  metadata = named "my-app" "auth";
  spec = policy_spec managed gateway instance guarded "app.example.com";
}

protects_route :
    Protects env managed instance []
      (ensure_security_policy env managed instance []).0
      (ensure_security_policy env managed instance []).1
unfolding ensure_security_policy enable_policy protect_route apply_policy build_security_policy
    write_policy desired_client overwrite_spec client_name fetch put ◌>>=◌
protects_route = record {
  eg = gateway;
  is_protected = record {
    configured = refl;
    enabled = refl;
    has_client = refl;
    has_credentials = refl;
    ref = record { name = "my-app"; namespace = "auth" };
    names_route = refl;
  };
  route = guarded;
  found = refl;
  host = "app.example.com";
  other_hosts = [];
  hosts = refl;
  verb = create;
  policy = policy;
  spec = refl;
  at_write = [];
  result = refl;
  one_effect = refl;
}

reconcile_route-guarded_example :
    (protects_route.policy.spec.target_name ≡ "my-app")
    × (protects_route.policy.spec.client_id ≡ "c1")
    × (protects_route.policy.spec.client_secret_name ≡ "my-app-oidc-credentials")
    × ((contains managed.spec.callback_urls protects_route.policy.spec.redirect_url ≡ true)
        ↔ IsRegistered guarded protects_route.host)
unfolding manages_route overwrite_spec
reconcile_route-guarded_example =
    reconcile_route-guarded env guarded [] manages_route managed instance [] protects_route refl
      refl refl refl
