-- ===== src/Tests/Settled.antt =====
-- Runs on a client that is in sync, and on one that has a gateway but no name of its secret.
use pocketid_operator.Base.{◌≡◌, refl, true, [], ◌∷◌, some, is_some}
use pocketid_operator.Controller.OidcClient.Reconcile.Stuck.{unrecorded, reconcile-client_stuck}
use pocketid_operator.Controller.OidcClient.Reconcile.Progress.{IsLive}
use pocketid_operator.Base.Order.{sort}
use pocketid_operator.Error.{Result, ok}
use pocketid_operator.Api.Meta.{Key}
use pocketid_operator.Api.OidcClient.{OidcClient}
use pocketid_operator.PocketId.Types.{OidcClient as RemoteClient, zero_client}
use pocketid_operator.PocketId.Request.{Client, new_client, answered, client_payload}
use pocketid_operator.PocketId.Client.{get_oidc_client, do_request, read_response}
use pocketid_operator.World.{
  Env, History, Kind, Carrier, secret_kind, oidc_client_kind, fetch, send, ◌>>=◌,
}
use pocketid_operator.Controller.References.{
  resolve_instance_reference, validate_cross_namespace_reference,
}
use pocketid_operator.Controller.Access.{
  access, admit, make_client, create_api_client_with_dev_default, get_secret, client_with_key,
  pocketid_internal_url,
}
use pocketid_operator.Controller.Settled.{StatusOnly}
use pocketid_operator.Controller.Settled.OidcClient.{IsSettled, stored_in}
use pocketid_operator.Controller.OidcClient.Groups.{resolve_allowed_user_groups}
use pocketid_operator.Controller.OidcClient.Compare.{
  needs_oidc_client_update, equal_strings, equal_user_group_ids,
}
use pocketid_operator.Controller.OidcClient.Compare.Agreement.{needs_oidc_client_update-false_iff}
use pocketid_operator.Controller.OidcClient.Credentials.{ensure_credentials_secret}
use pocketid_operator.Controller.OidcClient.Reconcile.{oidc_client_finalizer}
use pocketid_operator.Operator.Setup.{oidc_client_controller, setup_with_manager}
use pocketid_operator.Operator.Runs.{run}
use pocketid_operator.Operator.Settled.{client, run-in_sync}
use pocketid_operator.Tests.Sample.{
  instance, user, group, oidc_client, environment, api_key_secret, sample_get,
}

abbrev o : OidcClient
o = record oidc_client {
  metadata = record oidc_client.metadata { finalizers = oidc_client_finalizer ∷ [] };
}

abbrev remote : RemoteClient
remote = record zero_client {
  id = "c1";
  name = "my-app";
  callback_urls = "https://app.example.com/callback" ∷ [];
  pkce_enabled = true;
}

-- The one secret has the key of the instance and the secret of the client.
abbrev get : (k : Kind) → History → Key → Result (Carrier k)
get secret_kind h key = ok (record api_key_secret {
  contents = ("STATIC_API_KEY", "k") ∷ ("OIDC_CLIENT_SECRET", "s3cret") ∷ [];
})
get k h key = sample_get user group o k h key

abbrev env : Env
env = record (environment user group o (answered 200 "" (client_payload remote))) { get = get }

abbrev key : Key
key = record { name = "my-app"; namespace = "auth" }

abbrev api : Client
api = record { base_url = "http://main-svc.auth.svc.cluster.local"; api_key = "k" }

client-IsSettled : IsSettled env key [] o instance api [] remote o
unfolding access resolve_instance_reference validate_cross_namespace_reference admit make_client
    create_api_client_with_dev_default get_secret client_with_key pocketid_internal_url new_client
    resolve_allowed_user_groups get_oidc_client do_request read_response needs_oidc_client_update
    equal_strings equal_user_group_ids ensure_credentials_secret sort send fetch ◌>>=◌
client-IsSettled = record {
  live = record { found = refl; not_deleted = refl; opened = refl; held = refl };
  grouped = refl;
  has_client = refl;
  client = refl;
  agrees = (needs_oidc_client_update-false_iff _ _).0 refl;
  has_credentials = stored_in _ _ refl refl refl refl;
  no_gateway = refl;
  no_policy = refl;
  reread = refl;
  stored = λ history x. (x, refl);
}

run-in_sync_example :
    StatusOnly
      (setup_with_manager oidc_client_controller).resource
      []
      (run env oidc_client_controller key [])
run-in_sync_example =
    run-in_sync env key [] oidc_client_controller
      (client o instance api [] remote o client-IsSettled)

-- The same client with a gateway, and an environment that gives it.
abbrev guarded : OidcClient
guarded = record o {
  spec = record o.spec {
    envoy_gateway = some (record {
      enabled = true;
      http_route_ref = some (record { name = "my-app"; namespace = "" });
      callback_path = "";
      logout_path = "";
    });
  };
}

abbrev get_guarded : (k : Kind) → History → Key → Result (Carrier k)
get_guarded oidc_client_kind h name = ok guarded
get_guarded k h name = get k h name

abbrev gateway_env : Env
gateway_env = record env { get = get_guarded }

guarded_is_live : IsLive gateway_env key [] guarded instance api
unfolding access resolve_instance_reference validate_cross_namespace_reference admit make_client
    create_api_client_with_dev_default get_secret client_with_key pocketid_internal_url new_client
    fetch ◌>>=◌
guarded_is_live = record { found = refl; not_deleted = refl; opened = refl; held = refl }

reconcile-client_stuck_example :
    is_some (run gateway_env oidc_client_controller key []).0.error ≡ true
reconcile-client_stuck_example =
    reconcile-client_stuck gateway_env key [] guarded instance api guarded_is_live (_, refl, refl)
      (unrecorded refl (λ h. stored_in _ _ refl refl refl refl))
