-- ===== src/Tests/Clients.antt =====
-- The theorems on OIDC clients.
use pocketid_operator.Base.{◌≡◌, refl, ◌↔◌, true, false, some, [], ◌∷◌}
use pocketid_operator.Base.Order.{sort}
use pocketid_operator.Error.{ok}
use pocketid_operator.Api.Meta.{Key}
use pocketid_operator.Api.OidcClient.{OidcClient}
use pocketid_operator.PocketId.Types.{OidcClient as RemoteClient, zero_client}
use pocketid_operator.PocketId.Request.{
  Client, answered, undecodable, secret_payload, client_payload, as_secret,
}
use pocketid_operator.PocketId.Client.{read_response}
use pocketid_operator.PocketId.Client.Response.{Succeeds, read_response-ok_iff}
use pocketid_operator.World.{Env}
use pocketid_operator.Controller.OidcClient.Compare.{
  equal_strings, equal_user_group_ids, needs_oidc_client_update,
}
use pocketid_operator.Controller.OidcClient.Compare.Agreement.{
  Agrees, needs_oidc_client_update-false_iff,
}
use pocketid_operator.Controller.OidcClient.Groups.{minimal, resolve_allowed_user_groups}
use pocketid_operator.Controller.OidcClient.Groups.{oidc_clients_referencing_user_group}
use pocketid_operator.Controller.OidcClient.Groups.Watch.{
  IsRequested, Refers, oidc_clients_referencing_user_group_iff,
}
use pocketid_operator.Controller.OidcClient.Groups.Resolved.{
  Resolves, resolve_allowed_user_groups-ok_iff,
}
use pocketid_operator.Controller.OidcClient.Credentials.{ensure_credentials_secret}
use pocketid_operator.Controller.OidcClient.Credentials.Issued.{
  Ensured, ensure_credentials_secret-either,
}
use pocketid_operator.Controller.OidcClient.Policy.{ensure_security_policy}
use pocketid_operator.Controller.OidcClient.Policy.Effect.{PolicyEffect}
use pocketid_operator.Controller.OidcClient.Policy.Gateway.{ensure_security_policy-effect}
use pocketid_operator.Controller.OidcClient.Remote.{resolve_or_create_client}
use pocketid_operator.Controller.OidcClient.Remote.Outcomes.{Resolution}
use pocketid_operator.Controller.OidcClient.Remote.Resolution.{resolve_or_create_client-Resolution}
use pocketid_operator.Tests.Sample.{instance, user, group, oidc_client, environment}

abbrev api : Client
api = record { base_url = "http://main-svc.auth.svc.cluster.local"; api_key = "k" }

abbrev remote : RemoteClient
remote = record zero_client { id = "c1"; name = "my-app"; callback_urls = "b" ∷ "a" ∷ [] }

abbrev reordered : RemoteClient
reordered = record remote { callback_urls = "a" ∷ "b" ∷ [] }

abbrev granting : Env
granting = environment user group oidc_client (answered 200 "" (secret_payload "s3cret"))

abbrev found : Env
found = environment user group oidc_client (answered 200 "" (client_payload remote))

abbrev protected_client : OidcClient
protected_client = record oidc_client {
  spec = record oidc_client.spec {
    envoy_gateway = some (record {
      enabled = true;
      http_route_ref = some (record { name = "my-app"; namespace = "" });
      callback_path = "";
      logout_path = "";
    });
  };
  status = record oidc_client.status { credentials_secret_name = "my-app-credentials" };
}

ensure_credentials_secret-either_example :
    Ensured granting api oidc_client remote instance []
      (ensure_credentials_secret granting api oidc_client remote instance []).0
      (ensure_credentials_secret granting api oidc_client remote instance []).1
ensure_credentials_secret-either_example =
    ensure_credentials_secret-either granting api oidc_client remote instance []

resolve_allowed_user_groups-ok_iff_example :
    ((resolve_allowed_user_groups granting "auth" instance
        (record { name = "developers" } ∷ [])
        []).0
      ≡ ok (minimal group ∷ []))
    ↔ Resolves granting "auth" instance []
        (record { name = "developers" } ∷ [])
        (minimal group ∷ [])
resolve_allowed_user_groups-ok_iff_example =
    resolve_allowed_user_groups-ok_iff granting "auth" instance []
      (record { name = "developers" } ∷ []) (minimal group ∷ [])

ensure_security_policy-effect_example :
    PolicyEffect granting protected_client instance []
      (ensure_security_policy granting protected_client instance []).0
      (ensure_security_policy granting protected_client instance []).1
ensure_security_policy-effect_example =
    ensure_security_policy-effect granting protected_client instance []

resolve_or_create_client-Resolution_example :
    Resolution found api oidc_client [] []
      (resolve_or_create_client found api oidc_client [] []).0
      (resolve_or_create_client found api oidc_client [] []).1
resolve_or_create_client-Resolution_example =
    resolve_or_create_client-Resolution found api oidc_client [] []

needs_oidc_client_update-false_iff_example :
    (needs_oidc_client_update remote reordered ≡ false) ↔ Agrees remote reordered
needs_oidc_client_update-false_iff_example = needs_oidc_client_update-false_iff remote reordered

read_response-ok_iff_example :
    (read_response as_secret "" (answered 200 "" (secret_payload "s")) ≡ ok "s")
    ↔ Succeeds as_secret "" "s" (answered 200 "" (secret_payload "s"))
read_response-ok_iff_example =
    read_response-ok_iff as_secret "" (answered 200 "" (secret_payload "s")) "s"

abbrev referring : OidcClient
referring = record oidc_client {
  spec = record oidc_client.spec { allowed_user_group_refs = record { name = "developers" } ∷ [] };
}

abbrev watching : Env
watching = environment user group referring (answered 200 "" undecodable)

abbrev app_key : Key
app_key = record { name = "my-app"; namespace = "auth" }

oidc_clients_referencing_user_group_iff_example :
    IsRequested app_key (oidc_clients_referencing_user_group watching group []).0
    ↔ Refers "developers" app_key (referring ∷ [])
oidc_clients_referencing_user_group_iff_example =
    oidc_clients_referencing_user_group_iff watching group [] (referring ∷ []) refl app_key

-- Runs of the definitions.
reordered_agrees : needs_oidc_client_update remote reordered ≡ false
unfolding needs_oidc_client_update equal_strings sort equal_user_group_ids
reordered_agrees = refl

different_counts : equal_strings ("a" ∷ "b" ∷ "a" ∷ []) ("a" ∷ "b" ∷ "b" ∷ []) ≡ false
unfolding equal_strings sort
different_counts = refl
