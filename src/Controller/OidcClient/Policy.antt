-- ===== src/Controller/OidcClient/Policy.antt =====
-- internal/controller/securitypolicy.go
pub mod Effect
pub mod Gateway
use Prim.Native.String.{◌++◌ as ◌<>◌}
use pocketid_operator.Base.{
  String, Bool, true, false, is_empty, if◌then◌else◌, Option, none, some, List, [], ◌∷◌,
}
use pocketid_operator.Base.Text.{trim_right_slashes}
use pocketid_operator.Error.{Error, plain, wrap, is_not_found, Result, ok, err}
use pocketid_operator.Api.Meta.{Key, key_of, named, NamespacedObjectReference}
use pocketid_operator.Api.Core.{HttpRoute, SecurityPolicy, SecurityPolicySpec}
use pocketid_operator.Api.Instance.{Instance}
use pocketid_operator.Api.OidcClient.{OidcClient, EnvoyGatewayConfig}
use pocketid_operator.World.{
  Env, M, pure, on_error, on_nil, fetch, put, create, update, delete, security_policy_kind,
  http_route_kind, oidc_client_kind, ◌>>=◌,
}

abbrev pub or_default : String → String → String
or_default s default = if is_empty s then default else s

-- `oidcClient.Status.SecurityPolicyName = …`
abbrev pub with_policy_name : OidcClient → String → OidcClient
with_policy_name oidc name = record oidc {
  status = record oidc.status { security_policy_name = name };
}

-- The map that is stored under "spec".
unfoldable pub policy_spec :
    OidcClient → EnvoyGatewayConfig → Instance → HttpRoute → String → SecurityPolicySpec
policy_spec oidc eg i route hostname =
    let app_url = trim_right_slashes i.spec.app_url in
    record {
      target_group = "gateway.networking.k8s.io";
      target_kind = "HTTPRoute";
      target_name = route.name;
      issuer = app_url;
      authorization_endpoint = app_url <> "/authorize";
      token_endpoint = app_url <> "/api/oidc/token";
      client_id = oidc.status.client_id;
      client_secret_name = oidc.status.credentials_secret_name;
      redirect_url = "https://" <> hostname <> or_default eg.callback_path "/oauth2/callback";
      logout_path = or_default eg.logout_path "/logout";
    }

module _ (env : Env) (oidc : OidcClient) (i : Instance) where
  unfoldable pub build_security_policy : EnvoyGatewayConfig → HttpRoute → Result SecurityPolicy
  build_security_policy eg route = elim route.hostnames [
    | [] ↦ err (plain ("HTTPRoute " <> route.namespace <> "/" <> route.name <> " has no hostnames"))
    | hostname ∷ rest ↦
        elim (env.set_controller_reference oidc_client_kind oidc.metadata
          (named oidc.name oidc.namespace)) [
            | err e ↦ err (wrap "failed to set controller reference: " e)
            | ok metadata ↦
                ok (record { metadata = metadata; spec = policy_spec oidc eg i route hostname })
          ]
  ]

  abbrev pub policy_key : Key
  policy_key = key_of oidc.metadata

  -- The branch for a gateway that is not enabled.
  unfoldable pub delete_existing : Result SecurityPolicy → M (Result OidcClient)
  delete_existing (err e) = pure (ok (with_policy_name oidc ""))
  delete_existing (ok existing) = do
    deleted ← put env delete security_policy_kind existing
    on_error deleted (λ e. pure (err (wrap "failed to delete SecurityPolicy: " e)))
        (λ p. pure (ok (with_policy_name oidc "")))

  unfoldable pub remove_policy : M (Result OidcClient)
  remove_policy =
      if is_empty oidc.status.security_policy_name
      then pure (ok oidc)
      else (do found ← fetch env security_policy_kind policy_key; delete_existing found)

  unfoldable pub write_policy : SecurityPolicy → Result SecurityPolicy → M (Result OidcClient)
  write_policy desired (err e) =
      if is_not_found e
      then (do
        created ← put env create security_policy_kind desired
        on_error created (λ x. pure (err (wrap "failed to create SecurityPolicy: " x)))
            (λ p. pure (ok (with_policy_name oidc oidc.name))))
      else pure (err (wrap "failed to get SecurityPolicy: " e))
  write_policy desired (ok existing) = do
    updated ← put env update security_policy_kind (record existing { spec = desired.spec })
    on_error updated (λ x. pure (err (wrap "failed to update SecurityPolicy: " x)))
        (λ p. pure (ok (with_policy_name oidc oidc.name)))

  unfoldable pub apply_policy : EnvoyGatewayConfig → HttpRoute → M (Result OidcClient)
  apply_policy eg route =
      on_error (build_security_policy eg route)
        (λ e. pure (err (wrap "failed to build SecurityPolicy: " e)))
        λ desired. do found ← fetch env security_policy_kind policy_key; write_policy desired found

  unfoldable pub protect_route :
      EnvoyGatewayConfig → NamespacedObjectReference → M (Result OidcClient)
  protect_route eg ref =
      let namespace = or_default ref.namespace oidc.namespace in
      do
        found ← fetch env http_route_kind (record { name = ref.name; namespace = namespace })
        on_error found
            (λ e.
              pure
                (err (wrap ("failed to get HTTPRoute " <> namespace <> "/" <> ref.name <> ": ") e)))
            (apply_policy eg)

  unfoldable pub enable_policy : EnvoyGatewayConfig → M (Result OidcClient)
  enable_policy eg =
      if is_empty oidc.status.client_id
      then pure (err (plain "cannot create SecurityPolicy: client ID not yet available"))
      else if is_empty oidc.status.credentials_secret_name
      then pure (err (plain "cannot create SecurityPolicy: credentials secret not yet available"))
      else on_nil eg.http_route_ref
          (pure (err (plain "envoyGateway.httpRouteRef is required when envoyGateway is enabled")))
          (protect_route eg)

  unfoldable pub ensure_security_policy : M (Result OidcClient)
  ensure_security_policy =
      on_nil oidc.spec.envoy_gateway remove_policy
        (λ eg. if eg.enabled then enable_policy eg else remove_policy)
