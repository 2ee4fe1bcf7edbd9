-- ===== src/Controller/OidcClient/Credentials.antt =====
-- `ensureCredentialsSecret` of pocketidoidcclient_controller.go
pub mod Contents
pub mod Issued
use pocketid_operator.Base.{
  String, Bool, true, false, is_some, if◌then◌else◌, Option, none, some, List, [], ◌∷◌,
}
use pocketid_operator.Base.Dict.{Dict, lookup, insert}
use pocketid_operator.Error.{Error, is_not_found, Result, ok, err}
use pocketid_operator.Api.Meta.{named}
use pocketid_operator.Api.Core.{Secret}
use pocketid_operator.Api.Instance.{Instance}
use pocketid_operator.Api.OidcClient.{OidcClient}
use pocketid_operator.PocketId.Types.{OidcClient as RemoteClient}
use pocketid_operator.PocketId.Request.{Client}
use pocketid_operator.PocketId.Client.{generate_client_secret}
use pocketid_operator.World.{
  Env, M, pure, on_error, on_nil, fetch, put, Verb, create, update, secret_kind, oidc_client_kind,
  ◌>>=◌,
}

abbrev pub with_credentials : String → String → String → Dict String → Dict String
with_credentials client_id client_secret issuer contents = insert "client-secret" client_secret (
    insert "OIDC_ISSUER_URL" issuer
      (insert "OIDC_CLIENT_SECRET" client_secret (insert "OIDC_CLIENT_ID" client_id contents)))

-- `oidcClient.Status.CredentialsSecretName = secretName`
abbrev pub with_secret_name : OidcClient → String → OidcClient
with_secret_name oidc name = record oidc {
  status = record oidc.status { credentials_secret_name = name };
}

-- Each step gives the resource with the status that it leaves.
module _ (env : Env) (api : Client) (oidc : OidcClient) (remote : RemoteClient) (i : Instance) where
  unfoldable pub write_credentials : Verb → Secret → String → M (Result OidcClient)
  write_credentials verb secret name = do
    generated ← generate_client_secret env api remote.id
    on_error generated (λ e. pure (err e))
        λ client_secret. do
          written ← put env verb secret_kind (record secret {
            contents = with_credentials remote.id client_secret i.spec.app_url secret.contents;
          })
          on_error written (λ e. pure (err e)) (λ s. pure (ok (with_secret_name oidc name)))

  unfoldable pub create_credentials : String → M (Result OidcClient)
  create_credentials name =
      on_error
        (env.set_controller_reference oidc_client_kind oidc.metadata (named name oidc.namespace))
        (λ e. pure (err e))
        λ metadata. write_credentials create (record { metadata = metadata; contents = [] }) name

  unfoldable pub complete_credentials : Secret → String → M (Result OidcClient)
  complete_credentials secret name =
      if is_some (lookup "OIDC_CLIENT_SECRET" secret.contents)
      then pure (ok oidc)
      else write_credentials update secret name

  unfoldable pub with_secret : Result Secret → String → M (Result OidcClient)
  with_secret (err e) name = if is_not_found e then create_credentials name else pure (err e)
  with_secret (ok secret) name = complete_credentials secret name

  unfoldable pub store_credentials : String → M (Result OidcClient)
  store_credentials name = do
    found ← fetch env secret_kind (record { name = name; namespace = oidc.namespace })
    with_secret found name

  unfoldable pub ensure_credentials_secret : M (Result OidcClient)
  ensure_credentials_secret =
      if oidc.spec.is_public
      then pure (ok oidc)
      else on_nil oidc.spec.credentials_secret_ref (pure (ok oidc))
          (λ ref. store_credentials ref.name)
