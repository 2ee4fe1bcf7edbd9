-- ===== src/Controller/Access.antt =====
-- internal/controller/helpers.go, and the opening that the reconcilers of users, user groups and
-- OIDC clients have in common: they resolve the instance, check that it may be referenced, and
-- make an API client.
use Prim.Native.String.{◌++◌ as ◌<>◌}
use pocketid_operator.Base.{String, none, some, is_empty, if◌then◌else◌}
use pocketid_operator.Base.Dict.{get_or_empty}
use pocketid_operator.Error.{Error, plain, wrap, Result, ok, err}
use pocketid_operator.Api.Meta.{CrossNamespaceObjectReference}
use pocketid_operator.Api.Core.{Secret}
use pocketid_operator.Api.Instance.{Instance}
use pocketid_operator.PocketId.Request.{Client, new_client}
use pocketid_operator.World.{Env, M, pure, fetch, on_error, secret_kind, ◌>>=◌}
use pocketid_operator.Controller.References.{
  Verdict, allowed, denied, undecided, validate_cross_namespace_reference,
  resolve_instance_reference,
}

unfoldable pub pocketid_internal_url : String → String → String
pocketid_internal_url name namespace =
    "http://" <> name <> "-svc." <> namespace <> ".svc.cluster.local"

-- The name of the secret that holds the API key of an instance.
abbrev pub api_key_secret_name : Instance → String
api_key_secret_name i = elim i.spec.static_api_key_secret_ref [
  | none ↦ i.name <> "-api-key"
  | some ref ↦ ref.name
]

module _ (env : Env) where
  unfoldable pub get_secret : String → String → M (Result Secret)
  get_secret name namespace = do
    found ← fetch env secret_kind (record { name = name; namespace = namespace })
    on_error found
        (λ e. pure (err (wrap ("failed to get secret " <> namespace <> "/" <> name <> ": ") e)))
        (λ secret. pure (ok secret))

  -- Where to reach the instance; the environment matters only outside a cluster.
  abbrev pub base_url : Instance → String → String
  base_url i default_dev_url =
      let url =
        if is_empty i.status.internal_url
        then pocketid_internal_url i.name i.namespace
        else i.status.internal_url in
      if is_empty (env.getenv "KUBERNETES_SERVICE_HOST")
      then if is_empty (env.getenv "POCKETID_DEV_API_URL")
        then if is_empty default_dev_url then url else default_dev_url
        else env.getenv "POCKETID_DEV_API_URL"
      else url

  unfoldable pub client_with_key : Instance → String → String → Result Client
  client_with_key i default_dev_url api_key =
      if is_empty api_key
      then err (plain "API key not found in secret")
      else ok (new_client (base_url i default_dev_url) api_key)

  unfoldable pub create_api_client_with_dev_default : Instance → String → M (Result Client)
  create_api_client_with_dev_default i default_dev_url = do
    found ← get_secret (api_key_secret_name i) i.namespace
    on_error found (λ e. pure (err e))
        λ secret.
          pure (client_with_key i default_dev_url (get_or_empty "STATIC_API_KEY" secret.contents))

-- The opening of `Reconcile`: a refusal with the reason and the error for the status, or the
-- instance and a client for it.
pub data Access : Type 0 where
  refused : String → Error → Access
  granted : Instance → Client → Access

module _ (env : Env) where
  unfoldable pub make_client : Instance → String → M Access
  make_client i default_dev_url = do
    made ← create_api_client_with_dev_default env i default_dev_url
    on_error made (λ e. pure (refused "APIClientCreationFailed" e)) (λ c. pure (granted i c))

  unfoldable pub admit : Instance → String → Verdict → M Access
  admit i default_dev_url allowed = make_client i default_dev_url
  admit i default_dev_url (denied reason) =
      pure (refused "CrossNamespaceDenied" (plain ("cross-namespace reference denied: " <> reason)))
  admit i default_dev_url (undecided e) = pure (refused "CrossNamespaceValidationFailed" e)

  unfoldable pub access : CrossNamespaceObjectReference → String → String → M Access
  access ref namespace default_dev_url = do
    resolved ← resolve_instance_reference env ref namespace
    on_error resolved (λ e. pure (refused "InstanceNotFound" e))
        λ i. do
          verdict ← validate_cross_namespace_reference env i namespace
          admit i default_dev_url verdict
