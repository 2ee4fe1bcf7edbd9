-- ===== src/Controller/OidcClient/Remote.antt =====
-- `resolveOrCreateClient` of pocketidoidcclient_controller.go
pub mod Outcomes
pub mod Resolution
pub mod Kept
use pocketid_operator.Base.{
  String, Bool, true, false, not, ◌==◌, string_eq, is_empty, if◌then◌else◌, Option, none, some,
  List, [], ◌∷◌,
}
use pocketid_operator.Base.Lists.{is_nil}
use pocketid_operator.Error.{Error, wrap, Result, ok, err}
use pocketid_operator.Api.OidcClient.{OidcClient, OidcClientSpec}
use pocketid_operator.PocketId.Types.{OidcClient as RemoteClient, UserGroupMinimal}
use pocketid_operator.PocketId.Request.{Client}
use pocketid_operator.PocketId.Client.{
  get_oidc_client, list_oidc_clients, create_oidc_client, update_oidc_client,
}
use pocketid_operator.World.{Env, M, pure, on_error, ◌>>=◌}
use pocketid_operator.Controller.OidcClient.Compare.{needs_oidc_client_update}

-- `targetClient`
abbrev pub target_client : OidcClientSpec → List UserGroupMinimal → RemoteClient
target_client spec groups = record {
  id = spec.client_id;
  name = spec.name;
  callback_urls = spec.callback_urls;
  is_public = spec.is_public;
  pkce_enabled = spec.pkce_enabled;
  is_group_restricted = not (is_nil groups);
  allowed_user_groups = groups;
  has_logo = false;
}

-- The loop over the listed clients.
abbrev pub find_client : String → List RemoteClient → Option RemoteClient
find_client name [] = none
find_client name (c ∷ cs) = if c.name == name then some c else find_client name cs

-- The client in PocketID, and the resource with the status that the call leaves.
abbrev pub Resolved : Type 0
Resolved = Result (RemoteClient × OidcClient)

module _ (env : Env) (api : Client) where
  unfoldable pub create_remote : OidcClient → RemoteClient → M Resolved
  create_remote oidc target = do
    created ← create_oidc_client env api target
    on_error created (λ e. pure (err (wrap "CreateOIDCClientFailed: " e)))
        λ remote.
          pure (ok (remote, record oidc { status = record oidc.status { client_id = remote.id } }))

  unfoldable pub update_remote : OidcClient → RemoteClient → RemoteClient → M Resolved
  update_remote oidc current target =
      if needs_oidc_client_update current target
      then (do
        updated ← update_oidc_client env api current.id target
        on_error updated (λ e. pure (err (wrap "UpdateOIDCClientFailed: " e)))
            λ remote. pure (ok (remote, oidc)))
      else pure (ok (current, oidc))

  unfoldable pub create_or_update :
      OidcClient → List UserGroupMinimal → Option RemoteClient → M Resolved
  create_or_update oidc groups none = create_remote oidc (target_client oidc.spec groups)
  create_or_update oidc groups (some current) =
      update_remote oidc current (record (target_client oidc.spec groups) { id = current.id })

  unfoldable pub get_remote : OidcClient → List UserGroupMinimal → M Resolved
  get_remote oidc groups = do
    found ← get_oidc_client env api oidc.status.client_id
    on_error found (λ e. pure (err (wrap "GetOIDCClientFailed: " e)))
        λ remote. create_or_update oidc groups (some remote)

  unfoldable pub search_remote : OidcClient → List UserGroupMinimal → M Resolved
  search_remote oidc groups = do
    listed ← list_oidc_clients env api
    on_error listed (λ e. pure (err (wrap "ListOIDCClientsFailed: " e)))
        λ clients. create_or_update oidc groups (find_client oidc.spec.name clients)

  unfoldable pub resolve_or_create_client : OidcClient → List UserGroupMinimal → M Resolved
  resolve_or_create_client oidc groups =
      if is_empty oidc.status.client_id then search_remote oidc groups else get_remote oidc groups
