-- ===== src/Controller/OidcClient/Reconcile.antt =====
-- `Reconcile`, `handleDeletion` and `updateErrorStatus` of pocketidoidcclient_controller.go
pub mod Progress
pub mod Failures
pub mod Stuck
use pocketid_operator.Base.{String, true, false, is_empty, is_some, if◌then◌else◌, some, List}
use pocketid_operator.Error.{Error, Result, ok}
use pocketid_operator.Api.Meta.{Key, key_of}
use pocketid_operator.Api.Instance.{Instance}
use pocketid_operator.Api.OidcClient.{OidcClient}
use pocketid_operator.PocketId.Types.{OidcClient as RemoteClient, UserGroupMinimal}
use pocketid_operator.PocketId.Request.{Client}
use pocketid_operator.PocketId.Client.{delete_oidc_client}
use pocketid_operator.World.{
  Env, M, pure, on_error, fetch, put, clock, update, update_status, oidc_client_kind, ◌>>=◌, ◌>>◌,
}
use pocketid_operator.Controller.Outcome.{
  Outcome, finished, failed, again_after, failed_after, ignore_not_found,
}
use pocketid_operator.Controller.Status.{set_synced_condition, set_error_condition}
use pocketid_operator.Controller.Access.{Access, refused, granted, access}
use pocketid_operator.Controller.OidcClient.Groups.{resolve_allowed_user_groups, group_error_reason}
use pocketid_operator.Controller.OidcClient.Remote.{resolve_or_create_client}
use pocketid_operator.Controller.OidcClient.Credentials.{ensure_credentials_secret}
use pocketid_operator.Controller.OidcClient.Policy.{ensure_security_policy}

abbrev pub oidc_client_finalizer : String
oidc_client_finalizer = "pocketid.tobiash.github.io/finalizer"

module _ (env : Env) where
  unfoldable pub update_error_status : OidcClient → String → Error → M Outcome
  update_error_status oidc reason e = do
    conditions ← set_error_condition env oidc.status.conditions oidc.metadata.generation reason e
    put env update_status oidc_client_kind (record oidc {
      status = record oidc.status { ready = false; synced = false; conditions = conditions };
    })
    pure (failed_after 30 e)

  unfoldable pub update_oidc_group_reference_error_status : OidcClient → Error → M Outcome
  update_oidc_group_reference_error_status oidc e =
      update_error_status oidc (group_error_reason e) e

  unfoldable pub drop_finalizer : OidcClient → M Outcome
  drop_finalizer oidc = do
    written ←
        put env update oidc_client_kind
          (record oidc { metadata = env.remove_finalizer oidc.metadata oidc_client_finalizer })
    on_error written (λ e. pure (failed e)) (λ g. pure finished)

  unfoldable pub delete_remote : OidcClient → Client → M Outcome
  delete_remote oidc api = do
    deleted ← delete_oidc_client env api oidc.status.client_id
    on_error deleted (update_error_status oidc "DeleteOIDCClientFailed") (λ _. drop_finalizer oidc)

  unfoldable pub handle_deletion : OidcClient → Client → M Outcome
  handle_deletion oidc api =
      if env.contains_finalizer oidc.metadata oidc_client_finalizer
      then if is_empty oidc.status.client_id then drop_finalizer oidc else delete_remote oidc api
      else pure finished

  unfoldable pub ensure_finalizer : OidcClient → M (Result OidcClient)
  ensure_finalizer oidc =
      if env.contains_finalizer oidc.metadata oidc_client_finalizer
      then pure (ok oidc)
      else put env update oidc_client_kind
          (record oidc { metadata = env.add_finalizer oidc.metadata oidc_client_finalizer })

  -- The status of a client in sync, on the resource as it was read again; `oidc` is the resource
  -- before that.
  unfoldable pub write_synced : OidcClient → OidcClient → RemoteClient → M Outcome
  write_synced latest oidc remote = do
    now ← clock env
    conditions ←
        set_synced_condition env latest.status.conditions latest.metadata.generation
          "OIDC Client synced successfully"
    written ← put env update_status oidc_client_kind (record latest {
      status = record latest.status {
        conditions = conditions;
        ready = true;
        client_id = remote.id;
        synced = true;
        last_sync_time = some now;
        credentials_secret_name = oidc.status.credentials_secret_name;
        security_policy_name = oidc.status.security_policy_name;
      };
    })
    on_error written (λ e. pure (failed e)) (λ g. pure (again_after 300))

  unfoldable pub finish : OidcClient → RemoteClient → M Outcome
  finish oidc remote = do
    found ← fetch env oidc_client_kind (key_of oidc.metadata)
    on_error found (λ e. pure (failed e)) (λ latest. write_synced latest oidc remote)

  unfoldable pub protect : Instance → RemoteClient → OidcClient → M Outcome
  protect i remote oidc = do
    done ← ensure_security_policy env oidc i
    on_error done (update_error_status oidc "SecurityPolicyFailed") (λ oidc'. finish oidc' remote)

  unfoldable pub publish : Instance → Client → RemoteClient → OidcClient → M Outcome
  publish i api remote oidc = do
    stored ← ensure_credentials_secret env api oidc remote i
    on_error stored (λ e. pure (failed e)) (protect i remote)

  unfoldable pub sync_remote : Instance → Client → OidcClient → List UserGroupMinimal → M Outcome
  sync_remote i api oidc groups = do
    resolved ← resolve_or_create_client env api oidc groups
    on_error resolved (update_error_status oidc "ClientSyncFailed")
        (λ (remote, oidc'). publish i api remote oidc')

  unfoldable pub sync_client : Instance → Client → OidcClient → M Outcome
  sync_client i api oidc = do
    groups ← resolve_allowed_user_groups env oidc.namespace i oidc.spec.allowed_user_group_refs
    on_error groups (update_oidc_group_reference_error_status oidc) (sync_remote i api oidc)

  unfoldable pub reconcile_live : Instance → Client → OidcClient → M Outcome
  reconcile_live i api oidc = do
    ensured ← ensure_finalizer oidc
    on_error ensured (λ e. pure (failed e)) (sync_client i api)

  unfoldable pub reconcile_with : OidcClient → Access → M Outcome
  reconcile_with oidc (refused reason e) = update_error_status oidc reason e
  reconcile_with oidc (granted i api) =
      if is_some oidc.metadata.deletion_timestamp
      then handle_deletion oidc api
      else reconcile_live i api oidc

  unfoldable pub reconcile_client : OidcClient → M Outcome
  reconcile_client oidc = do
    opened ← access env oidc.spec.instance_ref oidc.namespace "http://localhost:8080"
    reconcile_with oidc opened

  unfoldable pub reconcile : Key → M Outcome
  reconcile key = do
    found ← fetch env oidc_client_kind key
    on_error found (λ e. pure (ignore_not_found e)) reconcile_client
