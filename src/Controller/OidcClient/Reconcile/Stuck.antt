-- ===== src/Controller/OidcClient/Reconcile/Stuck.antt =====
-- pocketidoidcclient_controller.go and securitypolicy.go: clients with a gateway whose status lacks
-- what the policy needs.
use pocketid_operator.Base.{◌≡◌, true, is_empty, is_some, List, String}
use pocketid_operator.Error.{ok}
use pocketid_operator.Api.Meta.{Key}
use pocketid_operator.Api.Instance.{Instance}
use pocketid_operator.Api.OidcClient.{OidcClient}
use pocketid_operator.PocketId.Types.{OidcClient as RemoteClient, UserGroupMinimal}
use pocketid_operator.PocketId.Request.{Client}
use pocketid_operator.PocketId.Client.{list_oidc_clients}
use pocketid_operator.World.{Env, History, fetch, on_error, ◌>>=◌}
use pocketid_operator.World.Ends.{Ends, ends_rules}
use pocketid_operator.Controller.Outcome.{Outcome}
use pocketid_operator.Controller.Settled.OidcClient.{HasCredentials, is_open, unnamed, stored_in}
use pocketid_operator.Controller.OidcClient.Remote.Kept.{
  Finds, found, lost, Resolves, same, identified, unresolved, resolve-Finds, Ends-resolve,
}
use pocketid_operator.Controller.OidcClient.Reconcile.Progress.{IsLive}
use pocketid_operator.Controller.OidcClient.Remote.{find_client, Resolved}
use pocketid_operator.Controller.OidcClient.Reconcile.{
  update_error_status, update_oidc_group_reference_error_status, ensure_finalizer, publish,
  sync_remote, sync_client, reconcile_live, reconcile_with, reconcile_client, reconcile,
}
use pocketid_operator.Controller.OidcClient.Reconcile.Failures.{
  Fails, HasGateway, Ends-update_error_status, publish-without_id, publish-without_name,
}

-- The status lacks what the policy of the client wants: the client has no id, and PocketID lists a
-- client with its name; or it has no name of a credentials secret, and wants none, names none, or
-- has one with a client secret.
pub data IsStuck (env : Env) (o : OidcClient) : Type 0 where
  adopted :
      is_empty o.status.client_id ≡ true
      → ((api : Client) (h : History) (cs : List RemoteClient)
          → (list_oidc_clients env api h).0 ≡ ok cs
          → is_some (find_client o.spec.name cs) ≡ true)
      → IsStuck env o
  unrecorded :
      is_empty o.status.credentials_secret_name ≡ true
      → ((h : History) → HasCredentials env o h)
      → IsStuck env o

module _ (env : Env) (i : Instance) (api : Client) (o : OidcClient) (gateway : HasGateway o) where
  abbrev after_resolve : Resolved → History → Outcome × History
  after_resolve r =
      on_error r (update_error_status env o "ClientSyncFailed")
        (λ (remote, o'). publish env i api remote o')

  Fails-found :
      (r : Resolved) (h : History)
      → is_empty o.status.client_id ≡ true
      → Finds o r h
      → Fails (after_resolve r h).0 (after_resolve r h).1
  Fails-found _ h no_id (lost e) = (Ends-update_error_status env o "ClientSyncFailed" e).at h
  Fails-found _ h no_id (found remote) = (publish-without_id env api o remote i gateway no_id).at h

  -- The id does not matter to the credentials step.
  HasCredentials-identified :
      (id : String) (h : History)
      → HasCredentials env o h
      → HasCredentials env (record o { status = record o.status { client_id = id } }) h
  HasCredentials-identified id h (is_open p) = is_open p
  HasCredentials-identified id h (unnamed p n) = unnamed p n
  HasCredentials-identified id h (stored_in ref secret p r f k) = stored_in ref secret p r f k

  Fails-resolved :
      (r : Resolved) (h : History)
      → is_empty o.status.credentials_secret_name ≡ true
      → ((h : History) → HasCredentials env o h)
      → Resolves o r h
      → Fails (after_resolve r h).0 (after_resolve r h).1
  Fails-resolved _ h no_name there (unresolved e) =
      (Ends-update_error_status env o "ClientSyncFailed" e).at h
  Fails-resolved _ h no_name there (same remote) =
      (publish-without_name env api o remote i gateway no_name there).at h
  Fails-resolved _ h no_name there (identified remote) =
      (publish-without_name env api
          (record o { status = record o.status { client_id = remote.id } }) remote i gateway no_name
          (λ h'. HasCredentials-identified remote.id h' (there h'))).at
        h

  Ends-sync_remote :
      (groups : List UserGroupMinimal) → IsStuck env o → Ends Fails (sync_remote env i api o groups)
  unfolding sync_remote ◌>>=◌
  Ends-sync_remote groups (adopted no_id listed) = record {
    at =
        λ h. Fails-found _ _ no_id (resolve-Finds env api o groups h no_id (λ cs. listed api h cs));
  }
  Ends-sync_remote groups (unrecorded no_name there) = record {
    at = λ h. Fails-resolved _ _ no_name there ((Ends-resolve env api o groups).at h);
  }

  Ends-sync_client : IsStuck env o → Ends Fails (sync_client env i api o)
  unfolding sync_client update_oidc_group_reference_error_status
  Ends-sync_client stuck =
      let remote = λ (groups : List UserGroupMinimal). Ends-sync_remote groups stuck in
      let fails = Ends-update_error_status env in search (ends_rules, remote, fails) depth 8

module _ (env : Env) where
  -- A run on a live client with an enabled gateway ends with an error where the client has no id
  -- yet and PocketID lists a client with its name, and where the status has no name of a
  -- credentials secret and the client is public, names no secret, or has one with a client secret;
  -- whatever else the servers answer.
  pub reconcile-client_stuck :
      (key : Key) (h : History) (o : OidcClient) (i : Instance) (api : Client)
      → IsLive env key h o i api
      → HasGateway o
      → IsStuck env o
      → is_some (reconcile env key h).0.error ≡ true
  unfolding reconcile reconcile_client reconcile_with reconcile_live ensure_finalizer fetch ◌>>=◌
  reconcile-client_stuck key h o i api l gateway stuck =
      let ends = Ends-sync_client env i api o gateway stuck in
      rw (l.found, on_error, l.opened, l.not_deleted, l.held) ((ends.at _).has_error)
