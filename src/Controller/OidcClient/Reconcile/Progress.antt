-- ===== src/Controller/OidcClient/Reconcile/Progress.antt =====
-- pocketidoidcclient_controller.go: a run on a live client whose steps succeed.
use pocketid_operator.Base.{◌≡◌, refl, true, false, is_some, ◌∷◌, List}
use pocketid_operator.Error.{ok}
use pocketid_operator.Api.Meta.{Key, key_of}
use pocketid_operator.Api.OidcClient.{OidcClient}
use pocketid_operator.Api.Instance.{Instance}
use pocketid_operator.PocketId.Types.{OidcClient as RemoteClient, UserGroupMinimal}
use pocketid_operator.PocketId.Request.{Client}
use pocketid_operator.World.{
  Env, History, got, wrote, update_status, oidc_client_kind, fetch, put, clock, on_error, ◌>>=◌,
}
use pocketid_operator.Controller.Outcome.{again_after}
use pocketid_operator.Controller.Status.{set_synced_condition, set_condition}
use pocketid_operator.Controller.Access.{granted, access}
use pocketid_operator.Controller.OidcClient.Groups.{resolve_allowed_user_groups}
use pocketid_operator.Controller.OidcClient.Remote.{resolve_or_create_client}
use pocketid_operator.Controller.OidcClient.Credentials.{ensure_credentials_secret}
use pocketid_operator.Controller.OidcClient.Policy.{ensure_security_policy}
use pocketid_operator.Controller.OidcClient.Reconcile.{
  oidc_client_finalizer, ensure_finalizer, write_synced, finish, protect, publish, sync_remote,
  sync_client, reconcile_live, reconcile_with, reconcile_client, reconcile,
}

-- The last event is a write of the status that says that the resource is in sync with this client,
-- and that names the credentials and the policy of `done`.
pub record SyncedTo (remote : RemoteClient) (done : OidcClient) (h : History) : Type 0 where
  pub oidc : OidcClient
  pub before : History
  pub newest : h ≡ wrote update_status oidc_client_kind oidc ∷ before
  pub id : oidc.status.client_id ≡ remote.id
  pub credentials : oidc.status.credentials_secret_name ≡ done.status.credentials_secret_name
  pub policy : oidc.status.security_policy_name ≡ done.status.security_policy_name
  pub is_ready : oidc.status.ready ≡ true
  pub is_synced : oidc.status.synced ≡ true

module _ (env : Env) (key : Key) (h : History) (o : OidcClient) (i : Instance) (c : Client) where
  abbrev pub after_access : History
  after_access =
      (access env o.spec.instance_ref o.namespace "http://localhost:8080"
        (got oidc_client_kind key ∷ h)).1

  -- A live client that has its finalizer and whose instance gives access.
  pub record IsLive : Type 0 where
    pub found : env.get oidc_client_kind h key ≡ ok o
    pub not_deleted : is_some o.metadata.deletion_timestamp ≡ false
    pub opened :
        (access env o.spec.instance_ref o.namespace "http://localhost:8080"
          (got oidc_client_kind key ∷ h)).0
        ≡ granted i c
    pub held : env.contains_finalizer o.metadata oidc_client_finalizer ≡ true

  module _ (groups : List UserGroupMinimal) (remote : RemoteClient) (v w x : OidcClient) where
    abbrev pub after_groups : History
    after_groups =
        (resolve_allowed_user_groups env o.namespace i o.spec.allowed_user_group_refs
          after_access).1

    abbrev pub after_resolve : History
    after_resolve = (resolve_or_create_client env c o groups after_groups).1

    abbrev pub after_credentials : History
    after_credentials = (ensure_credentials_secret env c v remote i after_resolve).1

    abbrev pub after_policy : History
    after_policy = (ensure_security_policy env w i after_credentials).1

    -- No step fails: the groups resolve, the client is found or made, its credentials and its
    -- policy are in place, and the resource can be read again and its status written.
    pub record Succeeds (latest : OidcClient) : Type 0 where
      pub grouped :
          (resolve_allowed_user_groups env o.namespace i o.spec.allowed_user_group_refs
            after_access).0
          ≡ ok groups
      pub resolved : (resolve_or_create_client env c o groups after_groups).0 ≡ ok (remote, v)
      pub published : (ensure_credentials_secret env c v remote i after_resolve).0 ≡ ok w
      pub protected : (ensure_security_policy env w i after_credentials).0 ≡ ok x
      pub reread : env.get oidc_client_kind after_policy (key_of x.metadata) ≡ ok latest
      pub stored :
          (history : History) (y : OidcClient)
          → (z : OidcClient) × (env.write update_status oidc_client_kind history y ≡ ok z)

-- A status write of this kind is the last event, and the next run is in five minutes.
write_synced-SyncedTo :
    (env : Env) (latest x : OidcClient) (remote : RemoteClient) (h : History)
    → ((history : History) (y : OidcClient)
        → (z : OidcClient) × (env.write update_status oidc_client_kind history y ≡ ok z))
    → ((write_synced env latest x remote h).0 ≡ again_after 300)
      × SyncedTo remote x (write_synced env latest x remote h).1
unfolding write_synced set_synced_condition set_condition clock put ◌>>=◌
write_synced-SyncedTo env latest x remote h stored =
    rw ((stored _ _).1, on_error)
      (
        refl,
        record {
          oidc = _;
          before = _;
          newest = refl;
          id = refl;
          credentials = refl;
          policy = refl;
          is_ready = refl;
          is_synced = refl;
        },
      )

module _ (env : Env) (key : Key) (h : History) (o : OidcClient) (i : Instance) (c : Client) where
  -- If a client that is not being deleted has its finalizer and its instance gives access, and if
  -- every step of the run succeeds, then the run asks for another one in five minutes, and its last
  -- event is a write of the status that says ready and synced, with the id of the client in
  -- PocketID and the names of the credentials secret and of the policy that the steps left.
  pub reconcile-client_syncs :
      (groups : List UserGroupMinimal) (remote : RemoteClient) (v w x latest : OidcClient)
      → IsLive env key h o i c
      → Succeeds env key h o i c groups remote v w x latest
      → ((reconcile env key h).0 ≡ again_after 300) × SyncedTo remote x (reconcile env key h).1
  unfolding reconcile reconcile_client reconcile_with reconcile_live ensure_finalizer sync_client
      sync_remote publish protect finish fetch ◌>>=◌
  reconcile-client_syncs groups remote v w x latest l s =
      rw
        (
          l.found, on_error, l.opened, l.not_deleted, l.held, s.grouped, s.resolved, s.published,
          s.protected, s.reread,
        )
        (write_synced-SyncedTo env latest x remote _ s.stored)
