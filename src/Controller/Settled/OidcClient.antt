-- ===== src/Controller/Settled/OidcClient.antt =====
-- pocketidoidcclient_controller.go: a run on an OIDC client that is in sync.
use pocketid_operator.Base.{
  ◌≡◌, refl, ◌∙◌, true, false, is_empty, is_some, if◌then◌else◌, Option, none, some, List, ◌∷◌,
}
use pocketid_operator.Base.Dict.{lookup}
use pocketid_operator.Error.{Result, ok}
use pocketid_operator.Api.Meta.{Key, key_of, LocalObjectReference}
use pocketid_operator.Api.Core.{Secret}
use pocketid_operator.Api.OidcClient.{OidcClient, EnvoyGatewayConfig}
use pocketid_operator.Api.Instance.{Instance}
use pocketid_operator.PocketId.Types.{OidcClient as RemoteClient, UserGroupMinimal}
use pocketid_operator.PocketId.Request.{Client}
use pocketid_operator.PocketId.Client.{get_oidc_client, do_request}
use pocketid_operator.World.{
  Env, History, got, update_status, oidc_client_kind, secret_kind, fetch, put, clock, send,
  on_error, on_nil, ◌>>=◌,
}
use pocketid_operator.World.Effects.{effects, effects_reads, changes, changes-of_effects}
use pocketid_operator.Controller.Status.{set_synced_condition, set_condition}
use pocketid_operator.Controller.Permission.{effects-access}
use pocketid_operator.Controller.Footprint.OidcClient.{Keeps-groups}
use pocketid_operator.Controller.Settled.{StatusOnly, StatusOnly-wrote}
use pocketid_operator.Controller.OidcClient.Groups.{resolve_allowed_user_groups}
use pocketid_operator.Controller.OidcClient.Compare.Agreement.{
  Agrees, needs_oidc_client_update-false_iff,
}
use pocketid_operator.Controller.OidcClient.Remote.Outcomes.{client_of}
use pocketid_operator.Controller.OidcClient.Remote.{
  resolve_or_create_client, get_remote, create_or_update, update_remote,
}
use pocketid_operator.Controller.OidcClient.Credentials.{
  ensure_credentials_secret, store_credentials, with_secret, complete_credentials,
}
use pocketid_operator.Controller.OidcClient.Policy.{
  ensure_security_policy, enable_policy, remove_policy,
}
use pocketid_operator.Controller.OidcClient.Policy.Effect.{is_enabled}
use pocketid_operator.Controller.OidcClient.Reconcile.{
  ensure_finalizer, write_synced, finish, protect, publish, sync_remote, sync_client,
  reconcile_live, reconcile_with, reconcile_client, reconcile,
}
use pocketid_operator.Controller.OidcClient.Reconcile.Progress.{IsLive, after_access}

-- The status write is the one change.
write_synced-StatusOnly :
    (env : Env) (latest o : OidcClient) (remote : RemoteClient) (h before : History)
    → ((history : History) (x : OidcClient)
        → (y : OidcClient) × (env.write update_status oidc_client_kind history x ≡ ok y))
    → changes h ≡ changes before
    → StatusOnly oidc_client_kind before (write_synced env latest o remote h)
unfolding write_synced set_synced_condition set_condition clock put ◌>>=◌
write_synced-StatusOnly env latest o remote h before stored same =
    rw ((stored _ _).1, on_error) (StatusOnly-wrote oidc_client_kind _ _ before same)

module _ (env : Env) (o : OidcClient) where
  -- The client needs no credentials secret, names none, or has one with a client secret.
  pub data HasCredentials (h : History) : Type 0 where
    is_open : o.spec.is_public ≡ true → HasCredentials h
    unnamed : o.spec.is_public ≡ false → o.spec.credentials_secret_ref ≡ none → HasCredentials h
    stored_in :
        (ref : LocalObjectReference) (secret : Secret)
        → o.spec.is_public ≡ false
        → o.spec.credentials_secret_ref ≡ some ref
        → env.get secret_kind h (record { name = ref.name; namespace = o.namespace }) ≡ ok secret
        → is_some (lookup "OIDC_CLIENT_SECRET" secret.contents) ≡ true
        → HasCredentials h

module _ (env : Env) (c : Client) (o : OidcClient) (remote : RemoteClient) (i : Instance) where
  -- The step leaves the resource as it is, and only reads.
  pub record Rests (h : History) (r : Result OidcClient × History) : Type 0 where
    pub same : r.0 ≡ ok o
    pub quiet : effects r.1 ≡ effects h

  pub credentials-Rests :
      (h : History)
      → HasCredentials env o h
      → Rests h (ensure_credentials_secret env c o remote i h)
  unfolding ensure_credentials_secret store_credentials with_secret complete_credentials fetch ◌>>=◌
  credentials-Rests h (is_open p) = rw p (record { same = refl; quiet = refl })
  credentials-Rests h (unnamed p n) = rw (p, n, on_nil) (record { same = refl; quiet = refl })
  credentials-Rests h (stored_in ref secret p r f k) =
      rw (p, r, on_nil, f, k) (record { same = refl; quiet = refl })

  Rests-step :
      (h : History) (gateway : Option EnvoyGatewayConfig)
      → is_enabled gateway ≡ false
      → is_empty o.status.security_policy_name ≡ true
      → on_nil gateway
          (remove_policy env o i)
          (λ eg. if eg.enabled then enable_policy env o i eg else remove_policy env o i)
          h
        ≡ (ok o, h)
  unfolding remove_policy
  Rests-step h none off no_name = rw no_name refl
  Rests-step h (some eg) off no_name = rw (off, no_name) refl

module _ (env : Env) (key : Key) (h : History) (o : OidcClient) (i : Instance) (c : Client)
    (groups : List UserGroupMinimal) (remote : RemoteClient) where
  abbrev after_groups : History
  after_groups =
      (resolve_allowed_user_groups env o.namespace i o.spec.allowed_user_group_refs
        (after_access env key h o i c)).1

  abbrev after_client : History
  after_client = (get_oidc_client env c o.status.client_id after_groups).1

  abbrev after_credentials : History
  after_credentials = (ensure_credentials_secret env c o remote i after_client).1

  -- A live client whose groups resolve, with a client that PocketID gives and that agrees with the
  -- spec, with its credentials, with no gateway and no policy, and that can be read again and its
  -- status written.
  pub record IsSettled (latest : OidcClient) : Type 0 where
    pub live : IsLive env key h o i c
    pub grouped :
        (resolve_allowed_user_groups env o.namespace i o.spec.allowed_user_group_refs
          (after_access env key h o i c)).0
        ≡ ok groups
    pub has_client : is_empty o.status.client_id ≡ false
    pub client : (get_oidc_client env c o.status.client_id after_groups).0 ≡ ok remote
    pub agrees : Agrees remote (client_of o.spec groups remote.id)
    pub has_credentials : HasCredentials env o after_client
    pub no_gateway : is_enabled o.spec.envoy_gateway ≡ false
    pub no_policy : is_empty o.status.security_policy_name ≡ true
    pub reread : env.get oidc_client_kind after_credentials (key_of o.metadata) ≡ ok latest
    pub stored :
        (history : History) (x : OidcClient)
        → (y : OidcClient) × (env.write update_status oidc_client_kind history x ≡ ok y)

  changes-after_client : changes after_client ≡ changes h
  unfolding get_oidc_client do_request send ◌>>=◌
  changes-after_client =
      let start : History = got oidc_client_kind key ∷ h in
      let opened : History = after_access env key h o i c in
      changes-of_effects after_groups opened (
        (Keeps-groups env (effects_reads (effects opened)) o.namespace i
            o.spec.allowed_user_group_refs).at
          opened refl)
      ∙ changes-of_effects opened start
          (effects-access env o.spec.instance_ref o.namespace "http://localhost:8080" start)

  resolve-settled :
      (latest : OidcClient)
      → IsSettled latest
      → resolve_or_create_client env c o groups after_groups ≡ (ok (remote, o), after_client)
  unfolding resolve_or_create_client get_remote create_or_update update_remote ◌>>=◌
  resolve-settled latest s =
      rw
        (
          s.has_client,
          s.client,
          on_error,
          (needs_oidc_client_update-false_iff remote (client_of o.spec groups remote.id)).1
              s.agrees,
        )
        refl

  pub reconcile-client_settled :
      (latest : OidcClient) → IsSettled latest → StatusOnly oidc_client_kind h (reconcile env key h)
  unfolding reconcile reconcile_client reconcile_with reconcile_live ensure_finalizer sync_client
      sync_remote publish protect finish ensure_security_policy fetch ◌>>=◌
  reconcile-client_settled latest s =
      let rests = credentials-Rests env c o remote i after_client s.has_credentials in
      rw
        (
          s.live.found,
          on_error,
          s.live.opened,
          s.live.not_deleted,
          s.live.held,
          s.grouped,
          resolve-settled latest s,
          rests.same,
          Rests-step env c o remote i after_credentials o.spec.envoy_gateway s.no_gateway
              s.no_policy,
          s.reread,
        )
        (write_synced-StatusOnly env latest o remote _ h s.stored
          (changes-of_effects after_credentials after_client rests.quiet ∙ changes-after_client))
