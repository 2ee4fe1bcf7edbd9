-- ===== src/Controller/Footprint/OidcClient.antt =====
-- pocketidoidcclient_controller.go and securitypolicy.go: what a run writes, as the invariants that
-- it keeps.
use pocketid_operator.World.Keeps.{IgnoresReads, IgnoresSends, IgnoresWrites, Keeps-put}
use pocketid_operator.World.{
  oidc_client_kind, update_status, update, create, delete, security_policy_kind,
}
use pocketid_operator.Base.{String, Option, none, some, List, [], ◌∷◌, ◌++◌, string_eq}
use pocketid_operator.Base.Dict.{Dict}
use pocketid_operator.Error.{Error, Result, ok, err}
use pocketid_operator.Api.Meta.{Key, LocalObjectReference, NamespacedObjectReference}
use pocketid_operator.Api.Core.{Secret, SecurityPolicy}
use pocketid_operator.Api.Instance.{Instance}
use pocketid_operator.Api.UserGroup.{UserGroup}
use pocketid_operator.Api.OidcClient.{OidcClient, EnvoyGatewayConfig}
use pocketid_operator.PocketId.Types.{OidcClient as RemoteClient, UserGroupMinimal}
use pocketid_operator.PocketId.Request.{Client}
use pocketid_operator.PocketId.Client.{
  delete_oidc_client, get_oidc_client, list_oidc_clients, create_oidc_client, update_oidc_client,
  generate_client_secret,
}
use pocketid_operator.World.{Env, History, Verb, secret_kind}
use pocketid_operator.World.Keeps.{Keeps, IgnoresWrites}
use pocketid_operator.Controller.Steps.{step_rules}
use pocketid_operator.Controller.Access.{Access, refused, granted}
use pocketid_operator.Controller.OidcClient.Groups.{
  resolve_allowed_user_groups, list_and_resolve, resolve_refs, resolve_group,
}
use pocketid_operator.Controller.OidcClient.Remote.{
  resolve_or_create_client, search_remote, get_remote, create_or_update, create_remote,
  update_remote,
}
use pocketid_operator.Controller.OidcClient.Credentials.{
  ensure_credentials_secret, store_credentials, with_secret, complete_credentials,
  create_credentials, write_credentials,
}
use pocketid_operator.Controller.OidcClient.Policy.{
  ensure_security_policy, enable_policy, protect_route, apply_policy, write_policy, remove_policy,
  delete_existing,
}
use pocketid_operator.Controller.OidcClient.Reconcile.{
  update_error_status, update_oidc_group_reference_error_status, drop_finalizer, delete_remote,
  handle_deletion, ensure_finalizer, write_synced, finish, protect, publish, sync_remote,
  sync_client, reconcile_live, reconcile_with, reconcile_client, reconcile,
}

module _ (env : Env) {P : History → Type 0} (reads : IgnoresReads P) where
  Keeps-resolve_group :
      (ns : String) (i : Instance) (g : Option UserGroup) (n : String)
      → Keeps (P) (resolve_group env ns i g n)
  unfolding resolve_group
  Keeps-resolve_group ns i none n = search step_rules
  Keeps-resolve_group ns i (some g) n = search step_rules

  Keeps-resolve_refs :
      (ns : String) (i : Instance) (m : Dict UserGroup) (refs : List LocalObjectReference)
      (found : List UserGroupMinimal)
      → Keeps (P) (resolve_refs env ns i m refs found)
  unfolding resolve_refs
  Keeps-resolve_refs ns i m [] found = search step_rules
  Keeps-resolve_refs ns i m (ref ∷ refs) found =
      let ih = λ (g : UserGroupMinimal). Keeps-resolve_refs ns i m refs (found ++ (g ∷ [])) in
      search (step_rules, Keeps-resolve_group, ih)

  pub Keeps-groups :
      (ns : String) (i : Instance) (refs : List LocalObjectReference)
      → Keeps (P) (resolve_allowed_user_groups env ns i refs)
  unfolding resolve_allowed_user_groups list_and_resolve
  Keeps-groups ns i [] = search step_rules
  Keeps-groups ns i (ref ∷ refs) = search (step_rules, Keeps-resolve_refs) depth 8

module _ (env : Env) {P : History → Type 0} (reads : IgnoresReads P) (sends : IgnoresSends P)
    (status : IgnoresWrites P update_status oidc_client_kind)
    (creates : IgnoresWrites P create secret_kind) (updates : IgnoresWrites P update secret_kind)
    (creates_policy : IgnoresWrites P create security_policy_kind)
    (updates_policy : IgnoresWrites P update security_policy_kind)
    (deletes_policy : IgnoresWrites P delete security_policy_kind) where
  Keeps-create_or_update :
      (api : Client) (o : OidcClient) (gs : List UserGroupMinimal) (r : Option RemoteClient)
      → Keeps (P) (create_or_update env api o gs r)
  unfolding create_or_update create_remote update_remote create_oidc_client update_oidc_client
  Keeps-create_or_update api o gs none = search step_rules depth 8
  Keeps-create_or_update api o gs (some r) = search step_rules depth 8

  Keeps-remote :
      (api : Client) (o : OidcClient) (gs : List UserGroupMinimal)
      → Keeps (P) (resolve_or_create_client env api o gs)
  unfolding resolve_or_create_client search_remote get_remote list_oidc_clients get_oidc_client
  Keeps-remote api o gs = search (step_rules, Keeps-create_or_update) depth 8

  module _ (api : Client) (o : OidcClient) (r : RemoteClient) (i : Instance) where
    Keeps-write_credentials :
        (v : Verb)
        → IgnoresWrites (P) v secret_kind
        → (s : Secret) (n : String) → Keeps (P) (write_credentials env api o r i v s n)
    unfolding write_credentials generate_client_secret
    Keeps-write_credentials v w s n = search step_rules depth 8

    Keeps-with_secret :
        (found : Result Secret) (n : String) → Keeps (P) (with_secret env api o r i found n)
    unfolding with_secret complete_credentials create_credentials
    Keeps-with_secret (ok s) n = search (step_rules, Keeps-write_credentials) depth 8
    Keeps-with_secret (err e) n = search (step_rules, Keeps-write_credentials) depth 8

    Keeps-store_credentials : (n : String) → Keeps (P) (store_credentials env api o r i n)
    unfolding store_credentials
    Keeps-store_credentials n = search (step_rules, Keeps-with_secret)

    Keeps-credentials : Keeps (P) (ensure_credentials_secret env api o r i)
    unfolding ensure_credentials_secret
    Keeps-credentials = search (step_rules, Keeps-store_credentials)

  module _ (o : OidcClient) (i : Instance) where
    Keeps-delete_existing :
        (found : Result SecurityPolicy) → Keeps (P) (delete_existing env o i found)
    unfolding delete_existing
    Keeps-delete_existing (ok p) = search step_rules
    Keeps-delete_existing (err e) = search step_rules

    Keeps-remove_policy : Keeps (P) (remove_policy env o i)
    unfolding remove_policy
    Keeps-remove_policy = search (step_rules, Keeps-delete_existing)

    Keeps-write_policy :
        (p : SecurityPolicy) (found : Result SecurityPolicy)
        → Keeps (P) (write_policy env o i p found)
    unfolding write_policy
    Keeps-write_policy p (ok x) = search step_rules depth 8
    Keeps-write_policy p (err e) = search step_rules depth 8

    Keeps-protect_route :
        (eg : EnvoyGatewayConfig) (ref : NamespacedObjectReference)
        → Keeps (P) (protect_route env o i eg ref)
    unfolding protect_route apply_policy
    Keeps-protect_route eg ref = search (step_rules, Keeps-write_policy) depth 10

    Keeps-enable_policy : (eg : EnvoyGatewayConfig) → Keeps (P) (enable_policy env o i eg)
    unfolding enable_policy
    Keeps-enable_policy eg = search (step_rules, Keeps-protect_route)

    Keeps-policy : Keeps (P) (ensure_security_policy env o i)
    unfolding ensure_security_policy
    Keeps-policy = search (step_rules, Keeps-remove_policy, Keeps-enable_policy)

  pub Keeps-update_error_status :
      (o : OidcClient) (r : String) (e : Error) → Keeps (P) (update_error_status env o r e)
  unfolding update_error_status
  Keeps-update_error_status o r e = search step_rules depth 8

  Keeps-finish : (o : OidcClient) (remote : RemoteClient) → Keeps (P) (finish env o remote)
  unfolding finish write_synced
  Keeps-finish o remote = search step_rules depth 12

  pub Keeps-sync_client :
      (i : Instance) (api : Client) (o : OidcClient) → Keeps P (sync_client env i api o)
  unfolding sync_client sync_remote publish protect update_oidc_group_reference_error_status
  Keeps-sync_client i api o =
      search
        (
          step_rules, Keeps-update_error_status, Keeps-groups, Keeps-remote, Keeps-credentials,
          Keeps-policy, Keeps-finish,
        )
        depth 14

  module _ (writes : IgnoresWrites P update oidc_client_kind) where
    Keeps-handle_deletion : (o : OidcClient) (c : Client) → Keeps P (handle_deletion env o c)
    unfolding handle_deletion delete_remote drop_finalizer delete_oidc_client
    Keeps-handle_deletion o c = search (step_rules, Keeps-update_error_status) depth 12

    Keeps-ensure_finalizer : (o : OidcClient) → Keeps P (ensure_finalizer env o)
    unfolding ensure_finalizer
    Keeps-ensure_finalizer o = search (step_rules, Keeps-put env update oidc_client_kind writes)

    Keeps-reconcile_with : (o : OidcClient) (a : Access) → Keeps P (reconcile_with env o a)
    unfolding reconcile_with reconcile_live
    Keeps-reconcile_with o (refused r e) = Keeps-update_error_status o r e
    Keeps-reconcile_with o (granted i c) =
        search (step_rules, Keeps-handle_deletion, Keeps-ensure_finalizer, Keeps-sync_client) depth
          8

    -- A run keeps what its reads, its requests and the writes that it makes keep.
    pub Keeps-reconcile : (key : Key) → Keeps P (reconcile env key)
    unfolding reconcile reconcile_client
    Keeps-reconcile key = search (step_rules, Keeps-reconcile_with) depth 10
