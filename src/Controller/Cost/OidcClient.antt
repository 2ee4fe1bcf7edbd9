-- ===== src/Controller/Cost/OidcClient.antt =====
-- pocketidoidcclient_controller.go and securitypolicy.go: how many requests and writes a run makes
-- at most.
use pocketid_operator.World.{oidc_client_kind, update}
use pocketid_operator.Base.{String, Option, none, some, List, [], ◌∷◌, ◌++◌, string_eq}
use pocketid_operator.Base.Dict.{Dict}
use pocketid_operator.Error.{Error, Result, ok, err}
use pocketid_operator.Api.Meta.{Key, LocalObjectReference, NamespacedObjectReference}
use pocketid_operator.Api.Core.{Secret, SecurityPolicy}
use pocketid_operator.Api.Instance.{Instance}
use pocketid_operator.Api.UserGroup.{UserGroup}
use pocketid_operator.Api.OidcClient.{OidcClient, EnvoyGatewayConfig}
use pocketid_operator.PocketId.Types.{OidcClient as RemoteClient, UserGroupMinimal}
use pocketid_operator.PocketId.Request.{Client}
use pocketid_operator.PocketId.Client.{
  delete_oidc_client, get_oidc_client, list_oidc_clients, create_oidc_client, update_oidc_client,
  generate_client_secret,
}
use pocketid_operator.World.{Env, Verb}
use pocketid_operator.Controller.Access.{Access, refused, granted}
use pocketid_operator.Controller.OidcClient.Groups.{
  resolve_allowed_user_groups, list_and_resolve, resolve_refs, resolve_group,
}
use pocketid_operator.Controller.OidcClient.Remote.{
  resolve_or_create_client, search_remote, get_remote, create_or_update, create_remote,
  update_remote,
}
use pocketid_operator.Controller.OidcClient.Credentials.{
  ensure_credentials_secret, store_credentials, with_secret, complete_credentials,
  create_credentials, write_credentials,
}
use pocketid_operator.Controller.OidcClient.Policy.{
  ensure_security_policy, enable_policy, protect_route, apply_policy, write_policy, remove_policy,
  delete_existing,
}
use pocketid_operator.Controller.OidcClient.Reconcile.{
  update_error_status, update_oidc_group_reference_error_status, drop_finalizer, delete_remote,
  handle_deletion, ensure_finalizer, write_synced, finish, protect, publish, sync_remote,
  sync_client, reconcile_live, reconcile_with, reconcile_client, reconcile,
}
use pocketid_operator.Base.{ℕ, suc}
use pocketid_operator.World.Costs.{Spends, Spends-put, Spends-bind}
use pocketid_operator.Controller.Cost.Steps.{step_costs, Spends-resolve}

module _ (env : Env) {a b : ℕ} where
  Spends-update_error_status :
      (o : OidcClient) (r : String) (e : Error) → Spends a (suc b) (update_error_status env o r e)
  unfolding update_error_status
  Spends-update_error_status o r e = search step_costs depth 8

  Spends-drop_finalizer : (o : OidcClient) → Spends a (suc b) (drop_finalizer env o)
  unfolding drop_finalizer
  Spends-drop_finalizer o = search step_costs depth 8

  Spends-finish : (o : OidcClient) (remote : RemoteClient) → Spends a (suc b) (finish env o remote)
  unfolding finish write_synced
  Spends-finish o remote = search step_costs depth 12

module _ (env : Env) where
  Spends-resolve_group :
      (ns : String) (i : Instance) (g : Option UserGroup) (n : String)
      → Spends 0 0 (resolve_group env ns i g n)
  unfolding resolve_group
  Spends-resolve_group ns i none n = search step_costs
  Spends-resolve_group ns i (some g) n = search (step_costs, Spends-resolve)

  Spends-resolve_refs :
      (ns : String) (i : Instance) (m : Dict UserGroup) (refs : List LocalObjectReference)
      (found : List UserGroupMinimal)
      → Spends 0 0 (resolve_refs env ns i m refs found)
  unfolding resolve_refs
  Spends-resolve_refs ns i m [] found = search step_costs
  Spends-resolve_refs ns i m (ref ∷ refs) found =
      let ih = λ (g : UserGroupMinimal). Spends-resolve_refs ns i m refs (found ++ (g ∷ [])) in
      search (step_costs, Spends-resolve_group, ih)

  Spends-groups :
      (ns : String) (i : Instance) (refs : List LocalObjectReference)
      → Spends 0 0 (resolve_allowed_user_groups env ns i refs)
  unfolding resolve_allowed_user_groups list_and_resolve
  Spends-groups ns i [] = search step_costs
  Spends-groups ns i (ref ∷ refs) = search (step_costs, Spends-resolve_refs) depth 8

  Spends-create_or_update :
      (api : Client) (o : OidcClient) (gs : List UserGroupMinimal) (r : Option RemoteClient)
      → Spends 1 0 (create_or_update env api o gs r)
  unfolding create_or_update create_remote update_remote create_oidc_client update_oidc_client
  Spends-create_or_update api o gs none = search step_costs depth 8
  Spends-create_or_update api o gs (some r) = search step_costs depth 8

  Spends-remote :
      (api : Client) (o : OidcClient) (gs : List UserGroupMinimal)
      → Spends 2 0 (resolve_or_create_client env api o gs)
  unfolding resolve_or_create_client search_remote get_remote list_oidc_clients get_oidc_client
  Spends-remote api o gs = search (step_costs, Spends-create_or_update) depth 8

module _ (env : Env) (api : Client) (o : OidcClient) (r : RemoteClient) (i : Instance) where
  Spends-write_credentials :
      (v : Verb) (s : Secret) (n : String) → Spends 1 1 (write_credentials env api o r i v s n)
  unfolding write_credentials generate_client_secret
  Spends-write_credentials v s n = search step_costs depth 8

  Spends-with_secret :
      (found : Result Secret) (n : String) → Spends 1 1 (with_secret env api o r i found n)
  unfolding with_secret complete_credentials create_credentials
  Spends-with_secret (ok s) n = search (step_costs, Spends-write_credentials) depth 8
  Spends-with_secret (err e) n = search (step_costs, Spends-write_credentials) depth 8

  Spends-credentials : Spends 1 1 (ensure_credentials_secret env api o r i)
  unfolding ensure_credentials_secret store_credentials
  Spends-credentials = search (step_costs, Spends-with_secret) depth 8

module _ (env : Env) (o : OidcClient) (i : Instance) where
  Spends-delete_existing :
      (found : Result SecurityPolicy) → Spends 0 1 (delete_existing env o i found)
  unfolding delete_existing
  Spends-delete_existing (ok p) = search step_costs
  Spends-delete_existing (err e) = search step_costs

  Spends-write_policy :
      (p : SecurityPolicy) (found : Result SecurityPolicy)
      → Spends 0 1 (write_policy env o i p found)
  unfolding write_policy
  Spends-write_policy p (ok x) = search step_costs depth 8
  Spends-write_policy p (err e) = search step_costs depth 8

  Spends-protect_route :
      (eg : EnvoyGatewayConfig) (ref : NamespacedObjectReference)
      → Spends 0 1 (protect_route env o i eg ref)
  unfolding protect_route apply_policy
  Spends-protect_route eg ref = search (step_costs, Spends-write_policy) depth 10

  Spends-policy : Spends 0 1 (ensure_security_policy env o i)
  unfolding ensure_security_policy enable_policy remove_policy
  Spends-policy = search (step_costs, Spends-delete_existing, Spends-protect_route) depth 8

module _ (env : Env) where
  Spends-publish :
      (i : Instance) (api : Client) (remote : RemoteClient) (o : OidcClient)
      → Spends 1 3 (publish env i api remote o)
  unfolding publish protect
  Spends-publish i api remote o =
      Spends-bind (ensure_credentials_secret env api o remote i) _ 1 1 0 2
        (Spends-credentials env api o remote i)
        (λ r.
          search (step_costs, Spends-policy, Spends-update_error_status, Spends-finish) depth 10)

  Spends-sync_remote :
      (i : Instance) (api : Client) (o : OidcClient) (gs : List UserGroupMinimal)
      → Spends 3 3 (sync_remote env i api o gs)
  unfolding sync_remote
  Spends-sync_remote i api o gs =
      Spends-bind (resolve_or_create_client env api o gs) _ 2 0 1 3 (Spends-remote env api o gs)
        (λ r. search (step_costs, Spends-update_error_status, Spends-publish) depth 8)

  Spends-sync_client :
      (i : Instance) (api : Client) (o : OidcClient) → Spends 3 3 (sync_client env i api o)
  unfolding sync_client update_oidc_group_reference_error_status
  Spends-sync_client i api o =
      search (step_costs, Spends-groups, Spends-update_error_status, Spends-sync_remote) depth 10

  Spends-handle_deletion : (o : OidcClient) (c : Client) → Spends 3 4 (handle_deletion env o c)
  unfolding handle_deletion delete_remote delete_oidc_client
  Spends-handle_deletion o c =
      search (step_costs, Spends-update_error_status, Spends-drop_finalizer) depth 10

  Spends-ensure_finalizer : (o : OidcClient) → Spends 0 1 (ensure_finalizer env o)
  unfolding ensure_finalizer
  Spends-ensure_finalizer o = search (step_costs, Spends-put env update oidc_client_kind)

  Spends-reconcile_with : (o : OidcClient) (x : Access) → Spends 3 4 (reconcile_with env o x)
  unfolding reconcile_with reconcile_live
  Spends-reconcile_with o (refused r e) = Spends-update_error_status env o r e
  Spends-reconcile_with o (granted i c) =
      search (step_costs, Spends-handle_deletion, Spends-ensure_finalizer, Spends-sync_client) depth
        8

  -- A client is read or looked for, created or updated, and given a secret; the finalizer, the
  -- credentials, the policy and the status are written.
  pub Spends-reconcile : (key : Key) → Spends 3 4 (reconcile env key)
  unfolding reconcile reconcile_client
  Spends-reconcile key = search (step_costs, Spends-reconcile_with) depth 10
