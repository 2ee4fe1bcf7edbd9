-- ===== src/Controller/Cost/User.antt =====
-- pocketiduser_controller.go and onboarding.go: how many requests and writes a run makes at most.
use pocketid_operator.Base.{String, Option, none, some, List, [], ◌∷◌, string_eq}
use pocketid_operator.Error.{Error, Result, ok, err}
use pocketid_operator.Api.Meta.{Key, LocalObjectReference}
use pocketid_operator.Api.User.{User}
use pocketid_operator.Api.Core.{Secret}
use pocketid_operator.Api.Instance.{Instance}
use pocketid_operator.PocketId.Types.{User as Account}
use pocketid_operator.PocketId.Request.{Client}
use pocketid_operator.PocketId.Client.{
  delete_user, get_user, list_users, create_user, update_user, set_user_groups,
  create_one_time_access_token,
}
use pocketid_operator.World.{Env, user_kind, create, secret_kind, update}
use pocketid_operator.Controller.Access.{Access, refused, granted}
use pocketid_operator.Controller.User.Account.{
  resolve_or_create_user, search_account, get_account, create_or_update, create_account,
  update_account,
}
use pocketid_operator.Controller.User.Groups.{
  sync_group_memberships, desired_group_ids, write_memberships, add_group,
}
use pocketid_operator.Controller.User.Onboarding.{
  reconcile_onboarding, create_link, mark_email, store_one_time_access_link, write_link_secret,
}
use pocketid_operator.Controller.User.Reconcile.{
  update_error_status, drop_finalizer, delete_account, handle_deletion, ensure_finalizer,
  write_synced, finish, sync_account, sync_user, reconcile_live, reconcile_with, reconcile_user,
  reconcile,
}
use pocketid_operator.Base.{ℕ, suc}
use pocketid_operator.World.Costs.{Spends, Spends-put, Spends-bind}
use pocketid_operator.Controller.Cost.Steps.{step_costs}

module _ (env : Env) {a b : ℕ} where
  Spends-update_error_status :
      (u : User) (r : String) (e : Error) → Spends a (suc b) (update_error_status env u r e)
  unfolding update_error_status
  Spends-update_error_status u r e = search step_costs depth 8

  Spends-drop_finalizer : (u : User) → Spends a (suc b) (drop_finalizer env u)
  unfolding drop_finalizer
  Spends-drop_finalizer u = search step_costs depth 8

  Spends-finish : (u : User) (x : Account) (o : _) → Spends a (suc b) (finish env u x o)
  unfolding finish write_synced
  Spends-finish u x o = search step_costs depth 12

module _ (env : Env) where
  Spends-write_link_secret :
      (s : Secret) (r : Result Secret) → Spends 0 1 (write_link_secret env s r)
  unfolding write_link_secret
  Spends-write_link_secret s (ok x) = Spends-put env update secret_kind _
  Spends-write_link_secret s (err e) = Spends-put env create secret_kind s

  Spends-store : (u : User) (n l : String) → Spends 0 1 (store_one_time_access_link env u n l)
  unfolding store_one_time_access_link
  Spends-store u n l = search (step_costs, Spends-write_link_secret) depth 8

  Spends-onboarding :
      (c : Client) (u : User) (x : Account) (i : Instance)
      → Spends 1 1 (reconcile_onboarding env c u x i)
  unfolding reconcile_onboarding create_link create_one_time_access_token mark_email
  Spends-onboarding c u x i = search (step_costs, Spends-store) depth 12

  Spends-desired_group_ids :
      (refs : List LocalObjectReference) (ns : String) (ids : List String)
      → Spends 0 0 (desired_group_ids env refs ns ids)
  unfolding desired_group_ids
  Spends-desired_group_ids [] ns ids = search step_costs
  Spends-desired_group_ids (ref ∷ refs) ns ids =
      let ih = λ (found : Result _). Spends-desired_group_ids refs ns (add_group found ids) in
      search (step_costs, ih)

  Spends-sync_groups :
      (c : Client) (u : User) (x : Account) → Spends 1 0 (sync_group_memberships env c u x)
  unfolding sync_group_memberships write_memberships set_user_groups
  Spends-sync_groups c u x = search (step_costs, Spends-desired_group_ids) depth 8

  Spends-create_or_update :
      (c : Client) (u : User) (x : Option Account) → Spends 1 0 (create_or_update env c u x)
  unfolding create_or_update create_account update_account create_user update_user
  Spends-create_or_update c u none = search step_costs depth 8
  Spends-create_or_update c u (some x) = search step_costs depth 8

  Spends-resolve_or_create : (c : Client) (u : User) → Spends 2 0 (resolve_or_create_user env c u)
  unfolding resolve_or_create_user search_account get_account list_users get_user
  Spends-resolve_or_create c u = search (step_costs, Spends-create_or_update) depth 8

  Spends-sync_account :
      (i : Instance) (c : Client) (u : User) (x : Account) → Spends 2 2 (sync_account env i c u x)
  unfolding sync_account
  Spends-sync_account i c u x =
      let rest = λ (_ : Unit {0}).
        Spends-bind (reconcile_onboarding env c u x i) (finish env u x) 1 1 0 1
          (Spends-onboarding c u x i) (Spends-finish env u x) in
      search (step_costs, Spends-sync_groups, Spends-update_error_status, rest) depth 8

  Spends-sync_user : (i : Instance) (c : Client) (u : User) → Spends 4 2 (sync_user env i c u)
  unfolding sync_user
  Spends-sync_user i c u =
      Spends-bind (resolve_or_create_user env c u) _ 2 0 2 2 (Spends-resolve_or_create c u)
        (λ r. search (step_costs, Spends-update_error_status, Spends-sync_account) depth 8)

  Spends-handle_deletion : (u : User) (c : Client) → Spends 4 3 (handle_deletion env u c)
  unfolding handle_deletion delete_account delete_user
  Spends-handle_deletion u c =
      search (step_costs, Spends-update_error_status, Spends-drop_finalizer) depth 10

  Spends-ensure_finalizer : (u : User) → Spends 0 1 (ensure_finalizer env u)
  unfolding ensure_finalizer
  Spends-ensure_finalizer u = search (step_costs, Spends-put env update user_kind)

  Spends-reconcile_with : (u : User) (x : Access) → Spends 4 3 (reconcile_with env u x)
  unfolding reconcile_with reconcile_live
  Spends-reconcile_with u (refused r e) = Spends-update_error_status env u r e
  Spends-reconcile_with u (granted i c) =
      search (step_costs, Spends-handle_deletion, Spends-ensure_finalizer, Spends-sync_user) depth 8

  -- A user is read or looked for, created or updated, and put into its groups, and a token is made;
  -- the finalizer, the secret with the link and the status are written.
  pub Spends-reconcile : (key : Key) → Spends 4 3 (reconcile env key)
  unfolding reconcile reconcile_user
  Spends-reconcile key = search (step_costs, Spends-reconcile_with) depth 10
