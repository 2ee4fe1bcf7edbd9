-- ===== src/Controller/Footprint/User.antt =====
-- pocketiduser_controller.go and onboarding.go: what a run writes, as the invariants that it keeps.
use pocketid_operator.Base.{String, Option, none, some, List, [], ◌∷◌, string_eq}
use pocketid_operator.Error.{Error, Result, ok, err}
use pocketid_operator.Api.Meta.{Key, LocalObjectReference}
use pocketid_operator.Api.User.{User}
use pocketid_operator.Api.Core.{Secret}
use pocketid_operator.Api.Instance.{Instance}
use pocketid_operator.PocketId.Types.{User as Account}
use pocketid_operator.PocketId.Request.{Client}
use pocketid_operator.PocketId.Client.{
  delete_user, get_user, list_users, create_user, update_user, set_user_groups,
  create_one_time_access_token,
}
use pocketid_operator.World.{Env, History, user_kind, update_status, create, secret_kind, update}
use pocketid_operator.World.Keeps.{Keeps, Keeps-put, IgnoresReads, IgnoresSends, IgnoresWrites}
use pocketid_operator.Controller.Steps.{step_rules}
use pocketid_operator.Controller.Access.{Access, refused, granted}
use pocketid_operator.Controller.User.Account.{
  resolve_or_create_user, search_account, get_account, create_or_update, create_account,
  update_account,
}
use pocketid_operator.Controller.User.Groups.{
  sync_group_memberships, desired_group_ids, write_memberships, add_group,
}
use pocketid_operator.Controller.User.Onboarding.{
  reconcile_onboarding, create_link, mark_email, store_one_time_access_link, write_link_secret,
}
use pocketid_operator.Controller.User.Reconcile.{
  update_error_status, drop_finalizer, delete_account, handle_deletion, ensure_finalizer,
  write_synced, finish, sync_account, sync_user, reconcile_live, reconcile_with, reconcile_user,
  reconcile,
}

module _ (env : Env) {P : History → Type 0} (reads : IgnoresReads P) (sends : IgnoresSends P)
    (status : IgnoresWrites P update_status user_kind)
    (creates : IgnoresWrites P create secret_kind)
    (updates : IgnoresWrites P update secret_kind) where
  pub Keeps-update_error_status :
      (u : User) (r : String) (e : Error) → Keeps (P) (update_error_status env u r e)
  unfolding update_error_status
  Keeps-update_error_status u r e = search step_rules depth 8

  Keeps-write_link_secret : (s : Secret) (r : Result Secret) → Keeps (P) (write_link_secret env s r)
  unfolding write_link_secret
  Keeps-write_link_secret s (ok x) = Keeps-put env update secret_kind updates _
  Keeps-write_link_secret s (err e) = Keeps-put env create secret_kind creates s

  Keeps-store : (u : User) (n l : String) → Keeps (P) (store_one_time_access_link env u n l)
  unfolding store_one_time_access_link
  Keeps-store u n l = search (step_rules, Keeps-write_link_secret) depth 8

  Keeps-onboarding :
      (c : Client) (u : User) (a : Account) (i : Instance)
      → Keeps (P) (reconcile_onboarding env c u a i)
  unfolding reconcile_onboarding create_link create_one_time_access_token mark_email
  Keeps-onboarding c u a i = search (step_rules, Keeps-store) depth 12

  Keeps-desired_group_ids :
      (refs : List LocalObjectReference) (ns : String) (ids : List String)
      → Keeps (P) (desired_group_ids env refs ns ids)
  unfolding desired_group_ids
  Keeps-desired_group_ids [] ns ids = search step_rules
  Keeps-desired_group_ids (ref ∷ refs) ns ids =
      let ih = λ (found : Result _). Keeps-desired_group_ids refs ns (add_group found ids) in
      search (step_rules, ih)

  Keeps-sync_groups :
      (c : Client) (u : User) (a : Account) → Keeps (P) (sync_group_memberships env c u a)
  unfolding sync_group_memberships write_memberships set_user_groups
  Keeps-sync_groups c u a = search (step_rules, Keeps-desired_group_ids) depth 8

  Keeps-create_or_update :
      (c : Client) (u : User) (a : Option Account) → Keeps (P) (create_or_update env c u a)
  unfolding create_or_update create_account update_account create_user update_user
  Keeps-create_or_update c u none = search step_rules depth 8
  Keeps-create_or_update c u (some a) = search step_rules depth 8

  Keeps-resolve_or_create : (c : Client) (u : User) → Keeps (P) (resolve_or_create_user env c u)
  unfolding resolve_or_create_user search_account get_account list_users get_user
  Keeps-resolve_or_create c u = search (step_rules, Keeps-create_or_update) depth 8

  Keeps-finish : (u : User) (a : Account) (o : _) → Keeps (P) (finish env u a o)
  unfolding finish write_synced
  Keeps-finish u a o = search step_rules depth 12

  pub Keeps-sync_user : (i : Instance) (c : Client) (u : User) → Keeps P (sync_user env i c u)
  unfolding sync_user sync_account
  Keeps-sync_user i c u =
      search
        (
          step_rules, Keeps-update_error_status, Keeps-onboarding, Keeps-sync_groups,
          Keeps-resolve_or_create, Keeps-finish,
        )
        depth 12

  module _ (writes : IgnoresWrites P update user_kind) where
    Keeps-handle_deletion : (u : User) (c : Client) → Keeps P (handle_deletion env u c)
    unfolding handle_deletion delete_account drop_finalizer delete_user
    Keeps-handle_deletion u c = search (step_rules, Keeps-update_error_status) depth 12

    Keeps-ensure_finalizer : (u : User) → Keeps P (ensure_finalizer env u)
    unfolding ensure_finalizer
    Keeps-ensure_finalizer u = search (step_rules, Keeps-put env update user_kind writes)

    Keeps-reconcile_with : (u : User) (a : Access) → Keeps P (reconcile_with env u a)
    unfolding reconcile_with reconcile_live
    Keeps-reconcile_with u (refused r e) = Keeps-update_error_status u r e
    Keeps-reconcile_with u (granted i c) =
        search (step_rules, Keeps-handle_deletion, Keeps-ensure_finalizer, Keeps-sync_user) depth 8

    -- A run keeps what its reads, its requests and the writes that it makes keep.
    pub Keeps-reconcile : (key : Key) → Keeps P (reconcile env key)
    unfolding reconcile reconcile_user
    Keeps-reconcile key = search (step_rules, Keeps-reconcile_with) depth 10
