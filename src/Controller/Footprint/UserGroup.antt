-- ===== src/Controller/Footprint/UserGroup.antt =====
-- pocketidusergroup_controller.go: what a run writes, as the invariants that it keeps.
use pocketid_operator.World.Keeps.{IgnoresReads, IgnoresSends, IgnoresWrites, Keeps-put}
use pocketid_operator.World.{user_group_kind, update_status, update}
use pocketid_operator.Base.{String, Option, none, some, string_eq}
use pocketid_operator.Error.{Error}
use pocketid_operator.Api.Meta.{Key}
use pocketid_operator.Api.UserGroup.{UserGroup}
use pocketid_operator.PocketId.Types.{UserGroup as RemoteGroup}
use pocketid_operator.PocketId.Request.{Client}
use pocketid_operator.PocketId.Client.{
  delete_group, get_group, list_groups, create_group, update_group,
}
use pocketid_operator.World.{Env, History}
use pocketid_operator.World.Keeps.{Keeps}
use pocketid_operator.Controller.Steps.{step_rules}
use pocketid_operator.Controller.Access.{Access, refused, granted}
use pocketid_operator.Controller.UserGroup.Reconcile.{
  update_error_status, drop_finalizer, delete_remote, handle_deletion, ensure_finalizer,
  write_synced, finish, create_remote, update_remote, create_or_update, search_remote, get_remote,
  sync_group, reconcile_live, reconcile_with, reconcile_group, reconcile,
}

module _ (env : Env) {P : History → Type 0} (reads : IgnoresReads P) (sends : IgnoresSends P)
    (status : IgnoresWrites P update_status user_group_kind) where
  pub Keeps-update_error_status :
      (g : UserGroup) (r : String) (e : Error) → Keeps (P) (update_error_status env g r e)
  unfolding update_error_status
  Keeps-update_error_status g r e = search step_rules depth 8

  Keeps-finish : (g : UserGroup) (remote : RemoteGroup) → Keeps (P) (finish env g remote)
  unfolding finish write_synced
  Keeps-finish g remote = search step_rules depth 12

  Keeps-create_or_update :
      (g : UserGroup) (c : Client) (remote : Option RemoteGroup)
      → Keeps (P) (create_or_update env g c remote)
  unfolding create_or_update create_remote update_remote create_group update_group
  Keeps-create_or_update g c none =
      search (step_rules, Keeps-update_error_status, Keeps-finish) depth 8
  Keeps-create_or_update g c (some remote) =
      search (step_rules, Keeps-update_error_status, Keeps-finish) depth 8

  pub Keeps-sync_group : (c : Client) (g : UserGroup) → Keeps (P) (sync_group env c g)
  unfolding sync_group search_remote get_remote list_groups get_group
  Keeps-sync_group c g =
      search (step_rules, Keeps-update_error_status, Keeps-create_or_update) depth 10

  module _ (writes : IgnoresWrites P update user_group_kind) where
    Keeps-handle_deletion : (g : UserGroup) (c : Client) → Keeps P (handle_deletion env g c)
    unfolding handle_deletion delete_remote drop_finalizer delete_group
    Keeps-handle_deletion g c = search (step_rules, Keeps-update_error_status) depth 12

    Keeps-ensure_finalizer : (g : UserGroup) → Keeps P (ensure_finalizer env g)
    unfolding ensure_finalizer
    Keeps-ensure_finalizer g = search (step_rules, Keeps-put env update user_group_kind writes)

    Keeps-reconcile_with : (g : UserGroup) (a : Access) → Keeps P (reconcile_with env g a)
    unfolding reconcile_with reconcile_live
    Keeps-reconcile_with g (refused r e) = Keeps-update_error_status g r e
    Keeps-reconcile_with g (granted i c) =
        search (step_rules, Keeps-handle_deletion, Keeps-ensure_finalizer, Keeps-sync_group) depth 8

    -- A run keeps what its reads, its requests and the writes that it makes keep.
    pub Keeps-reconcile : (key : Key) → Keeps P (reconcile env key)
    unfolding reconcile reconcile_group
    Keeps-reconcile key = search (step_rules, Keeps-reconcile_with) depth 10
