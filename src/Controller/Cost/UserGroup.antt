-- ===== src/Controller/Cost/UserGroup.antt =====
-- pocketidusergroup_controller.go: how many requests and writes a run makes at most.
use pocketid_operator.Base.{ℕ, suc, String, Option, none, some}
use pocketid_operator.Error.{Error}
use pocketid_operator.Api.Meta.{Key}
use pocketid_operator.Api.UserGroup.{UserGroup}
use pocketid_operator.PocketId.Types.{UserGroup as RemoteGroup}
use pocketid_operator.PocketId.Request.{Client}
use pocketid_operator.PocketId.Client.{
  delete_group, get_group, list_groups, create_group, update_group,
}
use pocketid_operator.World.{Env, update, user_group_kind}
use pocketid_operator.World.Costs.{Spends, Spends-put}
use pocketid_operator.Controller.Cost.Steps.{step_costs}
use pocketid_operator.Controller.Access.{Access, refused, granted}
use pocketid_operator.Controller.UserGroup.Reconcile.{
  update_error_status, drop_finalizer, delete_remote, handle_deletion, ensure_finalizer,
  write_synced, finish, create_remote, update_remote, create_or_update, search_remote, get_remote,
  sync_group, reconcile_live, reconcile_with, reconcile_group, reconcile,
}

module _ (env : Env) {a b : ℕ} where
  Spends-update_error_status :
      (g : UserGroup) (r : String) (e : Error) → Spends a (suc b) (update_error_status env g r e)
  unfolding update_error_status
  Spends-update_error_status g r e = search step_costs depth 8

  Spends-finish : (g : UserGroup) (remote : RemoteGroup) → Spends a (suc b) (finish env g remote)
  unfolding finish write_synced
  Spends-finish g remote = search step_costs depth 12

module _ (env : Env) where
  Spends-create_or_update :
      (g : UserGroup) (c : Client) (remote : Option RemoteGroup)
      → Spends 1 1 (create_or_update env g c remote)
  unfolding create_or_update create_remote update_remote create_group update_group
  Spends-create_or_update g c none = search (step_costs, Spends-update_error_status, Spends-finish)
  Spends-create_or_update g c (some remote) =
      search (step_costs, Spends-update_error_status, Spends-finish) depth 8

  Spends-sync_group : (c : Client) (g : UserGroup) → Spends 2 1 (sync_group env c g)
  unfolding sync_group search_remote get_remote list_groups get_group
  Spends-sync_group c g =
      search (step_costs, Spends-update_error_status, Spends-create_or_update) depth 10

  Spends-drop_finalizer : {a b : ℕ} (g : UserGroup) → Spends a (suc b) (drop_finalizer env g)
  unfolding drop_finalizer
  Spends-drop_finalizer g = search step_costs depth 8

  Spends-handle_deletion : (g : UserGroup) (c : Client) → Spends 2 2 (handle_deletion env g c)
  unfolding handle_deletion delete_remote delete_group
  Spends-handle_deletion g c =
      search (step_costs, Spends-update_error_status, Spends-drop_finalizer) depth 10

  Spends-ensure_finalizer : (g : UserGroup) → Spends 0 1 (ensure_finalizer env g)
  unfolding ensure_finalizer
  Spends-ensure_finalizer g = search (step_costs, Spends-put env update user_group_kind)

  Spends-reconcile_with : (g : UserGroup) (x : Access) → Spends 2 2 (reconcile_with env g x)
  unfolding reconcile_with reconcile_live
  Spends-reconcile_with g (refused r e) = Spends-update_error_status env g r e
  Spends-reconcile_with g (granted i c) =
      search (step_costs, Spends-handle_deletion, Spends-ensure_finalizer, Spends-sync_group) depth
        8

  -- A group is read or looked for, and created or updated; the finalizer and the status are
  -- written.
  pub Spends-reconcile : (key : Key) → Spends 2 2 (reconcile env key)
  unfolding reconcile reconcile_group
  Spends-reconcile key = search (step_costs, Spends-reconcile_with) depth 10
