-- ===== src/Controller/UserGroup/Reconcile.antt =====
-- `Reconcile`, `updateErrorStatus` and `needsGroupUpdate` of pocketidusergroup_controller.go. The
-- sections of `Reconcile` are functions of their own.
pub mod Progress
pub mod Agreement
use pocketid_operator.Base.{
  String, Bool, true, false, not, ◌==◌, string_eq, is_empty, is_some, if◌then◌else◌, Option, none,
  some, List, [], ◌∷◌,
}
use pocketid_operator.Error.{Error, Result, ok}
use pocketid_operator.Api.Meta.{Key, key_of}
use pocketid_operator.Api.UserGroup.{UserGroup, UserGroupSpec}
use pocketid_operator.PocketId.Types.{UserGroup as RemoteGroup, UserGroupCreate}
use pocketid_operator.PocketId.Request.{Client}
use pocketid_operator.PocketId.Client.{
  get_group, list_groups, create_group, update_group, delete_group,
}
use pocketid_operator.World.{
  Env, M, pure, on_error, fetch, put, clock, update, update_status, user_group_kind, ◌>>=◌, ◌>>◌,
}
use pocketid_operator.Controller.Outcome.{
  Outcome, finished, failed, again_after, failed_after, ignore_not_found,
}
use pocketid_operator.Controller.Status.{set_synced_condition, set_error_condition}
use pocketid_operator.Controller.Access.{Access, refused, granted, access}

abbrev pub group_finalizer : String
group_finalizer = "pocketid.tobiash.github.io/group-finalizer"

unfoldable pub needs_group_update : RemoteGroup → UserGroupCreate → Bool
needs_group_update current target =
    if not (current.name == target.name)
    then true
    else if not (current.friendly_name == target.friendly_name)
    then true
    else false

-- `targetGroup`
abbrev pub target_group : UserGroupSpec → UserGroupCreate
target_group spec = record { name = spec.name; friendly_name = spec.friendly_name }

-- The loop over the listed groups.
abbrev pub find_group : String → List RemoteGroup → Option RemoteGroup
find_group name [] = none
find_group name (g ∷ gs) = if g.name == name then some g else find_group name gs

module _ (env : Env) where
  unfoldable pub update_error_status : UserGroup → String → Error → M Outcome
  update_error_status group reason e = do
    conditions ← set_error_condition env group.status.conditions group.metadata.generation reason e
    put env update_status user_group_kind (record group {
      status = record group.status { ready = false; synced = false; conditions = conditions };
    })
    pure (failed_after 30 e)

  unfoldable pub drop_finalizer : UserGroup → M Outcome
  drop_finalizer group = do
    written ←
        put env update user_group_kind
          (record group { metadata = env.remove_finalizer group.metadata group_finalizer })
    on_error written (λ e. pure (failed e)) (λ g. pure finished)

  unfoldable pub delete_remote : UserGroup → Client → M Outcome
  delete_remote group c = do
    deleted ← delete_group env c group.status.group_id
    on_error deleted (update_error_status group "DeleteGroupFailed") (λ _. drop_finalizer group)

  -- The section "Handle deletion".
  unfoldable pub handle_deletion : UserGroup → Client → M Outcome
  handle_deletion group c =
      if env.contains_finalizer group.metadata group_finalizer
      then if is_empty group.status.group_id then drop_finalizer group else delete_remote group c
      else pure finished

  unfoldable pub ensure_finalizer : UserGroup → M (Result UserGroup)
  ensure_finalizer group =
      if env.contains_finalizer group.metadata group_finalizer
      then pure (ok group)
      else put env update user_group_kind
          (record group { metadata = env.add_finalizer group.metadata group_finalizer })

  -- The section "Update status".
  unfoldable pub write_synced : UserGroup → RemoteGroup → M Outcome
  write_synced latest remote = do
    now ← clock env
    conditions ←
        set_synced_condition env latest.status.conditions latest.metadata.generation
          "User group synced successfully"
    written ← put env update_status user_group_kind (record latest {
      status = record latest.status {
        conditions = conditions;
        ready = true;
        group_id = remote.id;
        synced = true;
        last_sync_time = some now;
        observed_generation = latest.metadata.generation;
      };
    })
    on_error written (λ e. pure (failed e)) (λ g. pure (again_after 300))

  unfoldable pub finish : UserGroup → RemoteGroup → M Outcome
  finish group remote = do
    found ← fetch env user_group_kind (key_of group.metadata)
    on_error found (λ e. pure (failed e)) (λ latest. write_synced latest remote)

  unfoldable pub create_remote : UserGroup → Client → M Outcome
  create_remote group c = do
    created ← create_group env c (target_group group.spec)
    on_error created (update_error_status group "CreateGroupFailed") λ remote.
        finish (record group { status = record group.status { group_id = remote.id } }) remote

  unfoldable pub update_remote : UserGroup → Client → RemoteGroup → M Outcome
  update_remote group c current =
      if needs_group_update current (target_group group.spec)
      then (do
        updated ← update_group env c current.id (target_group group.spec)
        on_error updated (update_error_status group "UpdateGroupFailed") (finish group))
      else finish group current

  unfoldable pub create_or_update : UserGroup → Client → Option RemoteGroup → M Outcome
  create_or_update group c none = create_remote group c
  create_or_update group c (some current) = update_remote group c current

  unfoldable pub search_remote : UserGroup → Client → M Outcome
  search_remote group c = do
    listed ← list_groups env c
    on_error listed (update_error_status group "ListGroupFailed")
        λ groups. create_or_update group c (find_group group.spec.name groups)

  unfoldable pub get_remote : UserGroup → Client → M Outcome
  get_remote group c = do
    found ← get_group env c group.status.group_id
    on_error found (update_error_status group "GetGroupFailed")
        λ remote. create_or_update group c (some remote)

  -- The section "Sync logic".
  unfoldable pub sync_group : Client → UserGroup → M Outcome
  sync_group c group =
      if is_empty group.status.group_id then search_remote group c else get_remote group c

  unfoldable pub reconcile_live : Client → UserGroup → M Outcome
  reconcile_live c group = do
    ensured ← ensure_finalizer group
    on_error ensured (λ e. pure (failed e)) (sync_group c)

  unfoldable pub reconcile_with : UserGroup → Access → M Outcome
  reconcile_with group (refused reason e) = update_error_status group reason e
  reconcile_with group (granted i c) =
      if is_some group.metadata.deletion_timestamp
      then handle_deletion group c
      else reconcile_live c group

  unfoldable pub reconcile_group : UserGroup → M Outcome
  reconcile_group group = do
    opened ← access env group.spec.instance_ref group.namespace ""
    reconcile_with group opened

  unfoldable pub reconcile : Key → M Outcome
  reconcile key = do
    found ← fetch env user_group_kind key
    on_error found (λ e. pure (ignore_not_found e)) reconcile_group
