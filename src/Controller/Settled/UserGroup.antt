-- ===== src/Controller/Settled/UserGroup.antt =====
-- pocketidusergroup_controller.go: a run on a user group that is in sync.
use pocketid_operator.Base.{◌≡◌, false, is_empty, ◌∷◌}
use pocketid_operator.Error.{ok}
use pocketid_operator.Api.Meta.{Key, key_of}
use pocketid_operator.Api.UserGroup.{UserGroup}
use pocketid_operator.Api.Instance.{Instance}
use pocketid_operator.PocketId.Types.{UserGroup as RemoteGroup}
use pocketid_operator.PocketId.Request.{Client}
use pocketid_operator.PocketId.Client.{get_group, do_request}
use pocketid_operator.World.{
  Env, History, got, update_status, user_group_kind, fetch, put, clock, send, on_error, ◌>>=◌,
}
use pocketid_operator.World.Effects.{changes, changes-of_effects}
use pocketid_operator.Controller.Status.{set_synced_condition, set_condition}
use pocketid_operator.Controller.Access.{access}
use pocketid_operator.Controller.Permission.{effects-access}
use pocketid_operator.Controller.Settled.{StatusOnly, StatusOnly-wrote}
use pocketid_operator.Controller.UserGroup.Reconcile.{
  ensure_finalizer, write_synced, finish, reconcile_live, reconcile_with, reconcile_group,
  reconcile,
}
use pocketid_operator.Controller.UserGroup.Reconcile.Agreement.{Agrees}
use pocketid_operator.Controller.UserGroup.Reconcile.Progress.{
  IsLive, after_access, kept, named_by_id, sync_group-Reaches,
}

-- The status write is the one change.
write_synced-StatusOnly :
    (env : Env) (latest : UserGroup) (remote : RemoteGroup) (h before : History)
    → ((history : History) (x : UserGroup)
        → (y : UserGroup) × (env.write update_status user_group_kind history x ≡ ok y))
    → changes h ≡ changes before
    → StatusOnly user_group_kind before (write_synced env latest remote h)
unfolding write_synced set_synced_condition set_condition clock put ◌>>=◌
write_synced-StatusOnly env latest remote h before stored same =
    rw ((stored _ _).1, on_error) (StatusOnly-wrote user_group_kind _ _ before same)

module _ (env : Env) (key : Key) (h : History) (g : UserGroup) (i : Instance) (c : Client)
    (remote : RemoteGroup) where
  abbrev after_group : History
  after_group = (get_group env c g.status.group_id (after_access env key h g i c)).1

  -- A live user group with a group that PocketID gives, with the name and the friendly name of the
  -- spec, and that can be read again and its status written.
  pub record IsSettled (latest : UserGroup) : Type 0 where
    pub live : IsLive env key h g i c
    pub has_group : is_empty g.status.group_id ≡ false
    pub group : (get_group env c g.status.group_id (after_access env key h g i c)).0 ≡ ok remote
    pub agrees : Agrees remote g.spec
    pub reread : env.get user_group_kind after_group (key_of g.metadata) ≡ ok latest
    pub stored :
        (history : History) (x : UserGroup)
        → (y : UserGroup) × (env.write update_status user_group_kind history x ≡ ok y)

  changes-after_group : changes after_group ≡ changes h
  unfolding get_group do_request send ◌>>=◌
  changes-after_group =
      changes-of_effects
        (access env g.spec.instance_ref g.namespace "" (got user_group_kind key ∷ h)).1
        (got user_group_kind key ∷ h)
        (effects-access env g.spec.instance_ref g.namespace "" (got user_group_kind key ∷ h))

  pub reconcile-group_settled :
      (latest : UserGroup) → IsSettled latest → StatusOnly user_group_kind h (reconcile env key h)
  unfolding reconcile reconcile_group reconcile_with reconcile_live ensure_finalizer finish fetch
      ◌>>=◌
  reconcile-group_settled latest s =
      rw
        (
          s.live.found,
          on_error,
          s.live.opened,
          s.live.not_deleted,
          s.live.held,
          sync_group-Reaches env c g (after_access env key h g i c) remote g after_group
              (kept remote after_group (named_by_id remote s.has_group s.group) s.agrees),
          s.reread,
        )
        (write_synced-StatusOnly env latest remote _ h s.stored changes-after_group)
