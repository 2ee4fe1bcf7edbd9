-- ===== src/Controller/Reports/UserGroup.antt =====
-- pocketidusergroup_controller.go: the result of a run, and the status that the run wrote last.
use pocketid_operator.Base.{◌≡◌, refl, true, false, String, Option, none, some}
use pocketid_operator.Error.{Error}
use pocketid_operator.Api.Meta.{Key}
use pocketid_operator.Api.UserGroup.{UserGroup}
use pocketid_operator.PocketId.Types.{UserGroup as RemoteGroup}
use pocketid_operator.PocketId.Request.{Client}
use pocketid_operator.World.{Env, History, user_group_kind}
use pocketid_operator.World.Ends.{Ends, Ends-bind, ends_rules}
use pocketid_operator.Controller.Outcome.{Outcome}
use pocketid_operator.Controller.Access.{Access, refused, granted}
use pocketid_operator.Controller.Reports.{
  KindReports, Ends-done, Ends-failed, Ends-ignore, Ends-synced, Ends-not_synced,
}
use pocketid_operator.Controller.UserGroup.Reconcile.{
  update_error_status, drop_finalizer, delete_remote, handle_deletion, write_synced, finish,
  create_remote, update_remote, create_or_update, search_remote, get_remote, sync_group,
  reconcile_live, reconcile_with, reconcile_group, reconcile,
}

-- The status says that the group is ready and in sync, for the generation that was read.
pub record IsSynced (g : UserGroup) : Type 0 where
  pub is_ready : g.status.ready ≡ true
  pub is_synced : g.status.synced ≡ true
  pub generation : g.status.observed_generation ≡ g.metadata.generation

-- The status says that the group is neither.
pub record HasFailed (g : UserGroup) : Type 0 where
  pub not_ready : g.status.ready ≡ false
  pub not_synced : g.status.synced ≡ false

module _ (env : Env) where
  abbrev pub GroupReports : Outcome → History → Type 0
  GroupReports = KindReports env user_group_kind IsSynced HasFailed

  Ends-update_error_status :
      (u : UserGroup) (reason : String) (e : Error)
      → Ends GroupReports (update_error_status env u reason e)
  unfolding update_error_status
  Ends-update_error_status u reason e = Ends-bind _ _ (λ conditions.
      Ends-not_synced env user_group_kind IsSynced HasFailed e _
        (record { not_ready = refl; not_synced = refl }))

  Ends-write_synced : (g : UserGroup) (r : RemoteGroup) → Ends GroupReports (write_synced env g r)
  unfolding write_synced
  Ends-write_synced g r = Ends-bind _ _ (λ now. Ends-bind _ _ (λ conditions.
      Ends-synced env user_group_kind IsSynced HasFailed _
        (record { is_ready = refl; is_synced = refl; generation = refl })))

  Ends-handle_deletion : (g : UserGroup) (c : Client) → Ends GroupReports (handle_deletion env g c)
  unfolding handle_deletion delete_remote drop_finalizer
  Ends-handle_deletion g c =
      search (ends_rules, Ends-done, Ends-failed, Ends-update_error_status) depth 10

  Ends-finish : (g : UserGroup) (r : RemoteGroup) → Ends GroupReports (finish env g r)
  unfolding finish
  Ends-finish g r = search (ends_rules, Ends-failed, Ends-write_synced)

  Ends-create_or_update :
      (g : UserGroup) (c : Client) (r : Option RemoteGroup)
      → Ends GroupReports (create_or_update env g c r)
  unfolding create_or_update create_remote update_remote
  Ends-create_or_update g c none =
      search (ends_rules, Ends-update_error_status, Ends-finish) depth 8
  Ends-create_or_update g c (some r) =
      search (ends_rules, Ends-update_error_status, Ends-finish) depth 8

  Ends-reconcile_live : (c : Client) (g : UserGroup) → Ends GroupReports (reconcile_live env c g)
  unfolding reconcile_live sync_group search_remote get_remote
  Ends-reconcile_live c g =
      search (ends_rules, Ends-failed, Ends-update_error_status, Ends-create_or_update) depth 12

  Ends-reconcile_with : (g : UserGroup) (a : Access) → Ends GroupReports (reconcile_with env g a)
  unfolding reconcile_with
  Ends-reconcile_with g (refused r e) = Ends-update_error_status g r e
  Ends-reconcile_with g (granted i c) =
      search (ends_rules, Ends-handle_deletion, Ends-reconcile_live)

  -- The result of a run of the user group reconciler: nothing to do; or an error alone; or another
  -- run in five minutes, and then the last event is a write of the status, granted by the server,
  -- that says that the group is ready and in sync and whose observed generation is the one that was
  -- read; or an error and another run in half a minute, and then the last event is a write of a
  -- status that says that the group is neither ready nor in sync.
  pub reconcile-GroupReports :
      (key : Key) (h : History) → GroupReports (reconcile env key h).0 (reconcile env key h).1
  unfolding reconcile reconcile_group
  reconcile-GroupReports key =
      let e : Ends GroupReports (reconcile env key) =
        search (ends_rules, Ends-ignore, Ends-reconcile_with) depth 8 in
      e.at
