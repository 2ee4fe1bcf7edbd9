-- ===== src/Controller/Reports/User.antt =====
-- pocketiduser_controller.go: the result of a run, and the status that the run wrote last.
use pocketid_operator.Base.{◌≡◌, refl, true, false, String}
use pocketid_operator.Error.{Error}
use pocketid_operator.Api.Meta.{Key}
use pocketid_operator.Api.User.{User}
use pocketid_operator.Api.Instance.{Instance}
use pocketid_operator.PocketId.Types.{User as Account}
use pocketid_operator.PocketId.Request.{Client}
use pocketid_operator.World.{Env, History, user_kind}
use pocketid_operator.World.Ends.{Ends, Ends-bind, ends_rules}
use pocketid_operator.Controller.Outcome.{Outcome}
use pocketid_operator.Controller.Access.{Access, refused, granted}
use pocketid_operator.Controller.Reports.{
  KindReports, Ends-done, Ends-failed, Ends-ignore, Ends-synced, Ends-not_synced,
}
use pocketid_operator.Controller.User.Onboarding.{OnboardingResult}
use pocketid_operator.Controller.User.Reconcile.{
  update_error_status, drop_finalizer, delete_account, handle_deletion, write_synced, finish,
  sync_account, sync_user, reconcile_live, reconcile_with, reconcile_user, reconcile,
}

-- The status says that the user is ready and in sync, for the generation that was read.
pub record IsSynced (u : User) : Type 0 where
  pub is_ready : u.status.ready ≡ true
  pub is_synced : u.status.synced ≡ true
  pub generation : u.status.observed_generation ≡ u.metadata.generation

-- The status says that the user is neither.
pub record HasFailed (u : User) : Type 0 where
  pub not_ready : u.status.ready ≡ false
  pub not_synced : u.status.synced ≡ false

module _ (env : Env) where
  abbrev pub UserReports : Outcome → History → Type 0
  UserReports = KindReports env user_kind IsSynced HasFailed

  Ends-update_error_status :
      (u : User) (reason : String) (e : Error)
      → Ends UserReports (update_error_status env u reason e)
  unfolding update_error_status
  Ends-update_error_status u reason e = Ends-bind _ _ (λ conditions.
      Ends-not_synced env user_kind IsSynced HasFailed e _
        (record { not_ready = refl; not_synced = refl }))

  Ends-write_synced :
      (u : User) (a : Account) (o : OnboardingResult) → Ends UserReports (write_synced env u a o)
  unfolding write_synced
  Ends-write_synced u a o = Ends-bind _ _ (λ now. Ends-bind _ _ (λ conditions.
      Ends-synced env user_kind IsSynced HasFailed _
        (record { is_ready = refl; is_synced = refl; generation = refl })))

  Ends-drop_finalizer : (u : User) → Ends UserReports (drop_finalizer env u)
  unfolding drop_finalizer
  Ends-drop_finalizer u = search (ends_rules, Ends-done, Ends-failed)

  Ends-handle_deletion : (u : User) (c : Client) → Ends UserReports (handle_deletion env u c)
  unfolding handle_deletion delete_account
  Ends-handle_deletion u c =
      search (ends_rules, Ends-done, Ends-update_error_status, Ends-drop_finalizer) depth 8

  Ends-finish :
      (u : User) (a : Account) (o : OnboardingResult) → Ends UserReports (finish env u a o)
  unfolding finish
  Ends-finish u a o = search (ends_rules, Ends-failed, Ends-write_synced)

  Ends-reconcile_live :
      (i : Instance) (c : Client) (u : User) → Ends UserReports (reconcile_live env i c u)
  unfolding reconcile_live sync_user sync_account
  Ends-reconcile_live i c u =
      search (ends_rules, Ends-failed, Ends-update_error_status, Ends-finish) depth 12

  Ends-reconcile_with : (u : User) (a : Access) → Ends UserReports (reconcile_with env u a)
  unfolding reconcile_with
  Ends-reconcile_with u (refused r e) = Ends-update_error_status u r e
  Ends-reconcile_with u (granted i c) =
      search (ends_rules, Ends-handle_deletion, Ends-reconcile_live)

  -- The result of a run of the user reconciler: nothing to do; or an error alone; or another run in
  -- five minutes, and then the last event is a write of the status, granted by the server, that
  -- says that the user is ready and in sync and whose observed generation is the one that was read;
  -- or an error and another run in half a minute, and then the last event is a write of a status
  -- that says that the user is neither ready nor in sync.
  pub reconcile-UserReports :
      (key : Key) (h : History) → UserReports (reconcile env key h).0 (reconcile env key h).1
  unfolding reconcile reconcile_user
  reconcile-UserReports key =
      let e : Ends UserReports (reconcile env key) =
        search (ends_rules, Ends-ignore, Ends-reconcile_with) depth 8 in
      e.at
