-- ===== src/Controller/User/Reconcile.antt =====
-- `Reconcile`, `handleDeletion` and `updateErrorStatus` of pocketiduser_controller.go
pub mod Progress
use pocketid_operator.Base.{
  String, true, false, ◌||◌, is_empty, is_some, if◌then◌else◌, Option, none, some,
}
use pocketid_operator.Error.{Error, Result, ok}
use pocketid_operator.Api.Meta.{Key, key_of, Time}
use pocketid_operator.Api.Instance.{Instance}
use pocketid_operator.Api.User.{User}
use pocketid_operator.PocketId.Types.{User as Account}
use pocketid_operator.PocketId.Request.{Client}
use pocketid_operator.PocketId.Client.{delete_user}
use pocketid_operator.World.{
  Env, M, pure, on_error, fetch, put, clock, update, update_status, user_kind, ◌>>=◌, ◌>>◌,
}
use pocketid_operator.Controller.Outcome.{
  Outcome, finished, failed, again_after, failed_after, ignore_not_found,
}
use pocketid_operator.Controller.Status.{set_synced_condition, set_error_condition}
use pocketid_operator.Controller.Access.{Access, refused, granted, access}
use pocketid_operator.Controller.User.Account.{resolve_or_create_user}
use pocketid_operator.Controller.User.Groups.{sync_group_memberships}
use pocketid_operator.Controller.User.Onboarding.{OnboardingResult, reconcile_onboarding}

abbrev pub user_finalizer : String
user_finalizer = "pocketid.tobiash.github.io/user-finalizer"

-- `user.Status.OnboardingEmailSentAt`, overwritten where onboarding gives a time.
abbrev pub email_time : OnboardingResult → Option Time → Option Time
email_time o old = elim o.email_sent_at [ none ↦ old | some t ↦ some t ]

module _ (env : Env) where
  unfoldable pub update_error_status : User → String → Error → M Outcome
  update_error_status user reason e = do
    conditions ← set_error_condition env user.status.conditions user.metadata.generation reason e
    put env update_status user_kind (record user {
      status = record user.status { ready = false; synced = false; conditions = conditions };
    })
    pure (failed_after 30 e)

  unfoldable pub drop_finalizer : User → M Outcome
  drop_finalizer user = do
    written ←
        put env update user_kind
          (record user { metadata = env.remove_finalizer user.metadata user_finalizer })
    on_error written (λ e. pure (failed e)) (λ u. pure finished)

  unfoldable pub delete_account : User → Client → M Outcome
  delete_account user c = do
    deleted ← delete_user env c user.status.user_id
    on_error deleted (update_error_status user "DeleteUserFailed") (λ _. drop_finalizer user)

  unfoldable pub handle_deletion : User → Client → M Outcome
  handle_deletion user c =
      if env.contains_finalizer user.metadata user_finalizer
      then if is_empty user.status.user_id then drop_finalizer user else delete_account user c
      else pure finished

  unfoldable pub ensure_finalizer : User → M (Result User)
  ensure_finalizer user =
      if env.contains_finalizer user.metadata user_finalizer
      then pure (ok user)
      else put env update user_kind
          (record user { metadata = env.add_finalizer user.metadata user_finalizer })

  -- The status of a user that is in sync, on the resource as it was read again.
  unfoldable pub write_synced : User → Account → OnboardingResult → M Outcome
  write_synced latest account o = do
    now ← clock env
    conditions ←
        set_synced_condition env latest.status.conditions latest.metadata.generation
          "User synced successfully"
    written ← put env update_status user_kind (record latest {
      status = record {
        conditions = conditions;
        ready = true;
        user_id = account.id;
        synced = true;
        last_sync_time = some now;
        onboarding_link_created = latest.status.onboarding_link_created || o.link_created;
        onboarding_email_sent = latest.status.onboarding_email_sent || o.email_sent;
        onboarding_email_sent_at = email_time o latest.status.onboarding_email_sent_at;
        observed_generation = latest.metadata.generation;
      };
    })
    on_error written (λ e. pure (failed e)) (λ u. pure (again_after 300))

  unfoldable pub finish : User → Account → OnboardingResult → M Outcome
  finish user account o = do
    found ← fetch env user_kind (key_of user.metadata)
    on_error found (λ e. pure (failed e)) (λ latest. write_synced latest account o)

  unfoldable pub sync_account : Instance → Client → User → Account → M Outcome
  sync_account i c user account = do
    synced ← sync_group_memberships env c user account
    on_error synced (update_error_status user "GroupSyncFailed")
        λ _. do o ← reconcile_onboarding env c user account i; finish user account o

  unfoldable pub sync_user : Instance → Client → User → M Outcome
  sync_user i c user = do
    resolved ← resolve_or_create_user env c user
    on_error resolved (update_error_status user "UserSyncFailed")
        (λ (account, user'). sync_account i c user' account)

  unfoldable pub reconcile_live : Instance → Client → User → M Outcome
  reconcile_live i c user = do
    ensured ← ensure_finalizer user
    on_error ensured (λ e. pure (failed e)) (sync_user i c)

  unfoldable pub reconcile_with : User → Access → M Outcome
  reconcile_with user (refused reason e) = update_error_status user reason e
  reconcile_with user (granted i c) =
      if is_some user.metadata.deletion_timestamp
      then handle_deletion user c
      else reconcile_live i c user

  unfoldable pub reconcile_user : User → M Outcome
  reconcile_user user = do
    opened ← access env user.spec.instance_ref user.namespace ""
    reconcile_with user opened

  unfoldable pub reconcile : Key → M Outcome
  reconcile key = do
    found ← fetch env user_kind key
    on_error found (λ e. pure (ignore_not_found e)) reconcile_user
