-- ===== src/Controller/User/Reconcile/Progress.antt =====
-- pocketiduser_controller.go: a run on a live user whose steps succeed ends with the user in sync.
use pocketid_operator.Base.{◌≡◌, refl, true, false, is_some, ◌∷◌}
use pocketid_operator.Error.{ok}
use pocketid_operator.Api.Meta.{Key, key_of}
use pocketid_operator.Api.User.{User}
use pocketid_operator.Api.Instance.{Instance}
use pocketid_operator.PocketId.Types.{User as Account}
use pocketid_operator.PocketId.Request.{Client}
use pocketid_operator.World.{
  Env, History, got, wrote, update_status, user_kind, fetch, put, clock, on_error, ◌>>=◌,
}
use pocketid_operator.Controller.Outcome.{again_after}
use pocketid_operator.Controller.Status.{set_synced_condition, set_condition}
use pocketid_operator.Controller.Access.{granted, access}
use pocketid_operator.Controller.User.Account.{resolve_or_create_user}
use pocketid_operator.Controller.User.Groups.{sync_group_memberships}
use pocketid_operator.Controller.User.Onboarding.{OnboardingResult, reconcile_onboarding}
use pocketid_operator.Controller.User.Reconcile.{
  user_finalizer, ensure_finalizer, write_synced, finish, sync_account, sync_user, reconcile_live,
  reconcile_with, reconcile_user, reconcile,
}

-- The last event is a write of the status that says that the user is in sync with this account.
pub record SyncedTo (a : Account) (h : History) : Type 0 where
  pub user : User
  pub before : History
  pub newest : h ≡ wrote update_status user_kind user ∷ before
  pub id : user.status.user_id ≡ a.id
  pub is_ready : user.status.ready ≡ true
  pub is_synced : user.status.synced ≡ true

module _ (env : Env) (key : Key) (h : History) (u : User) (i : Instance) (c : Client) where
  abbrev pub after_access : History
  after_access = (access env u.spec.instance_ref u.namespace "" (got user_kind key ∷ h)).1

  -- A live user that has its finalizer and whose instance gives access.
  pub record IsLive : Type 0 where
    pub found : env.get user_kind h key ≡ ok u
    pub not_deleted : is_some u.metadata.deletion_timestamp ≡ false
    pub opened :
        (access env u.spec.instance_ref u.namespace "" (got user_kind key ∷ h)).0 ≡ granted i c
    pub held : env.contains_finalizer u.metadata user_finalizer ≡ true

  module _ (a : Account) (v : User) where
    abbrev pub after_resolve : History
    after_resolve = (resolve_or_create_user env c u after_access).1

    abbrev pub after_groups : History
    after_groups = (sync_group_memberships env c v a after_resolve).1

    abbrev pub after_onboarding : History
    after_onboarding = (reconcile_onboarding env c v a i after_groups).1

    -- The steps that can fail do not: the account is found or made, its groups are set, and the
    -- resource can be read again and its status written.
    pub record Succeeds (latest : User) : Type 0 where
      pub resolved : (resolve_or_create_user env c u after_access).0 ≡ ok (a, v)
      pub grouped : (sync_group_memberships env c v a after_resolve).0 ≡ ok tt
      pub reread : env.get user_kind after_onboarding (key_of v.metadata) ≡ ok latest
      pub stored :
          (history : History) (x : User)
          → (y : User) × (env.write update_status user_kind history x ≡ ok y)

-- A status write of this kind is the last event, and the next run is in five minutes.
write_synced-SyncedTo :
    (env : Env) (latest : User) (a : Account) (o : OnboardingResult) (h : History)
    → ((history : History) (x : User)
        → (y : User) × (env.write update_status user_kind history x ≡ ok y))
    → ((write_synced env latest a o h).0 ≡ again_after 300)
      × SyncedTo a (write_synced env latest a o h).1
unfolding write_synced set_synced_condition set_condition clock put ◌>>=◌
write_synced-SyncedTo env latest a o h stored =
    rw ((stored _ _).1, on_error)
      (
        refl,
        record {
          user = _;
          before = _;
          newest = refl;
          id = refl;
          is_ready = refl;
          is_synced = refl;
        },
      )

module _ (env : Env) (key : Key) (h : History) (u : User) (i : Instance) (c : Client) where
  -- If a user that is not being deleted has its finalizer and its instance gives access, and if the
  -- account is found or made, its groups are set, the resource can be read again and its status
  -- written, then the run asks for another one in five minutes, whatever becomes of the onboarding,
  -- and its last event is a write of the status that says ready and synced, with the id of the
  -- account.
  pub reconcile-user_syncs :
      (a : Account) (v latest : User)
      → IsLive env key h u i c
      → Succeeds env key h u i c a v latest
      → ((reconcile env key h).0 ≡ again_after 300) × SyncedTo a (reconcile env key h).1
  unfolding reconcile reconcile_user reconcile_with reconcile_live ensure_finalizer sync_user
      sync_account finish fetch ◌>>=◌
  reconcile-user_syncs a v latest l s =
      rw (l.found, on_error, l.opened, l.not_deleted, l.held, s.resolved, s.grouped, s.reread)
        (write_synced-SyncedTo env latest a _ _ s.stored)
