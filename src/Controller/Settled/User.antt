-- ===== src/Controller/Settled/User.antt =====
-- pocketiduser_controller.go: a run on a user that is in sync.
use pocketid_operator.Base.{◌≡◌, refl, ◌∙◌, true, false, is_empty, ◌∷◌, arith}
use pocketid_operator.Error.{ok}
use pocketid_operator.Api.Meta.{Key, key_of}
use pocketid_operator.Api.User.{User}
use pocketid_operator.Api.Instance.{Instance}
use pocketid_operator.PocketId.Types.{User as Account}
use pocketid_operator.PocketId.Request.{Client}
use pocketid_operator.PocketId.Client.{get_user, do_request}
use pocketid_operator.World.{
  Env, History, got, update_status, user_kind, fetch, put, clock, send, on_error, ◌>>=◌,
}
use pocketid_operator.World.Effects.{changes, changes-of_effects}
use pocketid_operator.Controller.Status.{set_synced_condition, set_condition}
use pocketid_operator.Controller.Access.{access}
use pocketid_operator.Controller.Permission.{effects-access}
use pocketid_operator.Controller.Settled.{StatusOnly, StatusOnly-wrote}
use pocketid_operator.Controller.User.Account.{resolve_or_create_user, get_account}
use pocketid_operator.Controller.User.Groups.{sync_group_memberships}
use pocketid_operator.Controller.User.Groups.Sync.{IsInGroups, LeavesGroups-of-IsInGroups}
use pocketid_operator.Controller.User.Onboarding.{
  OnboardingResult, reconcile_onboarding, before_onboarding,
}
use pocketid_operator.Controller.User.Reconcile.{
  ensure_finalizer, write_synced, finish, sync_account, sync_user, reconcile_live, reconcile_with,
  reconcile_user, reconcile,
}
use pocketid_operator.Controller.User.Reconcile.Progress.{IsLive, after_access}

-- Once the link was made, onboarding is over.
reconcile_onboarding_done :
    (env : Env) (c : Client) (u : User) (a : Account) (i : Instance) (h : History)
    → u.status.onboarding_link_created ≡ true
    → reconcile_onboarding env c u a i h ≡ (before_onboarding u, h)
unfolding reconcile_onboarding
reconcile_onboarding_done env c u a i h done = ground (arith, done)

-- The status write is the one change.
write_synced-StatusOnly :
    (env : Env) (latest : User) (a : Account) (o : OnboardingResult) (h before : History)
    → ((history : History) (x : User)
        → (y : User) × (env.write update_status user_kind history x ≡ ok y))
    → changes h ≡ changes before
    → StatusOnly user_kind before (write_synced env latest a o h)
unfolding write_synced set_synced_condition set_condition clock put ◌>>=◌
write_synced-StatusOnly env latest a o h before stored same =
    rw ((stored _ _).1, on_error) (StatusOnly-wrote user_kind _ _ before same)

module _ (env : Env) (key : Key) (h : History) (u : User) (i : Instance) (c : Client)
    (a : Account) where
  abbrev after_account : History
  after_account = (get_user env c u.status.user_id (after_access env key h u i c)).1

  abbrev after_groups : History
  after_groups = (sync_group_memberships env c u a after_account).1

  -- A live user with an account that PocketID gives, in the groups that the resource refers to,
  -- whose login link was made, and that can be read again and its status written.
  pub record IsSettled (latest : User) : Type 0 where
    pub live : IsLive env key h u i c
    pub has_account : is_empty u.status.user_id ≡ false
    pub account : (get_user env c u.status.user_id (after_access env key h u i c)).0 ≡ ok a
    pub in_groups : IsInGroups env after_account u a
    pub onboarded : u.status.onboarding_link_created ≡ true
    pub reread : env.get user_kind after_groups (key_of u.metadata) ≡ ok latest
    pub stored :
        (history : History) (x : User)
        → (y : User) × (env.write update_status user_kind history x ≡ ok y)

  changes-after_account : changes after_account ≡ changes h
  unfolding get_user do_request send ◌>>=◌
  changes-after_account =
      changes-of_effects (access env u.spec.instance_ref u.namespace "" (got user_kind key ∷ h)).1
        (got user_kind key ∷ h)
        (effects-access env u.spec.instance_ref u.namespace "" (got user_kind key ∷ h))

  resolve-settled :
      (latest : User)
      → IsSettled latest
      → resolve_or_create_user env c u (after_access env key h u i c) ≡ (ok (a, u), after_account)
  unfolding resolve_or_create_user get_account ◌>>=◌
  resolve-settled latest s = rw (s.has_account, s.account, on_error) refl

  pub reconcile-user_settled :
      (latest : User) → IsSettled latest → StatusOnly user_kind h (reconcile env key h)
  unfolding reconcile reconcile_user reconcile_with reconcile_live ensure_finalizer sync_user
      sync_account finish fetch ◌>>=◌
  reconcile-user_settled latest s =
      let groups = LeavesGroups-of-IsInGroups env c after_account u a s.in_groups in
      rw
        (
          s.live.found,
          on_error,
          s.live.opened,
          s.live.not_deleted,
          s.live.held,
          resolve-settled latest s,
          groups.succeeds,
          reconcile_onboarding_done env c u a i after_groups s.onboarded,
          s.reread,
        )
        (write_synced-StatusOnly env latest a (before_onboarding u) _ h s.stored
          (changes-of_effects after_groups after_account groups.no_effect ∙ changes-after_account))
