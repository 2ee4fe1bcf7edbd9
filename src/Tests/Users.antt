-- ===== src/Tests/Users.antt =====
-- The theorems on users: accounts, memberships and onboarding.
use pocketid_operator.Base.{refl, ◌⊎◌, [], ◌∷◌}
use pocketid_operator.Api.User.{User}
use pocketid_operator.PocketId.Types.{User as Account, zero_user}
use pocketid_operator.PocketId.Request.{Client, answered, users_payload, token_payload}
use pocketid_operator.World.{Env}
use pocketid_operator.Controller.User.Account.{resolve_or_create_user}
use pocketid_operator.Controller.User.Account.Outcomes.{Resolution}
use pocketid_operator.Controller.User.Account.Resolution.{resolve_or_create_user-Resolution}
use pocketid_operator.Controller.User.Groups.{sync_group_memberships}
use pocketid_operator.Controller.User.Groups.Sync.{
  RangesKeys, IsInGroups, LeavesGroups, SetsGroups, sync_group_memberships-either,
}
use pocketid_operator.Controller.User.Onboarding.{reconcile_onboarding}
use pocketid_operator.Controller.User.Onboarding.Link.{Onboards, reconcile_onboarding-either}
use pocketid_operator.Tests.Sample.{instance, user, group, oidc_client, environment}

abbrev api : Client
api = record { base_url = "http://main-svc.auth.svc.cluster.local"; api_key = "k" }

abbrev account : Account
account = record zero_user { id = "u1"; username = "jdoe" }

abbrev new_user : User
new_user = record user { status = record user.status { user_id = "" } }

abbrev listing : Env
listing = environment user group oidc_client (answered 200 "" (users_payload (account ∷ [])))

abbrev issuing : Env
issuing = environment user group oidc_client (answered 200 "" (token_payload "t0k3n"))

listing-RangesKeys : RangesKeys listing
listing-RangesKeys = record { contains-range = λ h ks k. refl }

sync_group_memberships-either_example :
    IsInGroups listing [] user account
      × LeavesGroups []
          (sync_group_memberships listing api user account []).0
          (sync_group_memberships listing api user account []).1
    ⊎ (¬ IsInGroups listing [] user account)
      × SetsGroups listing api [] user account
          (sync_group_memberships listing api user account []).1
sync_group_memberships-either_example =
    sync_group_memberships-either listing api [] user account listing-RangesKeys

resolve_or_create_user-Resolution_example :
    Resolution listing api new_user []
      (resolve_or_create_user listing api new_user []).0
      (resolve_or_create_user listing api new_user []).1
resolve_or_create_user-Resolution_example =
    resolve_or_create_user-Resolution listing api new_user []

reconcile_onboarding-either_example :
    Onboards issuing api user account instance
      (reconcile_onboarding issuing api user account instance []).0
      []
      (reconcile_onboarding issuing api user account instance []).1
reconcile_onboarding-either_example =
    reconcile_onboarding-either issuing api user account instance []
