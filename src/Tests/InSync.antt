-- ===== src/Tests/InSync.antt =====
-- A user group and a user that are in sync.
use pocketid_operator.Base.{refl, true, [], ◌∷◌}
use pocketid_operator.Api.Meta.{Key}
use pocketid_operator.Api.User.{User}
use pocketid_operator.Api.UserGroup.{UserGroup}
use pocketid_operator.PocketId.Types.{User as Account, UserGroup as RemoteGroup, zero_user}
use pocketid_operator.PocketId.Request.{Client, new_client, answered, user_payload, group_payload}
use pocketid_operator.PocketId.Client.{get_user, get_group, do_request, read_response}
use pocketid_operator.World.{Env, fetch, send, ◌>>=◌}
use pocketid_operator.Controller.References.{
  resolve_instance_reference, validate_cross_namespace_reference,
}
use pocketid_operator.Controller.Access.{
  access, admit, make_client, create_api_client_with_dev_default, get_secret, client_with_key,
  pocketid_internal_url,
}
use pocketid_operator.Controller.Settled.User as SettledUser
use pocketid_operator.Controller.Settled.UserGroup as SettledGroup
use pocketid_operator.Controller.User.Reconcile.{user_finalizer}
use pocketid_operator.Controller.UserGroup.Reconcile.{group_finalizer}
use pocketid_operator.Tests.Sample.{instance, user, group, oidc_client, environment}

abbrev key : Key
key = record { name = "developers"; namespace = "auth" }

abbrev api : Client
api = record { base_url = "http://main-svc.auth.svc.cluster.local"; api_key = "k" }

abbrev held_group : UserGroup
held_group = record group { metadata = record group.metadata { finalizers = group_finalizer ∷ [] } }

abbrev remote : RemoteGroup
remote = record { id = "g1"; name = "developers"; friendly_name = "Development Team" }

abbrev group_env : Env
group_env = environment user held_group oidc_client (answered 200 "" (group_payload remote))

group_in_sync : SettledGroup.IsSettled group_env key [] held_group instance api remote held_group
unfolding access resolve_instance_reference validate_cross_namespace_reference admit make_client
    create_api_client_with_dev_default get_secret client_with_key pocketid_internal_url new_client
    get_group do_request read_response send fetch ◌>>=◌
group_in_sync = record {
  live = record { found = refl; not_deleted = refl; opened = refl; held = refl };
  has_group = refl;
  group = refl;
  agrees = record { name = refl; friendly_name = refl };
  reread = refl;
  stored = λ history x. (x, refl);
}

-- A user who is in no group and wants none, and whose login link was made.
abbrev lone_user : User
lone_user = record user {
  metadata = record user.metadata { finalizers = user_finalizer ∷ [] };
  spec = record user.spec { user_group_refs = [] };
  status = record user.status { onboarding_link_created = true };
}

abbrev account : Account
account = record zero_user { id = "u1"; username = "jdoe" }

abbrev user_env : Env
user_env = environment lone_user group oidc_client (answered 200 "" (user_payload account))

user_in_sync : SettledUser.IsSettled user_env key [] lone_user instance api account lone_user
unfolding access resolve_instance_reference validate_cross_namespace_reference admit make_client
    create_api_client_with_dev_default get_secret client_with_key pocketid_internal_url new_client
    get_user do_request read_response send fetch ◌>>=◌
user_in_sync = record {
  live = record { found = refl; not_deleted = refl; opened = refl; held = refl };
  has_account = refl;
  account = refl;
  in_groups = λ id. (λ p. absurd (cc), λ w. elim w [ ]);
  onboarded = refl;
  reread = refl;
  stored = λ history x. (x, refl);
}
