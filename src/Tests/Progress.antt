-- ===== src/Tests/Progress.antt =====
-- The theorems on runs whose steps succeed.
use pocketid_operator.Base.{◌≡◌, refl, [], ◌∷◌}
use pocketid_operator.Api.Meta.{Key}
use pocketid_operator.Api.User.{User}
use pocketid_operator.Api.UserGroup.{UserGroup}
use pocketid_operator.Api.OidcClient.{OidcClient}
use pocketid_operator.PocketId.Types.{
  User as Account, OidcClient as RemoteClient, UserGroup as RemoteGroup, zero_user, zero_client,
  zero_group,
}
use pocketid_operator.PocketId.Request.{
  Client, Request, Exchange, new_client, answered, user_payload, group_payload, client_payload,
  secret_payload, method_post, undecodable,
}
use pocketid_operator.PocketId.Client.{
  read_response, get_user, set_user_groups, get_group, update_group, do_request, get_oidc_client,
  update_oidc_client, generate_client_secret,
}
use pocketid_operator.World.{Env, History, fetch, put, send, range_keys, ◌>>=◌}
use pocketid_operator.Controller.Outcome.{again_after}
use pocketid_operator.Controller.References.{
  resolve_instance_reference, validate_cross_namespace_reference,
}
use pocketid_operator.Controller.Access.{
  access, admit, make_client, create_api_client_with_dev_default, get_secret, client_with_key,
  pocketid_internal_url,
}
use pocketid_operator.Controller.User.Account.{resolve_or_create_user, get_account}
use pocketid_operator.Controller.User.Groups.{
  sync_group_memberships, desired_group_ids, write_memberships,
}
use pocketid_operator.Controller.User.Reconcile as UserReconcile
use pocketid_operator.Controller.User.Reconcile.{user_finalizer}
use pocketid_operator.Controller.User.Reconcile.Progress as UserProgress
use pocketid_operator.Controller.User.Reconcile.Progress.{reconcile-user_syncs}
use pocketid_operator.Controller.OidcClient.Groups.{resolve_allowed_user_groups}
use pocketid_operator.Controller.OidcClient.Compare.{needs_oidc_client_update, equal_strings}
use pocketid_operator.Controller.OidcClient.Remote.{
  resolve_or_create_client, get_remote, update_remote, create_or_update,
}
use pocketid_operator.Controller.OidcClient.Credentials.{
  ensure_credentials_secret, store_credentials, with_secret, complete_credentials,
  write_credentials,
}
use pocketid_operator.Controller.OidcClient.Policy.{
  ensure_security_policy, remove_policy, delete_existing,
}
use pocketid_operator.Controller.OidcClient.Reconcile as ClientReconcile
use pocketid_operator.Controller.OidcClient.Reconcile.{oidc_client_finalizer}
use pocketid_operator.Controller.OidcClient.Reconcile.Progress as ClientProgress
use pocketid_operator.Controller.OidcClient.Reconcile.Progress.{reconcile-client_syncs}
use pocketid_operator.Controller.UserGroup.Reconcile as GroupReconcile
use pocketid_operator.Controller.UserGroup.Reconcile.{
  group_finalizer, needs_group_update, target_group,
}
use pocketid_operator.Controller.UserGroup.Reconcile.Progress as GroupProgress
use pocketid_operator.Controller.UserGroup.Reconcile.Progress.{
  updated, named_by_id, reconcile-group_syncs,
}
use pocketid_operator.Tests.Sample.{instance, user, group, oidc_client, environment}

abbrev u : User
u = record user { metadata = record user.metadata { finalizers = user_finalizer ∷ [] } }

abbrev account : Account
account = record zero_user { id = "u1"; username = "jdoe" }

abbrev env : Env
env = environment u group oidc_client (answered 200 "" (user_payload account))

abbrev key : Key
key = record { name = "jdoe"; namespace = "auth" }

abbrev client : Client
client = record { base_url = "http://main-svc.auth.svc.cluster.local"; api_key = "k" }

user_is_live : UserProgress.IsLive env key [] u instance client
unfolding access resolve_instance_reference validate_cross_namespace_reference admit make_client
    create_api_client_with_dev_default get_secret client_with_key pocketid_internal_url new_client
    fetch ◌>>=◌
user_is_live = record { found = refl; not_deleted = refl; opened = refl; held = refl }

user-Succeeds : UserProgress.Succeeds env key [] u instance client account u u
unfolding access resolve_instance_reference validate_cross_namespace_reference admit make_client
    create_api_client_with_dev_default get_secret client_with_key pocketid_internal_url new_client
    resolve_or_create_user get_account get_user do_request read_response send sync_group_memberships
    desired_group_ids write_memberships set_user_groups range_keys fetch ◌>>=◌
user-Succeeds = record {
  resolved = refl;
  grouped = refl;
  reread = refl;
  stored = λ history x. (x, refl);
}

reconcile-user_syncs_example :
    ((UserReconcile.reconcile env key []).0 ≡ again_after 300)
    × UserProgress.SyncedTo account (UserReconcile.reconcile env key []).1
reconcile-user_syncs_example =
    reconcile-user_syncs env key [] u instance client account u u user_is_live user-Succeeds

abbrev o : OidcClient
o = record oidc_client {
  metadata = record oidc_client.metadata { finalizers = oidc_client_finalizer ∷ [] };
}

abbrev remote : RemoteClient
remote = record zero_client { id = "c1"; name = "my-app" }

-- A request with POST is one for a secret.
abbrev reply : Request → Exchange
reply r = elim r.method [
  | method_post ↦ answered 200 "" (secret_payload "s3cret")
  | _ ↦ answered 200 "" (client_payload remote)
]

abbrev server : Env
server = record (environment user group o (answered 204 "" undecodable)) { http = λ h r. reply r }

abbrev published : OidcClient
published = record o { status = record o.status { credentials_secret_name = "my-app-credentials" } }

client_is_live : ClientProgress.IsLive server key [] o instance client
unfolding access resolve_instance_reference validate_cross_namespace_reference admit make_client
    create_api_client_with_dev_default get_secret client_with_key pocketid_internal_url new_client
    fetch ◌>>=◌
client_is_live = record { found = refl; not_deleted = refl; opened = refl; held = refl }

client-Succeeds :
    ClientProgress.Succeeds server key [] o instance client [] remote o published published o
unfolding access resolve_instance_reference validate_cross_namespace_reference admit make_client
    create_api_client_with_dev_default get_secret client_with_key pocketid_internal_url new_client
    resolve_allowed_user_groups resolve_or_create_client get_remote create_or_update update_remote
    get_oidc_client update_oidc_client needs_oidc_client_update equal_strings
    ensure_credentials_secret store_credentials with_secret complete_credentials write_credentials
    generate_client_secret ensure_security_policy remove_policy delete_existing do_request
    read_response send put fetch ◌>>=◌
client-Succeeds = record {
  grouped = refl;
  resolved = refl;
  published = refl;
  protected = refl;
  reread = refl;
  stored = λ history x. (x, refl);
}

reconcile-client_syncs_example :
    ((ClientReconcile.reconcile server key []).0 ≡ again_after 300)
    × ClientProgress.SyncedTo remote published (ClientReconcile.reconcile server key []).1
reconcile-client_syncs_example =
    reconcile-client_syncs server key [] o instance client [] remote o published published o
      client_is_live client-Succeeds

abbrev g : UserGroup
g = record group { metadata = record group.metadata { finalizers = group_finalizer ∷ [] } }

-- The friendly name is an old one.
abbrev remote_group : RemoteGroup
remote_group = record zero_group { id = "g1"; name = "developers"; friendly_name = "Devs" }

abbrev groups : Env
groups = environment user g oidc_client (answered 200 "" (group_payload remote_group))

group_is_live : GroupProgress.IsLive groups key [] g instance client
unfolding access resolve_instance_reference validate_cross_namespace_reference admit make_client
    create_api_client_with_dev_default get_secret client_with_key pocketid_internal_url new_client
    fetch ◌>>=◌
group_is_live = record { found = refl; not_deleted = refl; opened = refl; held = refl }

group_is_updated :
    (h : History)
    → GroupProgress.Reaches groups client g h remote_group g
        (update_group groups client "g1" (target_group g.spec) (get_group groups client "g1" h).1).1
unfolding get_group update_group do_request read_response send needs_group_update ◌>>=◌
group_is_updated h =
    updated remote_group remote_group _ (named_by_id remote_group refl refl)
      (λ agrees. absurd (cc (agrees.friendly_name))) refl

reconcile-group_syncs_example :
    ((GroupReconcile.reconcile groups key []).0 ≡ again_after 300)
    × GroupProgress.SyncedTo remote_group (GroupReconcile.reconcile groups key []).1
reconcile-group_syncs_example =
    reconcile-group_syncs groups key [] g instance client remote_group g g _ group_is_live
      (group_is_updated _) refl (λ history x. (x, refl))
