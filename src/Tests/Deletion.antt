-- ===== src/Tests/Deletion.antt =====
-- The theorems on deletions that come to their end.
use pocketid_operator.Base.{◌≡◌, refl, [], ◌∷◌}
use pocketid_operator.Error.{ok}
use pocketid_operator.Api.Meta.{Key}
use pocketid_operator.Api.User.{User}
use pocketid_operator.Api.UserGroup.{UserGroup}
use pocketid_operator.Api.OidcClient.{OidcClient}
use pocketid_operator.PocketId.Request.{Client, new_client, answered, undecodable}
use pocketid_operator.PocketId.Client.{read_response, ignore_body}
use pocketid_operator.World.{
  Env, sent, wrote, update, user_kind, user_group_kind, oidc_client_kind, fetch, ◌>>=◌,
}
use pocketid_operator.World.Effects.{effects}
use pocketid_operator.Controller.Outcome.{finished}
use pocketid_operator.Controller.References.{
  resolve_instance_reference, validate_cross_namespace_reference,
}
use pocketid_operator.Controller.Access.{
  access, admit, make_client, create_api_client_with_dev_default, get_secret, client_with_key,
  pocketid_internal_url,
}
use pocketid_operator.Controller.User.Reconcile as UserReconcile
use pocketid_operator.Controller.User.Reconcile.{user_finalizer}
use pocketid_operator.Controller.UserGroup.Reconcile as GroupReconcile
use pocketid_operator.Controller.UserGroup.Reconcile.{group_finalizer}
use pocketid_operator.Controller.OidcClient.Reconcile as ClientReconcile
use pocketid_operator.Controller.OidcClient.Reconcile.{oidc_client_finalizer}
use pocketid_operator.Controller.Deletion.User as UserDeletion
use pocketid_operator.Controller.Deletion.User.{reconcile-user_deletes}
use pocketid_operator.Controller.Deletion.UserGroup as GroupDeletion
use pocketid_operator.Controller.Deletion.UserGroup.{reconcile-group_deletes}
use pocketid_operator.Controller.Deletion.OidcClient as ClientDeletion
use pocketid_operator.Controller.Deletion.OidcClient.{reconcile-client_deletes}
use pocketid_operator.Tests.Sample.{instance, user, group, oidc_client, deleting, environment}

abbrev u : User
u = record user { metadata = deleting user_finalizer user.metadata }

abbrev g : UserGroup
g = record group { metadata = deleting group_finalizer group.metadata }

abbrev o : OidcClient
o = record oidc_client { metadata = deleting oidc_client_finalizer oidc_client.metadata }

abbrev env : Env
env = environment u g o (answered 204 "" undecodable)

abbrev key : Key
key = record { name = "x"; namespace = "auth" }

abbrev client : Client
client = record { base_url = "http://main-svc.auth.svc.cluster.local"; api_key = "k" }

no_content : read_response ignore_body tt (answered 204 "" undecodable) ≡ ok tt
unfolding read_response
no_content = refl

user_leaves : UserDeletion.IsLeaving env key [] u instance client
unfolding access resolve_instance_reference validate_cross_namespace_reference admit make_client
    create_api_client_with_dev_default get_secret client_with_key pocketid_internal_url new_client
    fetch ◌>>=◌
user_leaves = record {
  found = refl;
  deleted = refl;
  opened = refl;
  held = refl;
  has_account = refl;
}

group_leaves : GroupDeletion.IsLeaving env key [] g instance client
unfolding access resolve_instance_reference validate_cross_namespace_reference admit make_client
    create_api_client_with_dev_default get_secret client_with_key pocketid_internal_url new_client
    fetch ◌>>=◌
group_leaves = record {
  found = refl;
  deleted = refl;
  opened = refl;
  held = refl;
  has_counterpart = refl;
}

client_leaves : ClientDeletion.IsLeaving env key [] o instance client
unfolding access resolve_instance_reference validate_cross_namespace_reference admit make_client
    create_api_client_with_dev_default get_secret client_with_key pocketid_internal_url new_client
    fetch ◌>>=◌
client_leaves = record {
  found = refl;
  deleted = refl;
  opened = refl;
  held = refl;
  has_counterpart = refl;
}

reconcile-user_deletes_example :
    ((UserReconcile.reconcile env key []).0 ≡ finished)
    × (effects (UserReconcile.reconcile env key []).1
        ≡ wrote update user_kind (UserDeletion.released env key [] u instance client)
          ∷ sent (UserDeletion.delete_request env key [] u instance client)
          ∷ [])
reconcile-user_deletes_example =
    reconcile-user_deletes env key [] u instance client user_leaves no_content _ refl

reconcile-group_deletes_example :
    ((GroupReconcile.reconcile env key []).0 ≡ finished)
    × (effects (GroupReconcile.reconcile env key []).1
        ≡ wrote update user_group_kind (GroupDeletion.released env key [] g instance client)
          ∷ sent (GroupDeletion.delete_request env key [] g instance client)
          ∷ [])
reconcile-group_deletes_example =
    reconcile-group_deletes env key [] g instance client group_leaves no_content _ refl

reconcile-client_deletes_example :
    ((ClientReconcile.reconcile env key []).0 ≡ finished)
    × (effects (ClientReconcile.reconcile env key []).1
        ≡ wrote update oidc_client_kind (ClientDeletion.released env key [] o instance client)
          ∷ sent (ClientDeletion.delete_request env key [] o instance client)
          ∷ [])
reconcile-client_deletes_example =
    reconcile-client_deletes env key [] o instance client client_leaves no_content _ refl
