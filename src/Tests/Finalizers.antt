-- ===== src/Tests/Finalizers.antt =====
-- The theorems of Controller.Finalizers on resources that are being deleted.
use pocketid_operator.Base.{refl, []}
use pocketid_operator.Api.Meta.{Key}
use pocketid_operator.PocketId.Request.{answered, undecodable}
use pocketid_operator.World.{Env}
use pocketid_operator.Controller.User.Reconcile.{user_finalizer}
use pocketid_operator.Controller.User.Reconcile
use pocketid_operator.Controller.UserGroup.Reconcile as GroupReconcile
use pocketid_operator.Controller.UserGroup.Reconcile.{group_finalizer}
use pocketid_operator.Controller.OidcClient.Reconcile as ClientReconcile
use pocketid_operator.Controller.OidcClient.Reconcile.{oidc_client_finalizer}
use pocketid_operator.Controller.Finalizers.{clean, IsClean}
use pocketid_operator.Controller.Finalizers.User.{reconcile-user-IsClean}
use pocketid_operator.Controller.Finalizers.UserGroup.{reconcile-group-IsClean}
use pocketid_operator.Controller.Finalizers.OidcClient.{reconcile-client-IsClean}
use pocketid_operator.Tests.Sample.{
  user, group, oidc_client, deleting, environment, machinery-AddsFinalizers,
}

abbrev leaving : Env
leaving =
    environment (record user { metadata = deleting user_finalizer user.metadata })
      (record group { metadata = deleting group_finalizer group.metadata })
      (record oidc_client { metadata = deleting oidc_client_finalizer oidc_client.metadata })
      (answered 204 "" undecodable)

abbrev key : Key
key = record { name = "x"; namespace = "auth" }

empty-IsClean : IsClean leaving []
unfolding clean
empty-IsClean = refl

reconcile-user-IsClean_example : IsClean leaving (Reconcile.reconcile leaving key []).1
reconcile-user-IsClean_example =
    reconcile-user-IsClean leaving machinery-AddsFinalizers key [] empty-IsClean

reconcile-group-IsClean_example : IsClean leaving (GroupReconcile.reconcile leaving key []).1
reconcile-group-IsClean_example =
    reconcile-group-IsClean leaving machinery-AddsFinalizers key [] empty-IsClean

reconcile-client-IsClean_example : IsClean leaving (ClientReconcile.reconcile leaving key []).1
reconcile-client-IsClean_example =
    reconcile-client-IsClean leaving machinery-AddsFinalizers key [] empty-IsClean
