-- ===== src/Operator/Settled.antt =====
-- Runs on resources that are in sync.
use pocketid_operator.Base.{List}
use pocketid_operator.Api.Meta.{Key}
use pocketid_operator.Api.User.{User}
use pocketid_operator.Api.UserGroup.{UserGroup}
use pocketid_operator.Api.OidcClient.{OidcClient}
use pocketid_operator.Api.Instance.{Instance}
use pocketid_operator.PocketId.Types.{
  User as Account, UserGroup as RemoteGroup, OidcClient as RemoteClient, UserGroupMinimal,
}
use pocketid_operator.PocketId.Request.{Client}
use pocketid_operator.World.{Env, History}
use pocketid_operator.Controller.Settled.{StatusOnly}
use pocketid_operator.Controller.Settled.User as SettledUser
use pocketid_operator.Controller.Settled.UserGroup as SettledGroup
use pocketid_operator.Controller.Settled.OidcClient as SettledClient
use pocketid_operator.Operator.Setup.{
  Controller, user_controller, oidc_client_controller, user_group_controller, setup_with_manager,
}
use pocketid_operator.Operator.Runs.{run}

module _ (env : Env) (key : Key) (h : History) where
  -- The resource with the key, of the kind of the controller, is in sync when the run starts.
  pub data InSync : Controller → Type 0 where
    user :
        (u : User) (i : Instance) (c : Client) (a : Account) (latest : User)
        → SettledUser.IsSettled env key h u i c a latest
        → InSync user_controller
    group :
        (g : UserGroup) (i : Instance) (c : Client) (remote : RemoteGroup) (latest : UserGroup)
        → SettledGroup.IsSettled env key h g i c remote latest
        → InSync user_group_controller
    client :
        (o : OidcClient) (i : Instance) (c : Client) (groups : List UserGroupMinimal)
        (remote : RemoteClient) (latest : OidcClient)
        → SettledClient.IsSettled env key h o i c groups remote latest
        → InSync oidc_client_controller

  -- A run on a resource that is in sync asks for another run in five minutes, and its one change,
  -- beside requests that only read, is a write of the status of that kind: nothing in PocketID
  -- changes, no client secret is made again, and no other object is written. In sync is a live
  -- resource with its finalizer whose instance gives access, that can be read again and its status
  -- written, and that has its counterpart in PocketID: a user in exactly the wanted groups and with
  -- a login link made; a user group with the name and friendly name of the specification; an OIDC
  -- client whose groups resolve, that agrees with the specification, and that has its client secret
  -- where it wants one, with no gateway enabled and no policy left.
  pub run-in_sync :
      (c : Controller) → InSync c → StatusOnly (setup_with_manager c).resource h (run env c key h)
  run-in_sync _ (user u i c a latest s) =
      SettledUser.reconcile-user_settled env key h u i c a latest s
  run-in_sync _ (group g i c remote latest s) =
      SettledGroup.reconcile-group_settled env key h g i c remote latest s
  run-in_sync _ (client o i c groups remote latest s) =
      SettledClient.reconcile-client_settled env key h o i c groups remote latest s
