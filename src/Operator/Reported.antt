-- ===== src/Operator/Reported.antt =====
-- What the result of a run says of what the run wrote last.
use pocketid_operator.Api.Meta.{Key}
use pocketid_operator.World.{Env, History}
use pocketid_operator.Controller.Outcome.{Outcome}
use pocketid_operator.Controller.Reports.User.{UserReports, reconcile-UserReports}
use pocketid_operator.Controller.Reports.UserGroup.{GroupReports, reconcile-GroupReports}
use pocketid_operator.Controller.Reports.OidcClient.{ClientReports, reconcile-ClientReports}
use pocketid_operator.Controller.Reports.Instance.Run.{InstanceRun, reconcile-InstanceRun}
use pocketid_operator.Controller.Reports.HttpRoute.{RouteReports, reconcile-RouteReports}
use pocketid_operator.Operator.Setup.{
  Controller, instance_controller, user_controller, oidc_client_controller, user_group_controller,
  http_route_controller,
}
use pocketid_operator.Operator.Runs.{run}

abbrev pub Reported : Env → Key → History → Controller → Outcome → History → Type 0
Reported env key h instance_controller r h' = InstanceRun env key h r h'
Reported env key h user_controller r h' = UserReports env r h'
Reported env key h oidc_client_controller r h' = ClientReports env r h'
Reported env key h user_group_controller r h' = GroupReports env r h'
Reported env key h http_route_controller r h' = RouteReports r h'

module _ (env : Env) where
  -- The result of a run of any controller agrees with what the run wrote last. For users, user
  -- groups and OIDC clients there is nothing to do; or an error alone; or another run in five
  -- minutes, and then the last event is a write of the status, granted by the server, that says
  -- ready and in sync (and, but for clients, the generation that was read); or an error and another
  -- run in half a minute, and then the last event is a write of a status that says neither. A run
  -- on a route is done or gives an error alone. A run on an instance that cannot be read is done
  -- where it is gone, else gives the error; one on an instance that is being deleted is done or
  -- gives an error; one that adds the finalizer does nothing more and comes back at once, or gives
  -- an error; any other is done when the server stored a status that is ready, comes back in ten
  -- seconds when it stored one that is not or when the stateful set could not be read, or gives an
  -- error, alone or with another run in half a minute, and then the last event is a write of a
  -- status that is not ready.
  pub run-Reported :
      (c : Controller) (key : Key) (h : History)
      → Reported env key h c (run env c key h).0 (run env c key h).1
  run-Reported instance_controller key h = reconcile-InstanceRun env key h
  run-Reported user_controller key h = reconcile-UserReports env key h
  run-Reported oidc_client_controller key h = reconcile-ClientReports env key h
  run-Reported user_group_controller key h = reconcile-GroupReports env key h
  run-Reported http_route_controller key h = reconcile-RouteReports env key h
