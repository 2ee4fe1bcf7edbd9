-- ===== src/Operator/Bounds.antt =====
-- How much a run of each controller asks of the servers at most.
use pocketid_operator.Base.{ℕ, ◌+◌, ◌≤◌}
use pocketid_operator.Api.Meta.{Key}
use pocketid_operator.World.{Env, History}
use pocketid_operator.World.Costs.{Spends, requests, writes}
use pocketid_operator.Controller.Cost.Instance as InstanceCost
use pocketid_operator.Controller.Cost.User as UserCost
use pocketid_operator.Controller.Cost.OidcClient as ClientCost
use pocketid_operator.Controller.Cost.UserGroup as GroupCost
use pocketid_operator.Controller.Cost.HttpRoute as RouteCost
use pocketid_operator.Operator.Setup.{
  Controller, instance_controller, user_controller, oidc_client_controller, user_group_controller,
  http_route_controller,
}
use pocketid_operator.Operator.Runs.{run}

abbrev pub most_requests : Controller → ℕ
most_requests instance_controller = 2
most_requests user_controller = 4
most_requests oidc_client_controller = 3
most_requests user_group_controller = 2
most_requests http_route_controller = 0

abbrev pub most_writes : Controller → ℕ
most_writes instance_controller = 6
most_writes user_controller = 3
most_writes oidc_client_controller = 4
most_writes user_group_controller = 2
most_writes http_route_controller = 1

module _ (env : Env) where
  run-Spends :
      (c : Controller) (key : Key) → Spends (most_requests c) (most_writes c) (run env c key)
  run-Spends instance_controller key = InstanceCost.Spends-reconcile env key
  run-Spends user_controller key = UserCost.Spends-reconcile env key
  run-Spends oidc_client_controller key = ClientCost.Spends-reconcile env key
  run-Spends user_group_controller key = GroupCost.Spends-reconcile env key
  run-Spends http_route_controller key = RouteCost.Spends-reconcile env key

  -- Whatever the servers answer, and however many groups and routes there are, a run comes to its
  -- end within a fixed number of requests to PocketID and of writes to the cluster: 2 and 6 for an
  -- instance, 4 and 3 for a user, 3 and 4 for an OIDC client, 2 and 2 for a user group, and none
  -- and one for a route.
  pub run_bounds :
      (c : Controller) (key : Key) (h : History)
      → (requests (run env c key h).1 ≤ most_requests c + requests h)
        × (writes (run env c key h).1 ≤ most_writes c + writes h)
  run_bounds c key h = let s = run-Spends c key in (s.in_requests h, s.in_writes h)
