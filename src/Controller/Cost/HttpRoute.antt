-- ===== src/Controller/Cost/HttpRoute.antt =====
-- httproute_controller.go: how many requests and writes a run makes at most.
use pocketid_operator.Error.{Result, ok, err}
use pocketid_operator.Api.Meta.{Key, CrossNamespaceObjectReference}
use pocketid_operator.Api.Core.{HttpRoute}
use pocketid_operator.Api.OidcClient.{OidcClient}
use pocketid_operator.World.{Env, create, update, oidc_client_kind}
use pocketid_operator.Controller.References.{Verdict, allowed, denied, undecided}
use pocketid_operator.Controller.HttpRoute.Reconcile.{
  Choice, chosen, waiting, no_choice, choose_instance, write_client, apply_client, apply_route,
  with_choice, reconcile_route, reconcile,
}
use pocketid_operator.World.Costs.{Spends, Spends-put, cost_rules}
use pocketid_operator.Controller.Cost.Steps.{Spends-resolve, Spends-validate}

module _ (env : Env) where
  Spends-write_client :
      (desired : OidcClient) (found : Result OidcClient)
      → Spends 0 1 (write_client env desired found)
  unfolding write_client
  Spends-write_client desired (ok x) = Spends-put env update oidc_client_kind _
  Spends-write_client desired (err e) = search (cost_rules, Spends-put env create oidc_client_kind)

  Spends-apply_client :
      (route : HttpRoute) (desired : OidcClient) → Spends 0 1 (apply_client env route desired)
  unfolding apply_client
  Spends-apply_client route desired = search (cost_rules, Spends-write_client) depth 8

  Spends-apply_route :
      (route : HttpRoute) (ref : CrossNamespaceObjectReference) (v : Verdict)
      → Spends 0 1 (apply_route env route ref v)
  unfolding apply_route
  Spends-apply_route route ref (undecided e) = search cost_rules
  Spends-apply_route route ref (denied reason) = search cost_rules
  Spends-apply_route route ref allowed = search (cost_rules, Spends-apply_client)

  Spends-with_choice : (route : HttpRoute) (c : Choice) → Spends 0 1 (with_choice env route c)
  unfolding with_choice
  Spends-with_choice route waiting = search cost_rules
  Spends-with_choice route (no_choice e) = search cost_rules
  Spends-with_choice route (chosen ref) =
      search (cost_rules, Spends-resolve, Spends-validate, Spends-apply_route) depth 8

  -- The client of the route is written.
  pub Spends-reconcile : (key : Key) → Spends 0 1 (reconcile env key)
  unfolding reconcile reconcile_route choose_instance
  Spends-reconcile key = search (cost_rules, Spends-with_choice) depth 12
