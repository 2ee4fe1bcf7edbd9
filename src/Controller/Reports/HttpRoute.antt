-- ===== src/Controller/Reports/HttpRoute.antt =====
-- httproute_controller.go: what a run comes back with.
use pocketid_operator.Error.{Error}
use pocketid_operator.Api.Meta.{Key, CrossNamespaceObjectReference}
use pocketid_operator.Api.Core.{HttpRoute}
use pocketid_operator.Api.OidcClient.{OidcClient}
use pocketid_operator.World.{Env, History, pure}
use pocketid_operator.World.Ends.{Ends, Ends-pure, ends_rules}
use pocketid_operator.Controller.Outcome.{Outcome, finished, failed, ignore_not_found}
use pocketid_operator.Controller.References.{Verdict, allowed, denied, undecided}
use pocketid_operator.Controller.Reports.{Reports, done, error_only, Reports-ignore_not_found}
use pocketid_operator.Controller.HttpRoute.Reconcile.{
  Choice, waiting, chosen, no_choice, apply_client, apply_route, with_choice, reconcile_route,
  reconcile,
}

-- A route has no status of the operator's, so nothing is said of one.
abbrev pub RouteReports : Outcome → History → Type 0
RouteReports = Reports (λ h. ⊥) (λ h. ⊥)

module _ (env : Env) where
  Ends-done : Ends RouteReports (pure finished)
  Ends-done = Ends-pure finished (λ h. done)

  Ends-failed : (e : Error) → Ends RouteReports (pure (failed e))
  Ends-failed e = Ends-pure (failed e) (λ h. error_only e)

  Ends-ignore : (e : Error) → Ends RouteReports (pure (ignore_not_found e))
  Ends-ignore e = Ends-pure (ignore_not_found e) (Reports-ignore_not_found e)

  Ends-apply_client :
      (route : HttpRoute) (c : OidcClient) → Ends RouteReports (apply_client env route c)
  unfolding apply_client
  Ends-apply_client route c = search (ends_rules, Ends-done, Ends-failed) depth 8

  Ends-apply_route :
      (route : HttpRoute) (ref : CrossNamespaceObjectReference) (v : Verdict)
      → Ends RouteReports (apply_route env route ref v)
  unfolding apply_route
  Ends-apply_route route ref (undecided e) = Ends-failed e
  Ends-apply_route route ref (denied reason) = Ends-done
  Ends-apply_route route ref allowed = search (ends_rules, Ends-done, Ends-apply_client)

  Ends-with_choice : (route : HttpRoute) (c : Choice) → Ends RouteReports (with_choice env route c)
  unfolding with_choice
  Ends-with_choice route waiting = Ends-done
  Ends-with_choice route (no_choice e) = Ends-failed e
  Ends-with_choice route (chosen ref) = search (ends_rules, Ends-failed, Ends-apply_route) depth 8

  pub reconcile-RouteReports :
      (key : Key) (h : History) → RouteReports (reconcile env key h).0 (reconcile env key h).1
  unfolding reconcile reconcile_route
  reconcile-RouteReports key =
      let e : Ends RouteReports (reconcile env key) =
        search (ends_rules, Ends-done, Ends-ignore, Ends-with_choice) depth 8 in
      e.at
