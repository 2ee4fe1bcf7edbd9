-- ===== src/Controller/Footprint/HttpRoute.antt =====
-- httproute_controller.go: what a run writes, as the invariants that it keeps.
use pocketid_operator.Error.{Result, ok, err}
use pocketid_operator.Api.Meta.{Key, CrossNamespaceObjectReference}
use pocketid_operator.Api.Core.{HttpRoute}
use pocketid_operator.Api.OidcClient.{OidcClient}
use pocketid_operator.World.{Env, History, create, update, oidc_client_kind}
use pocketid_operator.World.Keeps.{Keeps, IgnoresReads, IgnoresWrites, Keeps-put, keeps_rules}
use pocketid_operator.Controller.Steps.{Keeps-resolve, Keeps-validate}
use pocketid_operator.Controller.References.{Verdict, allowed, denied, undecided}
use pocketid_operator.Controller.HttpRoute.Reconcile.{
  Choice, chosen, waiting, no_choice, choose_instance, write_client, apply_client, apply_route,
  with_choice, reconcile_route, reconcile,
}

module _ (env : Env) {P : History → Type 0} (reads : IgnoresReads P)
    (applies : (route : HttpRoute) (desired : OidcClient)
      → Keeps P (apply_client env route desired)) where
  Keeps-apply_route :
      (route : HttpRoute) (ref : CrossNamespaceObjectReference) (v : Verdict)
      → Keeps P (apply_route env route ref v)
  unfolding apply_route
  Keeps-apply_route route ref (undecided e) = search keeps_rules
  Keeps-apply_route route ref (denied reason) = search keeps_rules
  Keeps-apply_route route ref allowed = search (keeps_rules, applies)

  Keeps-with_choice : (route : HttpRoute) (c : Choice) → Keeps P (with_choice env route c)
  unfolding with_choice
  Keeps-with_choice route waiting = search keeps_rules
  Keeps-with_choice route (no_choice e) = search keeps_rules
  Keeps-with_choice route (chosen ref) =
      search (keeps_rules, Keeps-resolve, Keeps-validate, Keeps-apply_route) depth 8

  -- A run keeps what its reads and the application of the client keep.
  pub Keeps-reconcile : (key : Key) → Keeps P (reconcile env key)
  unfolding reconcile reconcile_route choose_instance
  Keeps-reconcile key = search (keeps_rules, Keeps-with_choice) depth 12

module _ (env : Env) {P : History → Type 0} (reads : IgnoresReads P)
    (creates : IgnoresWrites P create oidc_client_kind)
    (updates : IgnoresWrites P update oidc_client_kind) where
  Keeps-write_client :
      (desired : OidcClient) (found : Result OidcClient) → Keeps P (write_client env desired found)
  unfolding write_client
  Keeps-write_client desired (ok x) = Keeps-put env update oidc_client_kind updates _
  Keeps-write_client desired (err e) =
      search (keeps_rules, Keeps-put env create oidc_client_kind creates)

  pub Keeps-apply_client :
      (route : HttpRoute) (desired : OidcClient) → Keeps P (apply_client env route desired)
  unfolding apply_client
  Keeps-apply_client route desired = search (keeps_rules, Keeps-write_client) depth 8
