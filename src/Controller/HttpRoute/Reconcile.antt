-- ===== src/Controller/HttpRoute/Reconcile.antt =====
-- `Reconcile` of httproute_controller.go
pub mod Managed
pub mod Chosen
use Prim.Native.String.{◌++◌ as ◌<>◌}
use pocketid_operator.Base.{
  String, Bool, true, false, not, ◌==◌, string_eq, is_empty, if◌then◌else◌, Option, none, some,
  List, [], ◌∷◌,
}
use pocketid_operator.Base.Text.{split_once}
use pocketid_operator.Base.Lists.{is_nil}
use pocketid_operator.Error.{Error, plain, is_not_found, Result, ok, err}
use pocketid_operator.Api.Meta.{Key, CrossNamespaceObjectReference}
use pocketid_operator.Api.Core.{HttpRoute}
use pocketid_operator.Api.Instance.{Instance}
use pocketid_operator.Api.OidcClient.{OidcClient}
use pocketid_operator.World.{
  Env, M, pure, on_error, fetch, fetch_all, put, create, update, instance_kind, oidc_client_kind,
  http_route_kind, ◌>>=◌,
}
use pocketid_operator.Controller.Outcome.{Outcome, finished, failed, ignore_not_found}
use pocketid_operator.Controller.References.{
  Verdict, allowed, denied, undecided, validate_cross_namespace_reference,
  resolve_instance_reference,
}
use pocketid_operator.Controller.HttpRoute.Desired.{
  annotation, annotation_oidc_enabled, annotation_instance, client_name, redirect_uris,
  desired_client, overwrite_spec,
}

-- Which instance a route asks for.
pub data Choice : Type 0 where
  chosen : CrossNamespaceObjectReference → Choice
  waiting : Choice
  no_choice : Error → Choice

-- The only instance of the namespace.
unfoldable pub single_instance : List Instance → Choice
single_instance [] = waiting
single_instance (i ∷ []) = chosen (record { name = i.name; namespace = none })
single_instance (i ∷ j ∷ is) = no_choice (
    plain
      ("multiple PocketIDInstances found, please specify " <> annotation_instance <> " annotation"))

-- `name` or `namespace/name`
unfoldable pub parse_instance : String → CrossNamespaceObjectReference
parse_instance text = elim (split_once b'/' text) [
  | none ↦ record { name = text; namespace = none }
  | some (namespace, name) ↦ record { name = name; namespace = some namespace }
]

module _ (env : Env) where
  unfoldable pub choose_instance : HttpRoute → M Choice
  choose_instance route =
      if is_empty (annotation route annotation_instance)
      then (do
        listed ← fetch_all env instance_kind route.namespace
        on_error listed (λ e. pure (no_choice e)) (λ is. pure (single_instance is)))
      else pure (chosen (parse_instance (annotation route annotation_instance)))

  unfoldable pub write_client : OidcClient → Result OidcClient → M (Result OidcClient)
  write_client desired (err e) =
      if is_not_found e then put env create oidc_client_kind desired else pure (err e)
  write_client desired (ok existing) =
      put env update oidc_client_kind
        (record existing { spec = overwrite_spec existing.spec desired.spec })

  unfoldable pub apply_client : HttpRoute → OidcClient → M Outcome
  apply_client route desired =
      on_error (env.set_controller_reference http_route_kind route.metadata desired.metadata)
        (λ e. pure (failed e))
        λ metadata. do
          found ←
              fetch env oidc_client_kind
                (record { name = client_name route; namespace = route.namespace })
          written ← write_client (record desired { metadata = metadata }) found
          on_error written (λ e. pure (failed e)) (λ c. pure finished)

  unfoldable pub apply_route : HttpRoute → CrossNamespaceObjectReference → Verdict → M Outcome
  apply_route route ref (undecided e) = pure (failed e)
  apply_route route ref (denied reason) = pure finished
  apply_route route ref allowed =
      let uris = redirect_uris route in
      if is_nil uris then pure finished else apply_client route (desired_client route ref uris)

  unfoldable pub with_choice : HttpRoute → Choice → M Outcome
  with_choice route waiting = pure finished
  with_choice route (no_choice e) = pure (failed e)
  with_choice route (chosen ref) = do
    resolved ← resolve_instance_reference env ref route.namespace
    on_error resolved (λ e. pure (failed e))
        λ i. do
          verdict ← validate_cross_namespace_reference env i route.namespace
          apply_route route ref verdict

  unfoldable pub reconcile_route : HttpRoute → M Outcome
  reconcile_route route =
      if not (annotation route annotation_oidc_enabled == "true")
      then pure finished
      else (do choice ← choose_instance route; with_choice route choice)

  unfoldable pub reconcile : Key → M Outcome
  reconcile key = do
    found ← fetch env http_route_kind key
    on_error found (λ e. pure (ignore_not_found e)) reconcile_route
