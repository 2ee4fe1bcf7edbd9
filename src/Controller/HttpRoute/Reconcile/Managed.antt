-- ===== src/Controller/HttpRoute/Reconcile/Managed.antt =====
-- httproute_controller.go: what a route can make the operator write.
use pocketid_operator.Base.{
  ◌≡◌, refl, ap, ◌∙◌, ◌⊎◌, true, false, if◌then◌else◌, Option, none, some, ◌==◌, string_eq, eq_iff,
  ◌∷◌, Bool-cases, inl, inr,
}
use pocketid_operator.Base.Lists.{is_nil}
use pocketid_operator.Error.{Result, ok, err, is_not_found, Result-cases}
use pocketid_operator.Api.Meta.{ObjectMeta, CrossNamespaceObjectReference}
use pocketid_operator.Api.Core.{HttpRoute}
use pocketid_operator.Api.Instance.{Instance}
use pocketid_operator.Api.OidcClient.{OidcClient, EnvoyGatewayConfig}
use pocketid_operator.World.{
  Env, M, History, Verb, create, update, pure, on_error, fetch, put, ◌>>=◌, got, wrote,
  instance_kind, http_route_kind, oidc_client_kind,
}
use pocketid_operator.World.Effects.{effects, effects_reads}
use pocketid_operator.World.Keeps.{Keeps, keeps_rules}
use pocketid_operator.Controller.Steps.{Keeps-validate}
use pocketid_operator.Controller.Outcome.{Outcome, finished, failed}
use pocketid_operator.Controller.References.{
  Verdict, allowed, denied, undecided, validate_cross_namespace_reference,
  resolve_instance_reference, instance_key,
}
use pocketid_operator.Controller.References.Rules.{MayReference, validate-MayReference_iff}
use pocketid_operator.Controller.HttpRoute.Desired.{
  annotation, uses_envoy_gateway, annotation_oidc_enabled, annotation_allowed_groups, redirect_uris,
  desired_client, overwrite_spec, parse_allowed_group_refs,
}
use pocketid_operator.Controller.HttpRoute.Reconcile.{
  Choice, waiting, no_choice, chosen, choose_instance, write_client, apply_client, apply_route,
  with_choice, reconcile_route,
}

-- A route that asks for a gateway is itself protected by it, with the default paths.
abbrev pub wanted_gateway : HttpRoute → Option EnvoyGatewayConfig
wanted_gateway route =
    if uses_envoy_gateway route
    then some (record {
      enabled = true;
      http_route_ref = some (record { name = route.name; namespace = route.namespace });
      callback_path = "";
      logout_path = "";
    })
    else none

-- The one effect of a run: it writes an OIDC client for a route that asks for it, at an instance
-- that the namespace of the route may reference.
pub record Manages (env : Env) (route : HttpRoute) (h h' : History) : Type 0 where
  pub enabled : annotation route annotation_oidc_enabled ≡ "true"
  pub at : History
  pub instance : Instance
  pub ref : CrossNamespaceObjectReference
  pub at_read : History
  pub found : env.get instance_kind at_read (instance_key ref route.namespace) ≡ ok instance
  pub may_reference : MayReference env at instance route.namespace
  pub verb : Verb
  pub client : OidcClient
  pub client_ref : client.spec.instance_ref ≡ ref
  pub urls : client.spec.callback_urls ≡ redirect_uris route
  pub has_urls : is_nil client.spec.callback_urls ≡ false
  pub groups :
      client.spec.allowed_user_group_refs
      ≡ parse_allowed_group_refs (annotation route annotation_allowed_groups)
  pub gateway : client.spec.envoy_gateway ≡ wanted_gateway route
  pub one_effect : effects h' ≡ wrote verb oidc_client_kind client ∷ effects h

module _ (env : Env) (route : HttpRoute) where
  abbrev pub RouteEffect : History → History → Type 0
  RouteEffect h h' = (effects h' ≡ effects h) ⊎ Manages env route h h'

  Keeps-choose : (es : History) → Keeps (λ h. effects h ≡ es) (choose_instance env route)
  unfolding choose_instance
  Keeps-choose es = search (keeps_rules, effects_reads) depth 8

-- A route that asks for a client, at an instance that it may reference.
module _ (env : Env) (route : HttpRoute) (start : History)
    (enabled : annotation route annotation_oidc_enabled ≡ "true")
    (ref : CrossNamespaceObjectReference) (instance : Instance) (at_read at : History)
    (found : env.get instance_kind at_read (instance_key ref route.namespace) ≡ ok instance)
    (may_reference : MayReference env at instance route.namespace)
    (has_urls : is_nil (redirect_uris route) ≡ false) where
  abbrev desired : ObjectMeta → OidcClient
  desired m = record (desired_client route ref (redirect_uris route)) { metadata = m }

  -- What follows the write.
  abbrev conclude : Result OidcClient → M Outcome
  conclude written = on_error written (λ e. pure (failed e)) (λ c. pure finished)

  effects-conclude : (r : Result OidcClient) (h : History) → effects (conclude r h).1 ≡ effects h
  effects-conclude (ok c) h = refl
  effects-conclude (err e) h = refl

  manages :
      (v : Verb) (c : OidcClient) (h : History)
      → effects h ≡ effects start
      → c.spec.instance_ref ≡ ref
      → c.spec.callback_urls ≡ redirect_uris route
      → c.spec.allowed_user_group_refs
        ≡ parse_allowed_group_refs (annotation route annotation_allowed_groups)
      → c.spec.envoy_gateway ≡ wanted_gateway route
      → RouteEffect env route start
          (conclude (env.write v oidc_client_kind h c) (wrote v oidc_client_kind c ∷ h)).1
  manages v c h same r urls groups gateway = inr (record {
    enabled = enabled;
    at = at;
    instance = instance;
    ref = ref;
    at_read = at_read;
    found = found;
    may_reference = may_reference;
    verb = v;
    client = c;
    client_ref = r;
    urls = urls;
    has_urls = rw urls has_urls;
    groups = groups;
    gateway = gateway;
    one_effect =
        effects-conclude (env.write v oidc_client_kind h c) (wrote v oidc_client_kind c ∷ h)
        ∙ ap (λ es. wrote v oidc_client_kind c ∷ es) same;
  })

  RouteEffect-written :
      (m : ObjectMeta) (h : History) (answer : Result OidcClient)
      → effects h ≡ effects start
      → RouteEffect env route start ((write_client env (desired m) answer >>= conclude) h).1
  unfolding write_client put desired_client overwrite_spec ◌>>=◌
  RouteEffect-written m h (err e) same = elim (Bool-cases (is_not_found e)) [
    | inl missing ↦ rw missing (manages create (desired m) h same refl refl refl refl)
    | inr other ↦ rw other (inl same)
  ]
  RouteEffect-written m h (ok existing) same =
      manages update (record existing { spec = overwrite_spec existing.spec (desired m).spec }) h
        same refl refl refl refl

  RouteEffect-apply_client :
      (h : History)
      → effects h ≡ effects start
      → RouteEffect env route start
          (apply_client env route (desired_client route ref (redirect_uris route)) h).1
  unfolding apply_client fetch ◌>>=◌
  RouteEffect-apply_client h same =
      elim (Result-cases (
        env.set_controller_reference http_route_kind route.metadata
          (desired_client route ref (redirect_uris route)).metadata)) [
            | inl (e, p) ↦ rw (p, on_error) (inl same)
            | inr (m, p) ↦ rw (p, on_error) (RouteEffect-written m _ _ same)
          ]

module _ (env : Env) (route : HttpRoute) where
  RouteEffect-apply_route :
      annotation route annotation_oidc_enabled ≡ "true"
      → (ref : CrossNamespaceObjectReference) (instance : Instance) (start at_read at h : History)
      → env.get instance_kind at_read (instance_key ref route.namespace) ≡ ok instance
      → effects h ≡ effects start
      → (v : Verdict) → (validate_cross_namespace_reference env instance route.namespace at).0 ≡ v
      → RouteEffect env route start (apply_route env route ref v h).1
  unfolding apply_route
  RouteEffect-apply_route enabled ref i start at_read at h found same (undecided e) p = inl same
  RouteEffect-apply_route enabled ref i start at_read at h found same (denied r) p = inl same
  RouteEffect-apply_route enabled ref i start at_read at h found same allowed p =
      elim (Bool-cases (is_nil (redirect_uris route))) [
        | inl missing ↦ rw missing (inl same)
        | inr there ↦ rw there (
            RouteEffect-apply_client env route start enabled ref i at_read at found
              ((validate-MayReference_iff env i route.namespace at).0 p) there h same)
      ]

  RouteEffect-with_choice :
      annotation route annotation_oidc_enabled ≡ "true"
      → (start h : History) → effects h ≡ effects start
      → (c : Choice) → RouteEffect env route start (with_choice env route c h).1
  unfolding with_choice resolve_instance_reference fetch ◌>>=◌
  RouteEffect-with_choice enabled start h same waiting = inl same
  RouteEffect-with_choice enabled start h same (no_choice e) = inl same
  RouteEffect-with_choice enabled start h same (chosen ref) =
      elim (Result-cases (env.get instance_kind h (instance_key ref route.namespace))) [
        | inl (e, p) ↦ rw (p, on_error) (inl same)
        | inr (i, p) ↦
            let h' : History = got instance_kind (instance_key ref route.namespace) ∷ h in
            rw (p, on_error)
              (RouteEffect-apply_route enabled ref i start h h'
                (validate_cross_namespace_reference env i route.namespace h').1 p
                ((Keeps-validate env (effects_reads (effects start)) i route.namespace).at h' same)
                _ refl)
      ]

  -- A run on a route has no effect, or one: it writes an OIDC client. It does that only for a route
  -- whose annotation asks for it, at an instance that is there and that the namespace of the route
  -- may reference; the client has the redirect URIs of the route, of which there is one at least,
  -- the groups that the annotation names, and, where the route asks for one, a gateway for this
  -- route.
  pub reconcile_route-effect :
      (h : History) → RouteEffect env route h (reconcile_route env route h).1
  unfolding reconcile_route ◌>>=◌
  reconcile_route-effect h =
      elim (Bool-cases (annotation route annotation_oidc_enabled == "true")) [
        | inl enabled ↦ rw enabled (
            RouteEffect-with_choice
              ((eq_iff (annotation route annotation_oidc_enabled) "true").0 enabled) h
              (choose_instance env route h).1 ((Keeps-choose env route (effects h)).at h refl)
              (choose_instance env route h).0)
        | inr off ↦ rw off (inl refl)
      ]
