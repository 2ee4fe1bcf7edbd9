-- ===== src/Operator/Guarded.antt =====
-- The route reconciler and the OIDC client reconciler together: a route that asks for a gateway.
use Prim.Native.String.{◌++◌ as ◌<>◌}
use pocketid_operator.Base.{
  ◌≡◌, ◌↔◌, ◌⊎◌, refl, sym, ap, ◌∙◌, inl, inr, true, String, string_eq, is_empty, Bool-cases,
  eq_refl, some, ◌∷◌, List, arith,
}
use pocketid_operator.Base.Lists.{contains}
use pocketid_operator.Base.Text.{split}
use pocketid_operator.Error.{ok}
use pocketid_operator.Api.Meta.{key_of, NamespacedObjectReference}
use pocketid_operator.Api.Core.{HttpRoute}
use pocketid_operator.Api.Instance.{Instance}
use pocketid_operator.Api.OidcClient.{OidcClient, EnvoyGatewayConfig}
use pocketid_operator.World.{Env, History, http_route_kind}
use pocketid_operator.Controller.HttpRoute.Desired.{
  annotation, annotation_redirect_paths, uses_envoy_gateway, redirect_uris, default_uri,
}
use pocketid_operator.Controller.HttpRoute.Desired.Uris.{Joins, redirect_uris_iff}
use pocketid_operator.Controller.HttpRoute.Reconcile.{reconcile_route}
use pocketid_operator.Controller.HttpRoute.Reconcile.Managed.{Manages}
use pocketid_operator.Controller.OidcClient.Policy.{ensure_security_policy, policy_spec, or_default}
use pocketid_operator.Controller.OidcClient.Policy.Effect.{Protects}

-- The default callback of a host is registered.
abbrev pub IsRegistered : HttpRoute → String → Type 0
IsRegistered route host =
    (is_empty (annotation route annotation_redirect_paths) ≡ true)
    ⊎ Joins route.hostnames (split b',' (annotation route annotation_redirect_paths))
        (default_uri host)

contains-default_uri_iff :
    (route : HttpRoute) (host : String) (hosts : List String)
    → route.hostnames ≡ host ∷ hosts
    → (contains (redirect_uris route) (default_uri host) ≡ true) ↔ IsRegistered route host
unfolding redirect_uris
contains-default_uri_iff route host hosts named =
    elim (Bool-cases (is_empty (annotation route annotation_redirect_paths))) [
      | inl no_paths ↦
          (λ p. inl no_paths, λ r. rw (no_paths, named, eq_refl (default_uri host)) refl)
      | inr given ↦
          let w = redirect_uris_iff route given (default_uri host) in
          (
            λ p. inr (w.0 p),
            λ r. elim r [
              | inl no_paths ↦ absurd (ground (arith, given, no_paths))
              | inr joins ↦ w.1 joins
            ],
          )
    ]

module _ (env : Env) (route : HttpRoute) (h : History)
    (m : Manages env route h (reconcile_route env route h).1) (o : OidcClient) (i : Instance)
    (later : History)
    (p : Protects env o i later
      (ensure_security_policy env o i later).0
      (ensure_security_policy env o i later).1)
    (asked : uses_envoy_gateway route ≡ true) (same_spec : o.spec ≡ m.client.spec)
    (beside : o.namespace ≡ route.namespace)
    (unchanged : env.get http_route_kind later (key_of route.metadata) ≡ ok route) where
  abbrev own : EnvoyGatewayConfig
  own = record {
    enabled = true;
    http_route_ref = some (record { name = route.name; namespace = route.namespace });
    callback_path = "";
    logout_path = "";
  }

  own_gateway : p.eg ≡ own
  own_gateway =
      let given : some own ≡ some p.eg =
        rw asked at
          (sym (sym p.is_protected.configured ∙ ap (λ s. s.envoy_gateway) same_spec ∙ m.gateway)) in
      cc (given)

  abbrev own_ref : NamespacedObjectReference
  own_ref = record { name = route.name; namespace = route.namespace }

  names_own_route : p.is_protected.ref ≡ own_ref
  names_own_route =
      let named : some p.is_protected.ref ≡ some own_ref =
        sym p.is_protected.names_route ∙ ap (λ g. g.http_route_ref) own_gateway in
      cc (named)

  beside_route : or_default route.namespace o.namespace ≡ route.namespace
  beside_route = elim (Bool-cases (is_empty route.namespace)) [
    | inl missing ↦ rw missing beside
    | inr there ↦ rw there refl
  ]

  own_route : p.route ≡ route
  own_route =
      let read : ok p.route ≡ ok route =
        sym p.found
        ∙ ap
            (λ r.
              env.get http_route_kind later
                (record { name = r.name; namespace = or_default r.namespace o.namespace }))
            names_own_route
        ∙ ap (λ n. env.get http_route_kind later (record { name = route.name; namespace = n }))
            beside_route
        ∙ unchanged in
      cc (read)

  -- The redirect URL of the policy is the default callback of its host.
  redirects_to_default : p.policy.spec.redirect_url ≡ default_uri p.host
  unfolding policy_spec
  redirects_to_default =
      ap (λ s. s.redirect_url) p.spec
      ∙ ap (λ g. "https://" <> p.host <> or_default g.callback_path "/oauth2/callback") own_gateway

  targets_own_route : p.policy.spec.target_name ≡ route.name
  unfolding policy_spec
  targets_own_route = ap (λ s. s.target_name) p.spec ∙ ap (λ r. r.name) own_route

  registers_redirect :
      (contains o.spec.callback_urls p.policy.spec.redirect_url ≡ true) ↔ IsRegistered route p.host
  registers_redirect =
      let urls : o.spec.callback_urls ≡ redirect_uris route =
        ap (λ s. s.callback_urls) same_spec ∙ m.urls in
      rw (urls, redirects_to_default)
        (contains-default_uri_iff route p.host p.other_hosts
          (ap (λ r. r.hostnames) (sym own_route) ∙ p.hosts))

  -- Where a run on a route that asks for a gateway writes a client, and later the policy step for
  -- that client, with the specification that was written, writes a policy while the route is still
  -- the same, the policy targets the route, and uses the id and the credentials secret of the
  -- client. The URL that it redirects to is one of the callback URLs of the client exactly when the
  -- route names no redirect paths, or one of its hosts and one of these paths make up the default
  -- callback of the first host.
  pub reconcile_route-guarded :
      (p.policy.spec.target_name ≡ route.name)
      × (p.policy.spec.client_id ≡ o.status.client_id)
      × (p.policy.spec.client_secret_name ≡ o.status.credentials_secret_name)
      × ((contains o.spec.callback_urls p.policy.spec.redirect_url ≡ true)
          ↔ IsRegistered route p.host)
  unfolding policy_spec
  reconcile_route-guarded = (
    targets_own_route,
    ap (λ s. s.client_id) p.spec,
    ap (λ s. s.client_secret_name) p.spec,
    registers_redirect,
  )
