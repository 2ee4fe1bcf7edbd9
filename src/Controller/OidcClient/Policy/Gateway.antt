-- ===== src/Controller/OidcClient/Policy/Gateway.antt =====
-- securitypolicy.go: the steps of `ensureSecurityPolicy` have the effects that Effect describes.
use pocketid_operator.Base.{
  ◌≡◌, refl, ap, ◌∙◌, String, true, false, is_empty, if◌then◌else◌, Option, none, some, List, [],
  ◌∷◌, Bool-cases, inl, inr,
}
use pocketid_operator.Api.Meta
use pocketid_operator.Error.{plain, Result, ok, err, is_not_found, Result-cases}
use pocketid_operator.Api.Meta.{Key, ObjectMeta, named, key_of, NamespacedObjectReference}
use pocketid_operator.Api.Core.{HttpRoute, SecurityPolicy}
use pocketid_operator.Api.Instance.{Instance}
use pocketid_operator.Api.OidcClient.{OidcClient, EnvoyGatewayConfig}
use pocketid_operator.World.{
  Env, M, History, Verb, create, update, pure, on_error, on_nil, fetch, put, ◌>>=◌, got, wrote,
  security_policy_kind, http_route_kind, oidc_client_kind,
}
use pocketid_operator.World.Effects.{effects}
use pocketid_operator.Controller.OidcClient.Policy.{
  policy_spec, build_security_policy, remove_policy, write_policy, apply_policy, protect_route,
  enable_policy, ensure_security_policy, or_default,
}
use pocketid_operator.Controller.OidcClient.Policy.Effect.{
  IsProtected, is_enabled, route_key, no_client, no_credentials, no_route_ref, unreadable_route,
  no_host, not_owned, unreadable_policy, PolicyEffect, failing, applied, Puts, creates, updates,
  PolicyEffect-remove, conclude, is_ok-conclude, effects-conclude,
}

-- An enabled gateway whose route was read.
module _ (env : Env) (oidc : OidcClient) (i : Instance) (h : History) (eg : EnvoyGatewayConfig)
    (is_protected : IsProtected oidc eg) (route : HttpRoute)
    (found : env.get http_route_kind h (record {
      name = is_protected.ref.name;
      namespace = or_default is_protected.ref.namespace oidc.namespace;
    })
      ≡ ok route) where
  abbrev after_route : History
  after_route = got http_route_kind (route_key oidc is_protected.ref) ∷ h

  protects :
      (text host : String) (hosts : List String) (v : Verb) (p : SecurityPolicy) (hw : History)
      → route.hostnames ≡ host ∷ hosts
      → p.spec ≡ policy_spec oidc eg i route host
      → effects hw ≡ effects h
      → Puts env oidc after_route v p
      → let (r, h') =
          conclude env oidc i text
            (env.write v security_policy_kind hw p)
            (wrote v security_policy_kind p ∷ hw) in
        PolicyEffect env oidc i h r h'
  protects text host hosts v p hw named spec same puts =
      applied
        (record {
          eg = eg;
          is_protected = is_protected;
          route = route;
          found = found;
          host = host;
          other_hosts = hosts;
          hosts = named;
          verb = v;
          policy = p;
          spec = spec;
          at_write = hw;
          result = is_ok-conclude env oidc i text (env.write v security_policy_kind hw p) _;
          one_effect =
              effects-conclude env oidc i text (env.write v security_policy_kind hw p) _
              ∙ ap (λ es. wrote v security_policy_kind p ∷ es) same;
        })
        puts

  PolicyEffect-write :
      (host : String) (hosts : List String) (p : SecurityPolicy) (hw : History)
      (answer : Result SecurityPolicy)
      → env.get security_policy_kind after_route (key_of oidc.metadata) ≡ answer
      → env.set_controller_reference oidc_client_kind oidc.metadata
          (Meta.named oidc.name oidc.namespace)
        ≡ ok p.metadata
      → route.hostnames ≡ host ∷ hosts
      → p.spec ≡ policy_spec oidc eg i route host
      → effects hw ≡ effects h
      → PolicyEffect env oidc i h
          (write_policy env oidc i p answer hw).0
          (write_policy env oidc i p answer hw).1
  unfolding write_policy put ◌>>=◌
  PolicyEffect-write host hosts p hw (ok x) read owned named spec same =
      protects "failed to update SecurityPolicy: " host hosts update (record x { spec = p.spec }) hw
        named spec same (updates x (record x { spec = p.spec }) read refl)
  PolicyEffect-write host hosts p hw (err e) read owned named spec same =
      elim (Bool-cases (is_not_found e)) [
        | inl missing ↦ rw missing (
            protects "failed to create SecurityPolicy: " host hosts create p hw named spec same
              (creates e p read missing owned))
        | inr other ↦ rw other (
            failing eg is_protected.configured is_protected.enabled
              (unreadable_policy is_protected.ref e is_protected.names_route read other) refl same)
      ]

  PolicyEffect-hosts :
      (hosts : List String)
      → route.hostnames ≡ hosts
      → PolicyEffect env oidc i h
          (apply_policy env oidc i eg route after_route).0
          (apply_policy env oidc i eg route after_route).1
  unfolding apply_policy build_security_policy fetch ◌>>=◌
  PolicyEffect-hosts [] named =
      rw (named, on_error)
        (failing eg is_protected.configured is_protected.enabled
          (no_host is_protected.ref route is_protected.names_route found named) refl refl)
  PolicyEffect-hosts (host ∷ hosts) named =
      elim (Result-cases (
        env.set_controller_reference oidc_client_kind oidc.metadata
          (Meta.named oidc.name oidc.namespace))) [
            | inl (e, p) ↦
                rw (named, p, on_error)
                  (failing eg is_protected.configured is_protected.enabled (not_owned e p) refl
                    refl)
            | inr (m, p) ↦
                rw (named, p, on_error) (PolicyEffect-write host hosts _ _ _ refl p named refl refl)
          ]

module _ (env : Env) (oidc : OidcClient) (i : Instance) (h : History) where
  PolicyEffect-protect :
      (eg : EnvoyGatewayConfig) (p : IsProtected oidc eg)
      → PolicyEffect env oidc i h
          (protect_route env oidc i eg p.ref h).0
          (protect_route env oidc i eg p.ref h).1
  unfolding protect_route fetch ◌>>=◌
  PolicyEffect-protect eg p =
      elim (Result-cases (env.get http_route_kind h (route_key oidc p.ref))) [
        | inl (e, q) ↦
            rw (q, on_error)
              (failing eg p.configured p.enabled (unreadable_route p.ref e p.names_route q) refl
                refl)
        | inr (route, q) ↦
            rw (q, on_error) (PolicyEffect-hosts env oidc i h eg p route q route.hostnames refl)
      ]

  abbrev with_route : EnvoyGatewayConfig → Option NamespacedObjectReference → M (Result OidcClient)
  with_route eg ref =
      on_nil ref
        (pure (err (plain "envoyGateway.httpRouteRef is required when envoyGateway is enabled")))
        (protect_route env oidc i eg)

  PolicyEffect-route :
      (eg : EnvoyGatewayConfig) (ref : Option NamespacedObjectReference)
      → oidc.spec.envoy_gateway ≡ some eg
      → eg.enabled ≡ true
      → is_empty oidc.status.client_id ≡ false
      → is_empty oidc.status.credentials_secret_name ≡ false
      → eg.http_route_ref ≡ ref
      → PolicyEffect env oidc i h (with_route eg ref h).0 (with_route eg ref h).1
  PolicyEffect-route eg none given on client credentials p =
      failing eg given on (no_route_ref p) refl refl
  PolicyEffect-route eg (some ref) given on client credentials p = PolicyEffect-protect eg (record {
    configured = given;
    enabled = on;
    has_client = client;
    has_credentials = credentials;
    ref = ref;
    names_route = p;
  })

  PolicyEffect-enable :
      (eg : EnvoyGatewayConfig)
      → oidc.spec.envoy_gateway ≡ some eg
      → eg.enabled ≡ true
      → PolicyEffect env oidc i h
          (enable_policy env oidc i eg h).0
          (enable_policy env oidc i eg h).1
  unfolding enable_policy
  PolicyEffect-enable eg given on = elim (Bool-cases (is_empty oidc.status.client_id)) [
    | inl unknown ↦ rw unknown (failing eg given on (no_client unknown) refl refl)
    | inr client ↦ elim (Bool-cases (is_empty oidc.status.credentials_secret_name)) [
      | inl missing ↦ rw (client, missing) (failing eg given on (no_credentials missing) refl refl)
      | inr credentials ↦
          rw (client, credentials)
            (PolicyEffect-route eg eg.http_route_ref given on client credentials refl)
    ]
  ]

  abbrev step : Option EnvoyGatewayConfig → M (Result OidcClient)
  step gateway =
      on_nil gateway (remove_policy env oidc i)
        (λ eg. if eg.enabled then enable_policy env oidc i eg else remove_policy env oidc i)

  PolicyEffect-step :
      (gateway : Option EnvoyGatewayConfig)
      → oidc.spec.envoy_gateway ≡ gateway
      → PolicyEffect env oidc i h (step gateway h).0 (step gateway h).1
  PolicyEffect-step none p = PolicyEffect-remove env oidc i h (ap is_enabled p)
  PolicyEffect-step (some eg) p = elim (Bool-cases eg.enabled) [
    | inl on ↦ simp on (PolicyEffect-enable eg p on)
    | inr off ↦ simp off (PolicyEffect-remove env oidc i h (ap is_enabled p ∙ off))
  ]

  -- The gateway step has no effect, or one. It fails with none only for an enabled gateway that
  -- lacks the id of the client, the name of the credentials secret, or a route that can be read and
  -- has a host, or whose policy cannot be read or owned. It leaves all as it is where no gateway is
  -- enabled and the status names no policy, or one that cannot be read. It writes a security policy
  -- only for an enabled gateway when the client has an id and a credentials secret and its route
  -- can be read and has a host; the policy is then the one for the first host, created with the
  -- client as its owner where there is none of its name and else an update of the one that is
  -- there, and the step succeeds if the write does. It deletes one only when no gateway is enabled
  -- and the status names a policy, and then the one that is there.
  pub ensure_security_policy-effect :
      PolicyEffect env oidc i h
        (ensure_security_policy env oidc i h).0
        (ensure_security_policy env oidc i h).1
  unfolding ensure_security_policy
  ensure_security_policy-effect = PolicyEffect-step oidc.spec.envoy_gateway refl
