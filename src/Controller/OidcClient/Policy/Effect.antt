-- ===== src/Controller/OidcClient/Policy/Effect.antt =====
-- securitypolicy.go: what `ensureSecurityPolicy` writes, and when.
use pocketid_operator.Base.{
  ◌≡◌, refl, String, Bool, true, false, is_empty, Option, none, some, List, [], ◌∷◌, Bool-cases,
  inl, inr,
}
use pocketid_operator.Error.{Error, is_not_found, wrap, Result, ok, err, is_ok, Result-cases}
use pocketid_operator.Api.Meta.{Key, NamespacedObjectReference, key_of, named}
use pocketid_operator.Api.Core.{HttpRoute, SecurityPolicy}
use pocketid_operator.Api.Instance.{Instance}
use pocketid_operator.Api.OidcClient.{OidcClient, EnvoyGatewayConfig}
use pocketid_operator.World.{
  Env, M, History, Verb, create, update, delete, got, oidc_client_kind, pure, on_error, fetch, put,
  ◌>>=◌, wrote, security_policy_kind, http_route_kind,
}
use pocketid_operator.World.Effects.{effects}
use pocketid_operator.Controller.OidcClient.Policy.{
  with_policy_name, policy_spec, delete_existing, remove_policy, or_default,
}

-- The gateway is to authenticate for the client.
pub record IsProtected (oidc : OidcClient) (eg : EnvoyGatewayConfig) : Type 0 where
  pub configured : oidc.spec.envoy_gateway ≡ some eg
  pub enabled : eg.enabled ≡ true
  pub has_client : is_empty oidc.status.client_id ≡ false
  pub has_credentials : is_empty oidc.status.credentials_secret_name ≡ false
  pub ref : NamespacedObjectReference
  pub names_route : eg.http_route_ref ≡ some ref

-- One effect: a policy is written that protects the route, on its first host.
pub record Protects (env : Env) (oidc : OidcClient) (i : Instance) (h : History)
    (r : Result OidcClient) (h' : History) : Type 0 where
  pub eg : EnvoyGatewayConfig
  pub is_protected : IsProtected oidc eg
  pub route : HttpRoute
  pub found :
      env.get http_route_kind h (record {
        name = is_protected.ref.name;
        namespace = or_default is_protected.ref.namespace oidc.namespace;
      })
      ≡ ok route
  pub host : String
  pub other_hosts : List String
  pub hosts : route.hostnames ≡ host ∷ other_hosts
  pub verb : Verb
  pub policy : SecurityPolicy
  pub spec : policy.spec ≡ policy_spec oidc eg i route host
  pub at_write : History
  pub result : is_ok r ≡ is_ok (env.write verb security_policy_kind at_write policy)
  pub one_effect : effects h' ≡ wrote verb security_policy_kind policy ∷ effects h

abbrev pub is_enabled : Option EnvoyGatewayConfig → Bool
is_enabled none = false
is_enabled (some eg) = eg.enabled

abbrev pub route_key : OidcClient → NamespacedObjectReference → Key
route_key oidc ref = record { name = ref.name; namespace = or_default ref.namespace oidc.namespace }

-- What keeps an enabled gateway from being put in place, before anything is written.
pub data Blocked (env : Env) (oidc : OidcClient) (h : History) (eg : EnvoyGatewayConfig)
    : Type 0 where
  no_client : is_empty oidc.status.client_id ≡ true → Blocked env oidc h eg
  no_credentials : is_empty oidc.status.credentials_secret_name ≡ true → Blocked env oidc h eg
  no_route_ref : eg.http_route_ref ≡ none → Blocked env oidc h eg
  unreadable_route :
      (ref : NamespacedObjectReference) (e : Error)
      → eg.http_route_ref ≡ some ref
      → env.get http_route_kind h (route_key oidc ref) ≡ err e
      → Blocked env oidc h eg
  no_host :
      (ref : NamespacedObjectReference) (route : HttpRoute)
      → eg.http_route_ref ≡ some ref
      → env.get http_route_kind h (route_key oidc ref) ≡ ok route
      → route.hostnames ≡ []
      → Blocked env oidc h eg
  not_owned :
      (e : Error)
      → env.set_controller_reference oidc_client_kind oidc.metadata (named oidc.name oidc.namespace)
        ≡ err e
      → Blocked env oidc h eg
  unreadable_policy :
      (ref : NamespacedObjectReference) (e : Error)
      → eg.http_route_ref ≡ some ref
      → env.get security_policy_kind
          (got http_route_kind (route_key oidc ref) ∷ h)
          (key_of oidc.metadata)
        ≡ err e
      → is_not_found e ≡ false
      → Blocked env oidc h eg

-- A policy of the client's name is created, with the client as its owner, where there is none, and
-- the one that is there is updated.
pub data Puts (env : Env) (oidc : OidcClient) (at : History) : Verb → SecurityPolicy → Type 0 where
  creates :
      (e : Error) (policy : SecurityPolicy)
      → env.get security_policy_kind at (key_of oidc.metadata) ≡ err e
      → is_not_found e ≡ true
      → env.set_controller_reference oidc_client_kind oidc.metadata (named oidc.name oidc.namespace)
        ≡ ok policy.metadata
      → Puts env oidc at create policy
  updates :
      (existing policy : SecurityPolicy)
      → env.get security_policy_kind at (key_of oidc.metadata) ≡ ok existing
      → policy.metadata ≡ existing.metadata
      → Puts env oidc at update policy

module _ (env : Env) (oidc : OidcClient) (i : Instance) where
  -- An enabled gateway is blocked, and the step fails with no effect; or no gateway is enabled, and
  -- then the status names no policy, or one that cannot be read, or one that is deleted; or an
  -- enabled gateway is put in place.
  pub data PolicyEffect (h : History) (r : Result OidcClient) (h' : History) : Type 0 where
    failing :
        (eg : EnvoyGatewayConfig)
        → oidc.spec.envoy_gateway ≡ some eg
        → eg.enabled ≡ true
        → Blocked env oidc h eg
        → is_ok r ≡ false
        → effects h' ≡ effects h
        → PolicyEffect h r h'
    unnamed :
        is_enabled oidc.spec.envoy_gateway ≡ false
        → is_empty oidc.status.security_policy_name ≡ true
        → r ≡ ok oidc
        → effects h' ≡ effects h
        → PolicyEffect h r h'
    gone :
        (e : Error)
        → is_enabled oidc.spec.envoy_gateway ≡ false
        → is_empty oidc.status.security_policy_name ≡ false
        → env.get security_policy_kind h (key_of oidc.metadata) ≡ err e
        → r ≡ ok (with_policy_name oidc "")
        → effects h' ≡ effects h
        → PolicyEffect h r h'
    removed :
        (policy : SecurityPolicy) (at : History)
        → is_enabled oidc.spec.envoy_gateway ≡ false
        → is_empty oidc.status.security_policy_name ≡ false
        → env.get security_policy_kind h (key_of oidc.metadata) ≡ ok policy
        → is_ok r ≡ is_ok (env.write delete security_policy_kind at policy)
        → effects h' ≡ wrote delete security_policy_kind policy ∷ effects h
        → PolicyEffect h r h'
    applied :
        (p : Protects env oidc i h r h')
        → Puts env oidc
            (got http_route_kind (route_key oidc p.is_protected.ref) ∷ h)
            p.verb
            p.policy
        → PolicyEffect h r h'

  PolicyEffect-delete_existing :
      (h : History) (found : Result SecurityPolicy)
      → is_enabled oidc.spec.envoy_gateway ≡ false
      → is_empty oidc.status.security_policy_name ≡ false
      → env.get security_policy_kind h (key_of oidc.metadata) ≡ found
      → PolicyEffect h
          (delete_existing env oidc i found (got security_policy_kind (key_of oidc.metadata) ∷ h)).0
          (delete_existing env oidc i found (got security_policy_kind (key_of oidc.metadata) ∷ h)).1
  unfolding delete_existing put ◌>>=◌
  PolicyEffect-delete_existing h (err e) off known p = gone e off known p refl refl
  PolicyEffect-delete_existing h (ok policy) off known p =
      let at : History = got security_policy_kind (key_of oidc.metadata) ∷ h in
      elim (Result-cases (env.write delete security_policy_kind at policy)) [
        | inl (e, q) ↦ rw (q, on_error) (removed policy at off known p (rw q refl) refl)
        | inr (x, q) ↦ rw (q, on_error) (removed policy at off known p (rw q refl) refl)
      ]

  pub PolicyEffect-remove :
      (h : History)
      → is_enabled oidc.spec.envoy_gateway ≡ false
      → PolicyEffect h (remove_policy env oidc i h).0 (remove_policy env oidc i h).1
  unfolding remove_policy fetch ◌>>=◌
  PolicyEffect-remove h off = elim (Bool-cases (is_empty oidc.status.security_policy_name)) [
    | inl unknown ↦ rw unknown (unnamed off unknown refl refl)
    | inr known ↦ rw known (PolicyEffect-delete_existing h _ off known refl)
  ]

  -- What follows a write of the policy.
  abbrev pub conclude : String → Result SecurityPolicy → M (Result OidcClient)
  conclude text written =
      on_error written (λ e. pure (err (wrap text e)))
        (λ p. pure (ok (with_policy_name oidc oidc.name)))

  pub is_ok-conclude :
      (text : String) (w : Result SecurityPolicy) (h : History)
      → is_ok (conclude text w h).0 ≡ is_ok w
  is_ok-conclude text (ok p) h = refl
  is_ok-conclude text (err e) h = refl

  pub effects-conclude :
      (text : String) (w : Result SecurityPolicy) (h : History)
      → effects (conclude text w h).1 ≡ effects h
  effects-conclude text (ok p) h = refl
  effects-conclude text (err e) h = refl
