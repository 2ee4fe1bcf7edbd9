-- ===== src/Controller/OidcClient/Reconcile/Failures.antt =====
-- pocketidoidcclient_controller.go and securitypolicy.go: the steps that fail where the status
-- lacks what the policy needs.
use pocketid_operator.Base.{
  ◌≡◌, refl, ◌∙◌, ap, true, is_empty, is_some, some, inl, inr, ◌⊎◌, Bool-cases, String, arith,
}
use pocketid_operator.Error.{Error, plain, Result, ok, err}
use pocketid_operator.Api.Core.{Secret}
use pocketid_operator.Api.Instance.{Instance}
use pocketid_operator.Api.OidcClient.{OidcClient, EnvoyGatewayConfig}
use pocketid_operator.PocketId.Types.{OidcClient as RemoteClient}
use pocketid_operator.PocketId.Request.{Client}
use pocketid_operator.World.{Env, History, pure, on_error, on_nil, ◌>>=◌}
use pocketid_operator.World.Ends.{Ends, Ends-pure, Ends-bind_of, ends_rules}
use pocketid_operator.Controller.Outcome.{Outcome, failed, failed_after}
use pocketid_operator.Controller.Settled.OidcClient.{HasCredentials, credentials-Rests}
use pocketid_operator.Controller.OidcClient.Credentials.{
  ensure_credentials_secret, store_credentials, with_secret, create_credentials,
  complete_credentials, write_credentials, with_secret_name,
}
use pocketid_operator.Controller.OidcClient.Policy.{ensure_security_policy, enable_policy}
use pocketid_operator.Controller.OidcClient.Reconcile.{update_error_status, protect, publish}

-- The run gives an error.
pub record Fails (r : Outcome) (h : History) : Type 0 where
  pub has_error : is_some r.error ≡ true

-- What the policy needs is not in the status.
abbrev pub Misses : OidcClient → Type 0
Misses w = (is_empty w.status.client_id ≡ true) ⊎ (is_empty w.status.credentials_secret_name ≡ true)

abbrev pub HasGateway : OidcClient → Type 0
HasGateway w = (eg : EnvoyGatewayConfig) × (w.spec.envoy_gateway ≡ some eg) × (eg.enabled ≡ true)

module _ (env : Env) where
  Ends-failed : (e : Error) → Ends Fails (pure (failed e))
  Ends-failed e = Ends-pure (failed e) (λ h. record { has_error = refl })

  Ends-failed_after : (e : Error) → Ends Fails (pure (failed_after 30 e))
  Ends-failed_after e = Ends-pure (failed_after 30 e) (λ h. record { has_error = refl })

  pub Ends-update_error_status :
      (o : OidcClient) (reason : String) (e : Error)
      → Ends Fails (update_error_status env o reason e)
  unfolding update_error_status
  Ends-update_error_status o reason e = search (ends_rules, Ends-failed_after) depth 8

  refuses_policy :
      (i : Instance) (w : OidcClient) (h : History)
      → HasGateway w
      → Misses w
      → (e : Error) × (ensure_security_policy env w i h ≡ (err e, h))
  unfolding ensure_security_policy enable_policy
  refuses_policy i w h (eg, given, on) misses = elim (Bool-cases (is_empty w.status.client_id)) [
    | inl unknown ↦ (
      plain "cannot create SecurityPolicy: client ID not yet available",
      simp (given, on_nil, on, unknown) refl,
    )
    | inr client ↦ elim misses [
      | inl unknown ↦ absurd (ground (arith, client, unknown))
      | inr missing ↦ (
        plain "cannot create SecurityPolicy: credentials secret not yet available",
        simp (given, on_nil, on, client, missing) refl,
      )
    ]
  ]

  Ends-protect :
      (i : Instance) (remote : RemoteClient) (w : OidcClient)
      → HasGateway w
      → Misses w
      → Ends Fails (protect env i remote w)
  unfolding protect ◌>>=◌
  Ends-protect i remote w gateway misses = record {
    at = λ h.
        let (e, fails) = refuses_policy i w h gateway misses in
        rw (fails, on_error) ((Ends-update_error_status w "SecurityPolicyFailed" e).at h);
  }

-- What the credentials step gives: the resource with the specification and the id that it had.
data Keeps (o : OidcClient) : Result OidcClient → History → Type 0 where
  kept :
      (w : OidcClient) {h : History}
      → w.spec ≡ o.spec
      → w.status.client_id ≡ o.status.client_id
      → Keeps o (ok w) h
  failing : (e : Error) {h : History} → Keeps o (err e) h

module _ (env : Env) (api : Client) (o : OidcClient) (remote : RemoteClient) (i : Instance) where
  Ends-same : Ends (Keeps o) (pure (ok o))
  Ends-same = Ends-pure (ok o) (λ h. kept o refl refl)

  Ends-named : (name : String) → Ends (Keeps o) (pure (ok (with_secret_name o name)))
  Ends-named name = Ends-pure (ok (with_secret_name o name)) (λ h. kept _ refl refl)

  Ends-failing : (e : Error) → Ends (Keeps o) (pure (err e))
  Ends-failing e = Ends-pure (err e) (λ h. failing e)

  Ends-with_secret :
      (found : Result Secret) (name : String)
      → Ends (Keeps o) (with_secret env api o remote i found name)
  unfolding with_secret create_credentials complete_credentials write_credentials
  Ends-with_secret (ok s) name = search (ends_rules, Ends-same, Ends-named, Ends-failing) depth 10
  Ends-with_secret (err e) name = search (ends_rules, Ends-named, Ends-failing) depth 12

  Ends-credentials : Ends (Keeps o) (ensure_credentials_secret env api o remote i)
  unfolding ensure_credentials_secret store_credentials
  Ends-credentials = search (ends_rules, Ends-same, Ends-with_secret) depth 8

  Fails-after_credentials :
      (r : Result OidcClient) (h : History)
      → HasGateway o
      → is_empty o.status.client_id ≡ true
      → Keeps o r h
      → Fails
          (on_error r (λ e. pure (failed e)) (protect env i remote) h).0
          (on_error r (λ e. pure (failed e)) (protect env i remote) h).1
  Fails-after_credentials _ h gateway no_id (failing e) = record { has_error = refl }
  Fails-after_credentials _ h (eg, given, on) no_id (kept w spec id) =
      (Ends-protect env i remote w (eg, ap (λ s. s.envoy_gateway) spec ∙ given, on)
          (inl (ap is_empty id ∙ no_id))).at
        h

  -- Without an id the policy step fails, if it is reached.
  pub publish-without_id :
      HasGateway o → is_empty o.status.client_id ≡ true → Ends Fails (publish env i api remote o)
  unfolding publish
  publish-without_id gateway no_id =
      Ends-bind_of (ensure_credentials_secret env api o remote i)
        (λ r. on_error r (λ e. pure (failed e)) (protect env i remote)) Ends-credentials
        (λ r h. Fails-after_credentials r h gateway no_id)

  -- So it does without the name of a credentials secret, which is set only when one is written.
  pub publish-without_name :
      HasGateway o
      → is_empty o.status.credentials_secret_name ≡ true
      → ((h : History) → HasCredentials env o h)
      → Ends Fails (publish env i api remote o)
  unfolding publish ◌>>=◌
  publish-without_name gateway no_name there = record {
    at = λ h.
        let rests = credentials-Rests env api o remote i h (there h) in
        rw (rests.same, on_error) ((Ends-protect env i remote o gateway (inr no_name)).at _);
  }
