-- ===== src/Controller/OidcClient/Credentials/Issued.antt =====
-- `ensureCredentialsSecret` of pocketidoidcclient_controller.go: when it asks PocketID for a new
-- client secret, and which Kubernetes secret it writes then.
use pocketid_operator.Base.{
  ◌≡◌, refl, ◌⊎◌, inl, inr, String, Bool, true, false, string_eq, if◌then◌else◌, Option, none, some,
  [], ◌∷◌, Bool-cases, Option-cases,
}
use pocketid_operator.Base.Dict.{lookup}
use pocketid_operator.Error.{
  Error, Result, ok, err, is_ok, is_not_found, Result-cases, PassesOn, gives, fails,
}
use pocketid_operator.Api.Meta.{Key, ObjectMeta, named, LocalObjectReference}
use pocketid_operator.Api.Core.{Secret}
use pocketid_operator.Api.Instance.{Instance}
use pocketid_operator.Api.OidcClient.{OidcClient}
use pocketid_operator.PocketId.Types.{OidcClient as RemoteClient}
use pocketid_operator.PocketId.Request.{Client, Request, method_post, no_body}
use pocketid_operator.PocketId.Client.{generate_client_secret, do_request, request, client_path}
use pocketid_operator.World.{
  Env, M, History, pure, on_error, on_nil, fetch, put, send, Verb, create, update, oidc_client_kind,
  secret_kind, ◌>>=◌, sent, wrote, got,
}
use pocketid_operator.World.Effects.{effects}
use pocketid_operator.Controller.OidcClient.Credentials.Contents.{Holds, with_credentials-Holds}
use pocketid_operator.Controller.OidcClient.Credentials.{
  with_credentials, with_secret_name, write_credentials, create_credentials, complete_credentials,
  with_secret, store_credentials, ensure_credentials_secret,
}
use Prim.Native.String.{◌++◌ as ◌<>◌}

module _ (env : Env) (api : Client) (oidc : OidcClient) (remote : RemoteClient) (i : Instance) where
  abbrev pub secret_request : Request
  secret_request = request api method_post (client_path remote.id <> "/secret") no_body

  abbrev pub credentials_key : String → Key
  credentials_key name = record { name = name; namespace = oidc.namespace }

  abbrev pub after_read : LocalObjectReference → History → History
  after_read ref h = got secret_kind (credentials_key ref.name) ∷ h

  -- The resource is a confidential client whose credentials go to this secret.
  pub record IsWanted (ref : LocalObjectReference) : Type 0 where
    pub confidential : oidc.spec.is_public ≡ false
    pub named_by : oidc.spec.credentials_secret_ref ≡ some ref

  -- The named secret as it is before the credentials, and what is to be done with it: it is there
  -- and holds no client secret; or it is not there, and starts empty, owned by the resource.
  pub data Prepares (ref : LocalObjectReference) (h : History) : Verb → Secret → Type 0 where
    completes :
        (s : Secret)
        → env.get secret_kind h (credentials_key ref.name) ≡ ok s
        → lookup "OIDC_CLIENT_SECRET" s.contents ≡ none
        → Prepares ref h update s
    starts :
        (e : Error) (m : ObjectMeta)
        → env.get secret_kind h (credentials_key ref.name) ≡ err e
        → is_not_found e ≡ true
        → env.set_controller_reference oidc_client_kind oidc.metadata
            (named ref.name oidc.namespace)
          ≡ ok m
        → Prepares ref h create (record { metadata = m; contents = [] })

  -- The resource with the name of the secret in its status.
  abbrev pub recorded : String → OidcClient
  recorded name = record oidc { status = record oidc.status { credentials_secret_name = name } }

  -- Two effects: PocketID is asked for a new client secret, and the prepared secret is written with
  -- it.
  pub record Issues (ref : LocalObjectReference) (verb : Verb) (prepared : Secret) (h : History)
      (r : Result OidcClient) (h' : History) : Type 0 where
    pub client_secret : String
    pub answer : (generate_client_secret env api remote.id (after_read ref h)).0 ≡ ok client_secret
    pub secret : Secret
    pub same_metadata : secret.metadata ≡ prepared.metadata
    pub holds : Holds secret.contents prepared.contents remote.id client_secret i.spec.app_url
    pub result :
        PassesOn
          (λ s. recorded ref.name)
          (env.write verb secret_kind (sent secret_request ∷ after_read ref h) secret)
          r
    pub two_effects : effects h' ≡ wrote verb secret_kind secret ∷ sent secret_request ∷ effects h

  pub data Ensured (h : History) (r : Result OidcClient) (h' : History) : Type 0 where
    not_wanted :
        (oidc.spec.is_public ≡ true) ⊎ (oidc.spec.credentials_secret_ref ≡ none)
        → r ≡ ok oidc
        → effects h' ≡ effects h
        → Ensured h r h'
    in_use :
        (ref : LocalObjectReference) (s : Secret) (client_secret : String)
        → IsWanted ref
        → env.get secret_kind h (credentials_key ref.name) ≡ ok s
        → lookup "OIDC_CLIENT_SECRET" s.contents ≡ some client_secret
        → r ≡ ok oidc
        → effects h' ≡ effects h
        → Ensured h r h'
    unreadable :
        (ref : LocalObjectReference) (e : Error)
        → IsWanted ref
        → env.get secret_kind h (credentials_key ref.name) ≡ err e
        → is_not_found e ≡ false
        → is_ok r ≡ false
        → effects h' ≡ effects h
        → Ensured h r h'
    not_owned :
        (ref : LocalObjectReference) (e x : Error)
        → IsWanted ref
        → env.get secret_kind h (credentials_key ref.name) ≡ err e
        → is_not_found e ≡ true
        → env.set_controller_reference oidc_client_kind oidc.metadata
            (named ref.name oidc.namespace)
          ≡ err x
        → is_ok r ≡ false
        → effects h' ≡ effects h
        → Ensured h r h'
    not_generated :
        (ref : LocalObjectReference) (verb : Verb) (prepared : Secret)
        → IsWanted ref
        → Prepares ref h verb prepared
        → is_ok (generate_client_secret env api remote.id (after_read ref h)).0 ≡ false
        → is_ok r ≡ false
        → effects h' ≡ sent secret_request ∷ effects h
        → Ensured h r h'
    issued :
        (ref : LocalObjectReference) (verb : Verb) (prepared : Secret)
        → IsWanted ref
        → Prepares ref h verb prepared
        → Issues ref verb prepared h r h'
        → Ensured h r h'

  stored-PassesOn :
      (r : Result Secret) (name : String) (h : History)
      → PassesOn
          (λ s. recorded name)
          r
          (on_error r (λ e. pure (err e)) (λ s. pure (ok (with_secret_name oidc name))) h).0
  stored-PassesOn (ok s) name h = gives s refl refl
  stored-PassesOn (err e) name h = fails e refl refl

  effects-stored :
      (r : Result Secret) (name : String) (h : History)
      → effects (on_error r (λ e. pure (err e)) (λ s. pure (ok (with_secret_name oidc name))) h).1
        ≡ effects h
  effects-stored (ok s) name h = refl
  effects-stored (err e) name h = refl

  Ensured-of-write :
      (h : History) (ref : LocalObjectReference) (verb : Verb) (secret : Secret)
      → IsWanted ref
      → Prepares ref h verb secret
      → Ensured h
          (write_credentials env api oidc remote i verb secret ref.name (after_read ref h)).0
          (write_credentials env api oidc remote i verb secret ref.name (after_read ref h)).1
  unfolding write_credentials generate_client_secret do_request send put ◌>>=◌
  Ensured-of-write h ref verb secret wanted prepares =
      elim (Result-cases (generate_client_secret env api remote.id (after_read ref h)).0) [
        | inl (e, p) ↦
            rw (p, on_error) (not_generated ref verb secret wanted prepares (rw p refl) refl refl)
        | inr (value, p) ↦
            let written : Secret = record secret {
              contents = with_credentials remote.id value i.spec.app_url secret.contents;
            } in
            let hw : History = sent secret_request ∷ after_read ref h in
            let answer : Result Secret = env.write verb secret_kind hw written in
            rw (p, on_error)
              (issued ref verb secret wanted prepares (record {
                client_secret = value;
                answer = p;
                secret = written;
                same_metadata = refl;
                holds = with_credentials-Holds remote.id value i.spec.app_url secret.contents;
                result = stored-PassesOn answer ref.name (wrote verb secret_kind written ∷ hw);
                two_effects = effects-stored answer ref.name (wrote verb secret_kind written ∷ hw);
              }))
      ]

  Ensured-of-secret :
      (h : History) (ref : LocalObjectReference) (found : Result Secret)
      → IsWanted ref
      → env.get secret_kind h (credentials_key ref.name) ≡ found
      → Ensured h
          (with_secret env api oidc remote i found ref.name (after_read ref h)).0
          (with_secret env api oidc remote i found ref.name (after_read ref h)).1
  unfolding with_secret create_credentials complete_credentials
  Ensured-of-secret h ref (ok s) wanted p =
      elim (Option-cases (lookup "OIDC_CLIENT_SECRET" s.contents)) [
        | inl lacks ↦ rw lacks (Ensured-of-write h ref update s wanted (completes s p lacks))
        | inr (value, has) ↦ rw has (in_use ref s value wanted p has refl refl)
      ]
  Ensured-of-secret h ref (err e) wanted p = elim (Bool-cases (is_not_found e)) [
    | inr other ↦ rw other (unreadable ref e wanted p other refl refl)
    | inl missing ↦
        elim (Result-cases (
          env.set_controller_reference oidc_client_kind oidc.metadata
            (named ref.name oidc.namespace))) [
              | inl (x, q) ↦
                  rw (missing, q, on_error) (not_owned ref e x wanted p missing q refl refl)
              | inr (m, q) ↦
                  rw (missing, q, on_error)
                    (Ensured-of-write h ref create (record { metadata = m; contents = [] }) wanted
                      (starts e m p missing q))
            ]
  ]

  Ensured-of-store :
      (h : History) (ref : LocalObjectReference)
      → IsWanted ref
      → Ensured h
          (store_credentials env api oidc remote i ref.name h).0
          (store_credentials env api oidc remote i ref.name h).1
  unfolding store_credentials fetch ◌>>=◌
  Ensured-of-store h ref wanted =
      Ensured-of-secret h ref (env.get secret_kind h (credentials_key ref.name)) wanted refl

  abbrev step : Bool → Option LocalObjectReference → M (Result OidcClient)
  step public ref =
      if public
      then pure (ok oidc)
      else on_nil ref (pure (ok oidc)) (λ r. store_credentials env api oidc remote i r.name)

  Ensured-of-step :
      (h : History) (public : Bool) (ref : Option LocalObjectReference)
      → oidc.spec.is_public ≡ public
      → oidc.spec.credentials_secret_ref ≡ ref
      → Ensured h (step public ref h).0 (step public ref h).1
  Ensured-of-step h true ref p q = not_wanted (inl p) refl refl
  Ensured-of-step h false none p q = not_wanted (inr q) refl refl
  Ensured-of-step h false (some ref) p q =
      Ensured-of-store h ref (record { confidential = p; named_by = q })

  -- The credentials step succeeds without effects for a public client and for one that names no
  -- secret, and where the named secret is there and holds a client secret: what is in use is never
  -- replaced. It fails without effects where that secret cannot be read, or is not there and the
  -- resource cannot become its owner. Else the secret is there without a client secret, and is
  -- updated, or is not there, and is created with the resource as its owner: PocketID is asked for
  -- a new client secret. If it gives none the step fails, and if it gives one, the Kubernetes
  -- secret is written with the id of the client, the new secret (under the operator's key and the
  -- one that Envoy Gateway reads) and the issuer, its metadata and its other keys kept. If the
  -- write succeeds, so does the step, with the name of the secret in the status, and else it fails.
  pub ensure_credentials_secret-either :
      (h : History)
      → Ensured h
          (ensure_credentials_secret env api oidc remote i h).0
          (ensure_credentials_secret env api oidc remote i h).1
  unfolding ensure_credentials_secret
  ensure_credentials_secret-either h =
      Ensured-of-step h oidc.spec.is_public oidc.spec.credentials_secret_ref refl refl
