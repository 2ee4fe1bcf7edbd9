-- ===== src/Controller/User/Onboarding/Link.antt =====
-- What onboarding.go leaves behind: a result that says that a link was created stands for a secret
-- that holds it.
use Prim.Native.String.{◌++◌ as ◌<>◌}
use pocketid_operator.Base.{
  ◌≡◌, refl, ap, inl, inr, String, true, not, ◌&&◌, ◌||◌, is_empty, [], ◌∷◌, arith, Bool-cases,
}
use pocketid_operator.Error.{Result, ok, err, Result-cases}
use pocketid_operator.Api.Meta.{Key, ObjectMeta, named}
use pocketid_operator.Api.Core.{Secret}
use pocketid_operator.Api.User.{User}
use pocketid_operator.Api.Instance.{Instance}
use pocketid_operator.PocketId.Types.{User as Account}
use pocketid_operator.PocketId.Request.{Client, method_post, empty_object, Request}
use pocketid_operator.PocketId.Client.{create_one_time_access_token, do_request, request, user_path}
use pocketid_operator.World.{
  Env, History, pure, on_error, fetch, put, clock, send, Verb, create, update, user_kind,
  secret_kind, ◌>>=◌, sent, wrote, got,
}
use pocketid_operator.World.Effects.{effects}
use pocketid_operator.Controller.User.Onboarding.{
  OnboardingResult, before_onboarding, resolve_onboarding_secret_name, write_link_secret,
  store_one_time_access_link, mark_email, create_link, reconcile_onboarding,
}

module _ (env : Env) (c : Client) (u : User) (a : Account) (i : Instance) where
  abbrev token_request : Request
  token_request = request c method_post (user_path a.id <> "/one-time-access-token") empty_object

  -- A run whose two effects are a request for a token and a write of a secret with the link of that
  -- token, the answer to the write being a success.
  pub record StoresLink (h h' : History) : Type 0 where
    pub token : String
    pub answer : (create_one_time_access_token env c a.id h).0 ≡ ok (record { token = token })
    pub verb : Verb
    pub secret : Secret
    pub link : secret.contents ≡ ("ONE_TIME_ACCESS_LINK", i.spec.app_url <> "/login/" <> token) ∷ []
    pub at_write : History
    pub stored : Secret
    pub granted : env.write verb secret_kind at_write secret ≡ ok stored
    pub two_effects : effects h' ≡ wrote verb secret_kind secret ∷ sent token_request ∷ effects h

  -- The result tells the same as the status, or a link was stored and it says so;
  -- `SendOnboardingEmail` then makes it say that an email was sent, too.
  pub data Onboards (r : OnboardingResult) (h h' : History) : Type 0 where
    unchanged : r ≡ before_onboarding u → Onboards r h h'
    linked :
        StoresLink h h'
        → r.link_created ≡ true
        → r.email_sent ≡ (u.spec.send_onboarding_email || u.status.onboarding_email_sent)
        → Onboards r h h'

  abbrev link_of : String → String
  link_of token = i.spec.app_url <> "/login/" <> token

  -- What holds of each answer to the write of the secret.
  abbrev Stored : (h h' : History) → Result Secret → Type 0
  Stored h h' (err e) = Unit {0}
  Stored h h' (ok s) = StoresLink h h'

  abbrev after_request : History → History
  after_request h = sent token_request ∷ h

  Stored-of-answer :
      (h hw : History) (token : String) (v : Verb) (secret : Secret) (r : Result Secret)
      → (create_one_time_access_token env c a.id h).0 ≡ ok (record { token = token })
      → secret.contents ≡ ("ONE_TIME_ACCESS_LINK", link_of token) ∷ []
      → effects hw ≡ sent token_request ∷ effects h
      → env.write v secret_kind hw secret ≡ r
      → Stored h (wrote v secret_kind secret ∷ hw) r
  Stored-of-answer h hw token v secret (err e) p q same w = tt
  Stored-of-answer h hw token v secret (ok stored) p q same w = record {
    token = token;
    answer = p;
    verb = v;
    secret = secret;
    link = q;
    at_write = hw;
    stored = stored;
    granted = w;
    two_effects = ap (λ es. wrote v secret_kind secret ∷ es) same;
  }

  Stored-of-write :
      (h hw : History) (token : String) (m : ObjectMeta) (found : Result Secret)
      → (create_one_time_access_token env c a.id h).0 ≡ ok (record { token = token })
      → effects hw ≡ sent token_request ∷ effects h
      → let secret : Secret = record {
        metadata = m;
        contents = ("ONE_TIME_ACCESS_LINK", link_of token) ∷ [];
      } in
        Stored h (write_link_secret env secret found hw).1 (write_link_secret env secret found hw).0
  unfolding write_link_secret put
  Stored-of-write h hw token m (err e) p same =
      Stored-of-answer h hw token create _ _ p refl same refl
  Stored-of-write h hw token m (ok x) p same =
      Stored-of-answer h hw token update _ _ p refl same refl

  stores_link :
      (h : History) (token name : String)
      → (create_one_time_access_token env c a.id h).0 ≡ ok (record { token = token })
      → Stored h
          (store_one_time_access_link env u name (link_of token) (after_request h)).1
          (store_one_time_access_link env u name (link_of token) (after_request h)).0
  unfolding store_one_time_access_link fetch ◌>>=◌
  stores_link h token name p =
      elim (Result-cases
        (env.set_controller_reference user_kind u.metadata (named name u.namespace))) [
          | inl (e, q) ↦ rw (q, on_error) tt
          | inr (m, q) ↦
              let key : Key = record { name = name; namespace = u.namespace } in
              rw (q, on_error)
                (Stored-of-write h (got secret_kind key ∷ after_request h) token m
                  (env.get secret_kind (after_request h) key) p refl)
        ]

  Onboards-of-mark_email :
      (h h' : History)
      → StoresLink h h'
      → Onboards (mark_email env u h').0 h (mark_email env u h').1
  unfolding mark_email clock ◌>>=◌
  Onboards-of-mark_email h h' s =
      elim (Bool-cases (u.spec.send_onboarding_email && not u.status.onboarding_email_sent)) [
        | inl fresh ↦ rw fresh (
            linked
              (record {
                token = s.token;
                answer = s.answer;
                verb = s.verb;
                secret = s.secret;
                link = s.link;
                at_write = s.at_write;
                stored = s.stored;
                granted = s.granted;
                two_effects = s.two_effects;
              })
              refl (ground arith))
        | inr old ↦ rw old (linked s refl (ground arith))
      ]

  Onboards-of-Stored :
      (h h' : History) (r : Result Secret)
      → Stored h h' r
      → let q = on_error r (λ e. pure (before_onboarding u)) (λ s. mark_email env u) h' in
        Onboards q.0 h q.1
  Onboards-of-Stored h h' (err e) s = unchanged refl
  Onboards-of-Stored h h' (ok x) s = Onboards-of-mark_email h h' s

  Onboards-of-create_link :
      (h : History) (name : String)
      → Onboards (create_link env c u a i name h).0 h (create_link env c u a i name h).1
  unfolding create_link create_one_time_access_token do_request send ◌>>=◌
  Onboards-of-create_link h name =
      elim (Result-cases (create_one_time_access_token env c a.id h).0) [
        | inl (e, p) ↦ rw (p, on_error) (unchanged refl)
        | inr (r, p) ↦
            let stored =
              store_one_time_access_link env u name (link_of r.token) (after_request h) in
            rw (p, on_error) (Onboards-of-Stored h stored.1 stored.0 (stores_link h r.token name p))
      ]

  -- Onboarding gives the result that the status already tells, or it says that a link was created,
  -- and then its effects are two: a request for a token that PocketID granted, and a write of a
  -- secret, granted too, whose content is the login link with that token. In that case it also says
  -- that an email was sent where the resource asks for one, though no effect sends it.
  pub reconcile_onboarding-either :
      (h : History)
      → Onboards (reconcile_onboarding env c u a i h).0 h (reconcile_onboarding env c u a i h).1
  unfolding reconcile_onboarding
  reconcile_onboarding-either h =
      elim (Bool-cases
        (is_empty (resolve_onboarding_secret_name u) || u.status.onboarding_link_created)) [
          | inl skipped ↦ rw skipped (unchanged refl)
          | inr open_ ↦ rw open_ (Onboards-of-create_link h (resolve_onboarding_secret_name u))
        ]
