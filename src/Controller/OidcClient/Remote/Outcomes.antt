-- ===== src/Controller/OidcClient/Remote/Outcomes.antt =====
-- What `resolveOrCreateClient` of pocketidoidcclient_controller.go may come to: the requests, by
-- what it finds.
use pocketid_operator.Base.{
  ◌≡◌, refl, not, String, true, false, string_eq, is_empty, if◌then◌else◌, List, ◌∷◌, map, inl, inr,
}
use pocketid_operator.Base.Lists.{contains, is_nil}
use pocketid_operator.Base.Lists.Named.{IsFirst}
use pocketid_operator.Error.{Error, ok, err, is_ok, Result-cases, PassesOn, gives, fails}
use pocketid_operator.Api.OidcClient.{OidcClient, OidcClientSpec}
use pocketid_operator.PocketId.Types.{OidcClient as RemoteClient, UserGroupMinimal}
use pocketid_operator.PocketId.Request.{
  Client, Request, method_get, method_post, method_put, no_body, client_body,
}
use pocketid_operator.PocketId.Client.{
  get_oidc_client, list_oidc_clients, create_oidc_client, update_oidc_client, do_request, request,
  client_path,
}
use pocketid_operator.World.{Env, History, on_error, send, sent, ◌>>=◌}
use pocketid_operator.World.Effects.{effects}
use pocketid_operator.Controller.OidcClient.Compare.{needs_oidc_client_update}
use pocketid_operator.Controller.OidcClient.Compare.Agreement.{Agrees}
use pocketid_operator.Controller.OidcClient.Remote.{
  target_client, Resolved, create_remote, update_remote,
}

abbrev pub name_of : RemoteClient → String
name_of r = r.name

-- The client that a specification and its groups ask for.
abbrev pub client_of : OidcClientSpec → List UserGroupMinimal → String → RemoteClient
client_of spec groups id = record {
  id = id;
  name = spec.name;
  callback_urls = spec.callback_urls;
  is_public = spec.is_public;
  pkce_enabled = spec.pkce_enabled;
  is_group_restricted = not (is_nil groups);
  allowed_user_groups = groups;
  has_logo = false;
}

module _ (env : Env) (api : Client) (o : OidcClient) (groups : List UserGroupMinimal) where
  abbrev pub list_request : Request
  list_request = request api method_get "/api/oidc/clients" no_body

  abbrev pub get_request : Request
  get_request = request api method_get (client_path o.status.client_id) no_body

  abbrev create_request : Request
  create_request =
      request api method_post "/api/oidc/clients"
        (client_body (client_of o.spec groups o.spec.client_id))

  -- What the client should be, once its id is known.
  abbrev pub target_for : RemoteClient → RemoteClient
  target_for r = client_of o.spec groups r.id

  abbrev update_request : RemoteClient → Request
  update_request r = request api method_put (client_path r.id) (client_body (target_for r))

  -- The request that finds out what there is.
  abbrev pub first_request : Request
  first_request = if is_empty o.status.client_id then list_request else get_request

  -- The client with the id of the status, or where there is none the first of the listed ones with
  -- the name.
  pub data Finds (h : History) (c : RemoteClient) : Type 0 where
    by_id :
        is_empty o.status.client_id ≡ false
        → (get_oidc_client env api o.status.client_id h).0 ≡ ok c
        → Finds h c
    by_name :
        is_empty o.status.client_id ≡ true
        → (rs : List RemoteClient) → (list_oidc_clients env api h).0 ≡ ok rs
        → IsFirst name_of o.spec.name c rs
        → Finds h c

  -- The request that finds out what there is fails.
  pub data FindsNone (h : History) (e : Error) : Type 0 where
    unread :
        is_empty o.status.client_id ≡ false
        → (get_oidc_client env api o.status.client_id h).0 ≡ err e
        → FindsNone h e
    not_listed :
        is_empty o.status.client_id ≡ true → (list_oidc_clients env api h).0 ≡ err e → FindsNone h e

  abbrev pub after_first : History → History
  after_first h = sent first_request ∷ h

  abbrev with_id_of : RemoteClient → OidcClient
  with_id_of c = record o { status = record o.status { client_id = c.id } }

  pub data Resolution (h : History) (r : Resolved) (h' : History) : Type 0 where
    not_found :
        (e : Error)
        → FindsNone h e
        → is_ok r ≡ false
        → effects h' ≡ sent first_request ∷ effects h
        → Resolution h r h'
    created :
        is_empty o.status.client_id ≡ true
        → (rs : List RemoteClient) → (list_oidc_clients env api h).0 ≡ ok rs
        → contains (map name_of rs) o.spec.name ≡ false
        → PassesOn
            (λ c. (c, with_id_of c))
            (create_oidc_client env api
              (client_of o.spec groups o.spec.client_id)
              (after_first h)).0
            r
        → effects h' ≡ sent create_request ∷ sent first_request ∷ effects h
        → Resolution h r h'
    updated :
        (c : RemoteClient)
        → Finds h c
        → ¬ Agrees c (target_for c)
        → PassesOn
            (λ x. (x, o))
            (update_oidc_client env api c.id (target_for c) (after_first h)).0
            r
        → effects h' ≡ sent (update_request c) ∷ sent first_request ∷ effects h
        → Resolution h r h'
    kept :
        (c : RemoteClient)
        → Finds h c
        → Agrees c (target_for c)
        → r ≡ ok (c, o)
        → effects h' ≡ sent first_request ∷ effects h
        → Resolution h r h'

  pub effects-create :
      (h : History)
      → effects (create_remote env api o (target_client o.spec groups) h).1
        ≡ sent create_request ∷ effects h
  unfolding create_remote create_oidc_client do_request send ◌>>=◌
  effects-create h =
      elim (Result-cases (create_oidc_client env api (target_client o.spec groups) h).0) [
        | inl (e, p) ↦ rw (p, on_error) refl
        | inr (a, p) ↦ rw (p, on_error) refl
      ]

  pub effects-update :
      (c : RemoteClient) (h : History)
      → needs_oidc_client_update c (target_for c) ≡ true
      → effects (update_remote env api o c (target_for c) h).1 ≡ sent (update_request c) ∷ effects h
  unfolding update_remote update_oidc_client do_request send ◌>>=◌
  effects-update c h differ =
      elim (Result-cases (update_oidc_client env api c.id (target_for c) h).0) [
        | inl (e, p) ↦ rw (differ, p, on_error) refl
        | inr (x, p) ↦ rw (differ, p, on_error) refl
      ]

  pub create_remote-PassesOn :
      (h : History)
      → PassesOn
          (λ c. (c, with_id_of c))
          (create_oidc_client env api (client_of o.spec groups o.spec.client_id) h).0
          (create_remote env api o (target_client o.spec groups) h).0
  unfolding create_remote ◌>>=◌
  create_remote-PassesOn h =
      elim (Result-cases (create_oidc_client env api (target_client o.spec groups) h).0) [
        | inl (e, p) ↦ rw (p, on_error) (fails e refl refl)
        | inr (a, p) ↦ rw (p, on_error) (gives a refl refl)
      ]

  pub update_remote-PassesOn :
      (c : RemoteClient) (h : History)
      → needs_oidc_client_update c (target_for c) ≡ true
      → PassesOn
          (λ x. (x, o))
          (update_oidc_client env api c.id (target_for c) h).0
          (update_remote env api o c (target_for c) h).0
  unfolding update_remote ◌>>=◌
  update_remote-PassesOn c h differ =
      elim (Result-cases (update_oidc_client env api c.id (target_for c) h).0) [
        | inl (e, p) ↦ rw (differ, p, on_error) (fails e refl refl)
        | inr (x, p) ↦ rw (differ, p, on_error) (gives x refl refl)
      ]
