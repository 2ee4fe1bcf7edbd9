-- ===== src/Controller/OidcClient/Remote/Resolution.antt =====
-- `resolveOrCreateClient` of pocketidoidcclient_controller.go: when it creates a client in
-- PocketID, when it updates one, and when it does neither.
use pocketid_operator.Base.{
  ◌≡◌, refl, sym, ◌∙◌, ap, String, true, false, string_eq, is_empty, Option, none, some, List, [],
  ◌∷◌, arith, Bool-cases, inl, inr,
}
use pocketid_operator.Base.Lists.Named.{find_named, contains-of-find_named, IsFirst-of-find_named}
use pocketid_operator.Error.{ok, Result-cases}
use pocketid_operator.Api.OidcClient.{OidcClient}
use pocketid_operator.PocketId.Types.{OidcClient as RemoteClient, UserGroupMinimal}
use pocketid_operator.PocketId.Request.{Client}
use pocketid_operator.PocketId.Client.{get_oidc_client, list_oidc_clients, do_request}
use pocketid_operator.World.{Env, History, on_error, send, sent, ◌>>=◌}
use pocketid_operator.World.Effects.{effects}
use pocketid_operator.Controller.OidcClient.Compare.{needs_oidc_client_update}
use pocketid_operator.Controller.OidcClient.Compare.Agreement.{needs_oidc_client_update-false_iff}
use pocketid_operator.Controller.OidcClient.Remote.{
  find_client, update_remote, create_or_update, get_remote, search_remote, resolve_or_create_client,
}
use pocketid_operator.Controller.OidcClient.Remote.Outcomes.{
  name_of, list_request, get_request, target_for, first_request, Finds, after_first, Resolution,
  effects-create, effects-update, create_remote-PassesOn, update_remote-PassesOn, by_id, by_name,
  unread, not_listed, not_found, created, updated, kept,
}

find_client-named :
    (name : String) (rs : List RemoteClient) → find_client name rs ≡ find_named name_of name rs
find_client-named name [] = refl
find_client-named name (r ∷ rs) = rw (find_client-named name rs) refl

module _ (env : Env) (api : Client) (o : OidcClient) (groups : List UserGroupMinimal) where
  Resolution-of-current :
      (h : History) (c : RemoteClient)
      → Finds env api o groups h c
      → Resolution env api o groups h
          (create_or_update env api o groups (some c) (after_first env api o groups h)).0
          (create_or_update env api o groups (some c) (after_first env api o groups h)).1
  unfolding create_or_update update_remote
  Resolution-of-current h c finds =
      elim (Bool-cases (needs_oidc_client_update c (target_for env api o groups c))) [
        | inl differ ↦
            updated c finds
              (λ agree. absurd (
                ground (
                  arith,
                  (needs_oidc_client_update-false_iff c (target_for env api o groups c)).1 agree,
                )))
              (update_remote-PassesOn env api o groups c (after_first env api o groups h) differ)
              (effects-update env api o groups c (after_first env api o groups h) differ)
        | inr agree ↦ rw agree (
            kept c finds
              ((needs_oidc_client_update-false_iff c (target_for env api o groups c)).0 agree) refl
              refl)
      ]

  Resolution-of-listed :
      (h : History) (rs : List RemoteClient) (found : Option RemoteClient)
      → is_empty o.status.client_id ≡ true
      → (list_oidc_clients env api h).0 ≡ ok rs
      → find_client o.spec.name rs ≡ found
      → Resolution env api o groups h
          (create_or_update env api o groups found (after_first env api o groups h)).0
          (create_or_update env api o groups found (after_first env api o groups h)).1
  unfolding create_or_update
  Resolution-of-listed h rs none unset listed p =
      created unset rs listed
        (contains-of-find_named name_of o.spec.name rs (sym (find_client-named o.spec.name rs) ∙ p))
        (create_remote-PassesOn env api o groups (after_first env api o groups h))
        (effects-create env api o groups (after_first env api o groups h))
  Resolution-of-listed h rs (some c) unset listed p = Resolution-of-current h c (
      by_name unset rs listed (
        IsFirst-of-find_named name_of o.spec.name rs c
          (sym (find_client-named o.spec.name rs) ∙ p)))

  Resolution-of-search :
      (h : History)
      → is_empty o.status.client_id ≡ true
      → Resolution env api o groups h
          (search_remote env api o groups h).0
          (search_remote env api o groups h).1
  unfolding search_remote list_oidc_clients do_request send ◌>>=◌
  Resolution-of-search h unset =
      let first : list_request env api o groups ≡ first_request env api o groups = rw unset refl in
      elim (Result-cases (list_oidc_clients env api h).0) [
        | inl (e, p) ↦
            rw (p, on_error)
              (not_found e (not_listed unset p) refl (ap (λ r. sent r ∷ effects h) first))
        | inr (rs, p) ↦ rw (p, on_error, first) (Resolution-of-listed h rs _ unset p refl)
      ]

  Resolution-of-get :
      (h : History)
      → is_empty o.status.client_id ≡ false
      → Resolution env api o groups h
          (get_remote env api o groups h).0
          (get_remote env api o groups h).1
  unfolding get_remote get_oidc_client do_request send ◌>>=◌
  Resolution-of-get h set =
      let first : get_request env api o groups ≡ first_request env api o groups = rw set refl in
      elim (Result-cases (get_oidc_client env api o.status.client_id h).0) [
        | inl (e, p) ↦
            rw (p, on_error) (not_found e (unread set p) refl (ap (λ r. sent r ∷ effects h) first))
        | inr (c, p) ↦ rw (p, on_error, first) (Resolution-of-current h c (by_id set p))
      ]

  -- The client in PocketID, by the effects of looking for it. First it is read by the id in the
  -- status, or the clients are listed where there is none; if that fails the call fails and sends
  -- nothing else. A client is created, as the specification and the resolved groups say, where
  -- there was no id and PocketID has listed none with the name; else the client with the id, or the
  -- first listed one with the name, is updated to what they say if it disagrees with them, and is
  -- kept and given as it is if it agrees. The call gives the answer of PocketID to the creation,
  -- with its id in the status, or to the update, and fails if these do.
  pub resolve_or_create_client-Resolution :
      (h : History)
      → Resolution env api o groups h
          (resolve_or_create_client env api o groups h).0
          (resolve_or_create_client env api o groups h).1
  unfolding resolve_or_create_client
  resolve_or_create_client-Resolution h = elim (Bool-cases (is_empty o.status.client_id)) [
    | inl unset ↦ rw unset (Resolution-of-search h unset)
    | inr set ↦ rw set (Resolution-of-get h set)
  ]
