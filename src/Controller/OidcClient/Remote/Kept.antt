-- ===== src/Controller/OidcClient/Remote/Kept.antt =====
-- `resolveOrCreateClient`: what becomes of the resource.
use pocketid_operator.Base.{◌≡◌, true, is_empty, is_some, Option, none, some, List, inl, inr, arith}
use pocketid_operator.Error.{Error, ok, err, Result-cases}
use pocketid_operator.Api.OidcClient.{OidcClient}
use pocketid_operator.PocketId.Types.{OidcClient as RemoteClient, UserGroupMinimal}
use pocketid_operator.PocketId.Request.{Client}
use pocketid_operator.PocketId.Client.{list_oidc_clients}
use pocketid_operator.World.{Env, History, pure, on_error, ◌>>=◌}
use pocketid_operator.World.Ends.{Ends, Ends-pure, ends_rules}
use pocketid_operator.Controller.OidcClient.Remote.{
  find_client, Resolved, resolve_or_create_client, search_remote, get_remote, create_or_update,
  create_remote, update_remote,
}

-- The call gives the resource as it is, or fails.
pub data Finds (o : OidcClient) : Resolved → History → Type 0 where
  found : (remote : RemoteClient) {h : History} → Finds o (ok (remote, o)) h
  lost : (e : Error) {h : History} → Finds o (err e) h

-- The call gives the resource as it is, or with the id of a new client, or fails.
pub data Resolves (o : OidcClient) : Resolved → History → Type 0 where
  same : (remote : RemoteClient) {h : History} → Resolves o (ok (remote, o)) h
  identified :
      (remote : RemoteClient) {h : History}
      → Resolves o (ok (remote, record o { status = record o.status { client_id = remote.id } })) h
  unresolved : (e : Error) {h : History} → Resolves o (err e) h

module _ (env : Env) (api : Client) (o : OidcClient) (groups : List UserGroupMinimal) where
  Ends-found : (remote : RemoteClient) → Ends (Finds o) (pure (ok (remote, o)))
  Ends-found remote = Ends-pure (ok (remote, o)) (λ h. found remote)

  Ends-lost : (e : Error) → Ends (Finds o) (pure (err e))
  Ends-lost e = Ends-pure (err e) (λ h. lost e)

  Ends-create_or_update-found :
      (listed : Option RemoteClient)
      → is_some listed ≡ true
      → Ends (Finds o) (create_or_update env api o groups listed)
  unfolding create_or_update update_remote
  Ends-create_or_update-found none there = absurd (ground (arith, there))
  Ends-create_or_update-found (some remote) there =
      search (ends_rules, Ends-found, Ends-lost) depth 8

  -- A client that is listed by its name is taken over.
  pub resolve-Finds :
      (h : History)
      → is_empty o.status.client_id ≡ true
      → ((cs : List RemoteClient)
          → (list_oidc_clients env api h).0 ≡ ok cs
          → is_some (find_client o.spec.name cs) ≡ true)
      → Finds o
          (resolve_or_create_client env api o groups h).0
          (resolve_or_create_client env api o groups h).1
  unfolding resolve_or_create_client search_remote ◌>>=◌
  resolve-Finds h no_id listed = elim (Result-cases (list_oidc_clients env api h).0) [
    | inl (e, p) ↦ rw (no_id, p, on_error) (lost _)
    | inr (cs, p) ↦
        rw (no_id, p, on_error)
          ((Ends-create_or_update-found (find_client o.spec.name cs) (listed cs p)).at _)
  ]

  Ends-resolve-same : (remote : RemoteClient) → Ends (Resolves o) (pure (ok (remote, o)))
  Ends-resolve-same remote = Ends-pure (ok (remote, o)) (λ h. same remote)

  Ends-identified :
      (remote : RemoteClient)
      → Ends
          (Resolves o)
          (pure (ok (remote, record o { status = record o.status { client_id = remote.id } })))
  Ends-identified remote = Ends-pure _ (λ h. identified remote)

  Ends-unresolved : (e : Error) → Ends (Resolves o) (pure (err e))
  Ends-unresolved e = Ends-pure (err e) (λ h. unresolved e)

  Ends-create_or_update :
      (listed : Option RemoteClient) → Ends (Resolves o) (create_or_update env api o groups listed)
  unfolding create_or_update create_remote update_remote
  Ends-create_or_update none = search (ends_rules, Ends-identified, Ends-unresolved) depth 8
  Ends-create_or_update (some remote) =
      search (ends_rules, Ends-resolve-same, Ends-unresolved) depth 8

  pub Ends-resolve : Ends (Resolves o) (resolve_or_create_client env api o groups)
  unfolding resolve_or_create_client search_remote get_remote
  Ends-resolve = search (ends_rules, Ends-create_or_update, Ends-unresolved) depth 10
