-- ===== src/Controller/OidcClient/Groups/Watch.antt =====
-- `oidcClientsReferencingUserGroup` of pocketidoidcclient_controller.go: which clients run again
-- when a user group changes.
use pocketid_operator.Base.{◌≡◌, refl, ◌↔◌, ◌⊎◌, inl, inr, String, true, List, [], ◌∷◌, Bool-cases}
use pocketid_operator.Base.Lists.{contains}
use pocketid_operator.Base.{map, string_eq, arith}
use pocketid_operator.Error.{ok}
use pocketid_operator.Api.Meta.{Key, key_of, LocalObjectReference}
use pocketid_operator.Api.UserGroup.{UserGroup}
use pocketid_operator.Api.OidcClient.{OidcClient}
use pocketid_operator.World.{Env, History, fetch_all, on_error, oidc_client_kind, ◌>>=◌}
use pocketid_operator.Controller.OidcClient.Groups.{
  refers_to, requests_for, oidc_clients_referencing_user_group,
}

abbrev pub referred : LocalObjectReference → String
referred ref = ref.name

-- The key stands in a list of keys.
pub data IsRequested (k : Key) : List Key → Type 0 where
  first : {ks : List Key} → IsRequested k (k ∷ ks)
  later : {j : Key} {ks : List Key} → IsRequested k ks → IsRequested k (j ∷ ks)

-- A client in the list that has this key and refers to the group.
pub data Refers (name : String) (k : Key) : List OidcClient → Type 0 where
  this :
      {c : OidcClient} {cs : List OidcClient}
      → key_of c.metadata ≡ k
      → contains (map referred c.spec.allowed_user_group_refs) name ≡ true
      → Refers name k (c ∷ cs)
  another : {c : OidcClient} {cs : List OidcClient} → Refers name k cs → Refers name k (c ∷ cs)

refers_to-eq :
    (name : String) (refs : List LocalObjectReference)
    → refers_to name refs ≡ contains (map referred refs) name
refers_to-eq name [] = refl
refers_to-eq name (ref ∷ refs) = ground (arith, refers_to-eq name refs)

IsRequested-cons : (k j : Key) (ks : List Key) → IsRequested k (j ∷ ks) → (j ≡ k) ⊎ IsRequested k ks
IsRequested-cons k j ks first = inl refl
IsRequested-cons k j ks (later r) = inr r

Refers-of-requests_for :
    (name : String) (k : Key) (cs : List OidcClient)
    → IsRequested k (requests_for name cs)
    → Refers name k cs
unfolding requests_for
Refers-of-requests_for name k [] r = elim r [ ]
Refers-of-requests_for name k (c ∷ cs) r =
    elim (Bool-cases (refers_to name c.spec.allowed_user_group_refs)) [
      | inl does ↦
          elim (IsRequested-cons k (key_of c.metadata) (requests_for name cs) (rw does at r)) [
            | inl same ↦
                this same (ground (arith, refers_to-eq name c.spec.allowed_user_group_refs))
            | inr rest ↦ another (Refers-of-requests_for name k cs rest)
          ]
      | inr not_it ↦ another (Refers-of-requests_for name k cs (rw not_it at r))
    ]

requests_for-Refers :
    (name : String) (k : Key) (cs : List OidcClient)
    → Refers name k cs
    → IsRequested k (requests_for name cs)
unfolding requests_for
requests_for-Refers name k [] r = elim r [ ]
requests_for-Refers name k (c ∷ cs) (this same refers) =
    rw (refers_to-eq name c.spec.allowed_user_group_refs, refers, same) first
requests_for-Refers name k (c ∷ cs) (another r) =
    elim (Bool-cases (refers_to name c.spec.allowed_user_group_refs)) [
      | inl does ↦ rw does (later (requests_for-Refers name k cs r))
      | inr not_it ↦ rw not_it (requests_for-Refers name k cs r)
    ]

-- Where the OIDC clients in the namespace of a user group can be listed, the keys that are run
-- again when the group changes are exactly those of the listed clients that refer to it by its
-- name.
pub oidc_clients_referencing_user_group_iff :
    (env : Env) (group : UserGroup) (h : History) (cs : List OidcClient)
    → env.list oidc_client_kind h group.namespace ≡ ok cs
    → (k : Key)
    → IsRequested k (oidc_clients_referencing_user_group env group h).0 ↔ Refers group.name k cs
unfolding oidc_clients_referencing_user_group fetch_all ◌>>=◌
oidc_clients_referencing_user_group_iff env group h cs listed k =
    rw (listed, on_error)
      (Refers-of-requests_for group.name k cs, requests_for-Refers group.name k cs)
