-- ===== src/Controller/OidcClient/Groups/Resolved.antt =====
-- Which groups `resolveAllowedUserGroups` of pocketidoidcclient_controller.go lets a client have.
use pocketid_operator.Base.{
  ◌≡◌, refl, sym, ap, ◌∙◌, ◌↔◌, inl, inr, String, false, string_eq, is_empty, List, [], ◌∷◌, ◌++◌,
  arith, Option-cases, eq_iff,
}
use mathlib.Core.List.{append-nil, append_assoc}
use pocketid_operator.Base.Dict.{lookup}
use pocketid_operator.Base.Lists.Named.{IsLast}
use pocketid_operator.Error.{ok, Result-cases}
use pocketid_operator.Api.Meta.{Key, LocalObjectReference}
use pocketid_operator.Api.Instance.{Instance}
use pocketid_operator.Api.UserGroup.{UserGroup}
use pocketid_operator.PocketId.Types.{UserGroupMinimal}
use pocketid_operator.World.{
  Env, History, on_error, fetch, fetch_all, user_group_kind, instance_kind, ◌>>=◌, got, listed,
}
use pocketid_operator.Controller.References.{resolve_instance_reference, instance_key}
use pocketid_operator.Controller.OidcClient.Groups.Named.{group_name, lookup-groups_by_name_iff}
use pocketid_operator.Controller.OidcClient.Groups.{
  groups_by_name, minimal, check_group, resolve_group, resolve_refs, list_and_resolve,
  resolve_allowed_user_groups,
}

module _ (env : Env) (namespace : String) (i : Instance) where
  abbrev group_instance : UserGroup → Key
  group_instance g = instance_key g.spec.instance_ref g.namespace

  -- A group that the client may have: its instance is there and is the client's, and the group has
  -- an id.
  pub record IsUsable (h : History) (g : UserGroup) : Type 0 where
    pub instance : Instance
    pub found : env.get instance_kind h (group_instance g) ≡ ok instance
    pub same_name : instance.name ≡ i.name
    pub same_namespace : instance.namespace ≡ i.namespace
    pub has_id : is_empty g.status.group_id ≡ false

  -- The id of the group in PocketID, and the names that its specification gives.
  pub record Describes (g : UserGroup) (m : UserGroupMinimal) : Type 0 where
    pub id : m.id ≡ g.status.group_id
    pub name : m.name ≡ g.spec.name
    pub friendly_name : m.friendly_name ≡ g.spec.friendly_name

  -- For each reference, in order, the last of the groups with its name, which is usable.
  pub data Admits (gs : List UserGroup)
      : List LocalObjectReference → History → List UserGroupMinimal → Type 0 where
    none_left : {h : History} → Admits gs [] h []
    next :
        {ref : LocalObjectReference} {refs : List LocalObjectReference} {h : History}
        {m : UserGroupMinimal} {ms : List UserGroupMinimal} (g : UserGroup)
        → IsLast group_name ref.name g gs
        → IsUsable h g
        → Describes g m
        → Admits gs refs (got instance_kind (group_instance g) ∷ h) ms
        → Admits gs (ref ∷ refs) h (m ∷ ms)

  minimal_of-Describes : (g : UserGroup) (m : UserGroupMinimal) → Describes g m → minimal g ≡ m
  minimal_of-Describes g m d = rw (sym d.id, sym d.name, sym d.friendly_name) refl

  IsUsable-of-check :
      (h : History) (g : UserGroup) (m : UserGroupMinimal)
      → check_group i g (env.get instance_kind h (group_instance g)) ≡ ok m
      → IsUsable h g × Describes g m
  unfolding check_group
  IsUsable-of-check h g m p = elim (Result-cases (env.get instance_kind h (group_instance g))) [
    | inl (e, q) ↦ absurd (ground arith)
    | inr (gi, q) ↦ (
      record {
        instance = gi;
        found = q;
        same_name = (eq_iff gi.name i.name).0 (ground arith);
        same_namespace = (eq_iff gi.namespace i.namespace).0 (ground arith);
        has_id = ground arith;
      },
      let same : m ≡ minimal g = ground arith in
          rw same (record { id = refl; name = refl; friendly_name = refl }),
    )
  ]

  check_of-IsUsable :
      (h : History) (g : UserGroup)
      → IsUsable h g
      → check_group i g (env.get instance_kind h (group_instance g)) ≡ ok (minimal g)
  unfolding check_group
  check_of-IsUsable h g u =
      rw
        (
          u.found,
          (eq_iff u.instance.name i.name).1 u.same_name,
          (eq_iff u.instance.namespace i.namespace).1 u.same_namespace,
          u.has_id,
        )
        refl

  resolve_refs_of-Admits :
      (gs : List UserGroup) (refs : List LocalObjectReference) (found ms : List UserGroupMinimal)
      (h : History)
      → Admits gs refs h ms
      → (resolve_refs env namespace i (groups_by_name gs []) refs found h).0 ≡ ok (found ++ ms)
  unfolding resolve_refs resolve_group resolve_instance_reference fetch ◌>>=◌
  resolve_refs_of-Admits gs [] found ms h none_left = ap ok (sym (append-nil found))
  resolve_refs_of-Admits gs (ref ∷ refs) found ms h (next {m = m} {ms = rest} g last u d a) =
      rw
        (
          (lookup-groups_by_name_iff ref.name g gs).1 last,
          check_of-IsUsable h g u,
          minimal_of-Describes g m d,
          on_error,
        )
        (resolve_refs_of-Admits gs refs (found ++ (m ∷ [])) rest _ a
          ∙ ap ok (append_assoc found (m ∷ []) rest))

  Admits-of-resolve_refs :
      (gs : List UserGroup) (refs : List LocalObjectReference) (found ms : List UserGroupMinimal)
      (h : History)
      → (resolve_refs env namespace i (groups_by_name gs []) refs found h).0 ≡ ok ms
      → (rest : List UserGroupMinimal) × Admits gs refs h rest × (ms ≡ found ++ rest)
  unfolding resolve_refs resolve_group resolve_instance_reference fetch ◌>>=◌
  Admits-of-resolve_refs gs [] found ms h p = ([], none_left, (cc) ∙ sym (append-nil found))
  Admits-of-resolve_refs gs (ref ∷ refs) found ms h p =
      elim (Option-cases (lookup ref.name (groups_by_name gs []))) [
        | inl missing ↦ absurd (ground arith)
        | inr (g, l) ↦
            elim (Result-cases (check_group i g (env.get instance_kind h (group_instance g)))) [
              | inl (e, refused) ↦ absurd (ground arith)
              | inr (m, q) ↦
                  let (usable, described) = IsUsable-of-check h g m q in
                  let (rest, a, split) =
                    Admits-of-resolve_refs gs refs (found ++ (m ∷ [])) ms
                      (got instance_kind (group_instance g) ∷ h) (ground arith) in
                  (
                    m ∷ rest,
                    next g ((lookup-groups_by_name_iff ref.name g gs).0 l) usable described a,
                    split ∙ append_assoc found (m ∷ []) rest,
                  )
            ]
      ]

  -- The groups that a list of references resolves to, from the groups of the namespace as they are
  -- listed at the start.
  pub data Resolves (h : History) : List LocalObjectReference → List UserGroupMinimal → Type 0 where
    unrestricted : Resolves h [] []
    restricted :
        {ref : LocalObjectReference} {refs : List LocalObjectReference} {ms : List UserGroupMinimal}
        (gs : List UserGroup)
        → env.list user_group_kind h namespace ≡ ok gs
        → Admits gs (ref ∷ refs) (listed user_group_kind namespace ∷ h) ms
        → Resolves h (ref ∷ refs) ms

  Resolves-of-resolve :
      (h : History) (refs : List LocalObjectReference) (ms : List UserGroupMinimal)
      → (resolve_allowed_user_groups env namespace i refs h).0 ≡ ok ms
      → Resolves h refs ms
  unfolding resolve_allowed_user_groups list_and_resolve fetch_all ◌>>=◌
  Resolves-of-resolve h [] [] p = unrestricted
  Resolves-of-resolve h [] (m ∷ ms) p = absurd (cc)
  Resolves-of-resolve h (ref ∷ refs) ms p =
      elim (Result-cases (env.list user_group_kind h namespace)) [
        | inl (e, q) ↦ absurd (ground arith)
        | inr (gs, q) ↦
            let (rest, a, same) =
              Admits-of-resolve_refs gs (ref ∷ refs) [] ms (listed user_group_kind namespace ∷ h)
                (ground arith) in
            restricted gs q (rw same a)
      ]

  resolve_of-Resolves :
      (h : History) (refs : List LocalObjectReference) (ms : List UserGroupMinimal)
      → Resolves h refs ms
      → (resolve_allowed_user_groups env namespace i refs h).0 ≡ ok ms
  unfolding resolve_allowed_user_groups list_and_resolve fetch_all ◌>>=◌
  resolve_of-Resolves h [] [] unrestricted = refl
  resolve_of-Resolves h [] (m ∷ ms) r = elim r [ ]
  resolve_of-Resolves h (ref ∷ refs) ms (restricted gs q a) =
      rw (q, on_error) (resolve_refs_of-Admits gs (ref ∷ refs) [] ms _ a)

-- The groups that a client may have resolve exactly when each reference, in order, names a group of
-- the namespace (the last that is listed, if several have the name) whose instance is there and is
-- the client's own and which has an id. The result is then, in that order, the id in the status of
-- each group with the name and the friendly name of its specification. A client with no references
-- has no groups.
pub resolve_allowed_user_groups-ok_iff :
    (env : Env) (namespace : String) (i : Instance) (h : History) (refs : List LocalObjectReference)
    (ms : List UserGroupMinimal)
    → ((resolve_allowed_user_groups env namespace i refs h).0 ≡ ok ms)
      ↔ Resolves env namespace i h refs ms
resolve_allowed_user_groups-ok_iff env namespace i h refs ms =
    (Resolves-of-resolve env namespace i h refs ms, resolve_of-Resolves env namespace i h refs ms)
