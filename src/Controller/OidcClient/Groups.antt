-- ===== src/Controller/OidcClient/Groups.antt =====
-- `resolveAllowedUserGroups`, `oidcGroupReferenceError` and `oidcClientsReferencingUserGroup` of
-- pocketidoidcclient_controller.go
pub mod Watch
pub mod Named
pub mod Resolved
use Prim.Native.String.{◌++◌ as ◌<>◌}
use pocketid_operator.Base.{
  String, Bool, true, false, not, ◌==◌, string_eq, ◌||◌, is_empty, if◌then◌else◌, Option, none,
  some, List, [], ◌∷◌, ◌++◌,
}
use pocketid_operator.Base.Dict.{Dict, lookup, insert}
use pocketid_operator.Error.{Error, plain, wrap, group_reference, Result, ok, err}
use pocketid_operator.Api.Meta.{Key, key_of, LocalObjectReference}
use pocketid_operator.Api.Instance.{Instance}
use pocketid_operator.Api.UserGroup.{UserGroup}
use pocketid_operator.Api.OidcClient.{OidcClient}
use pocketid_operator.PocketId.Types.{UserGroupMinimal}
use pocketid_operator.World.{
  Env, M, pure, on_error, fetch_all, user_group_kind, oidc_client_kind, ◌>>=◌,
}
use pocketid_operator.Controller.References.{resolve_instance_reference}

abbrev pub slash : String → String → String
slash a b = a <> "/" <> b

-- `groupsByName`
abbrev pub groups_by_name : List UserGroup → Dict UserGroup → Dict UserGroup
groups_by_name [] m = m
groups_by_name (g ∷ gs) m = groups_by_name gs (insert g.name g m)

abbrev pub minimal : UserGroup → UserGroupMinimal
minimal g = record {
  id = g.status.group_id;
  name = g.spec.name;
  friendly_name = g.spec.friendly_name;
}

-- `groupInstance.Name != instance.Name || groupInstance.Namespace != instance.Namespace`
abbrev pub other_instance : Instance → Instance → Bool
other_instance a b = not (a.name == b.name) || not (a.namespace == b.namespace)

-- What the loop does with a group once its instance is known.
unfoldable pub check_group : Instance → UserGroup → Result Instance → Result UserGroupMinimal
check_group i g (err e) = err (
    group_reference "UserGroupInstanceNotFound"
      (wrap ("failed to resolve instance for user group " <> slash g.namespace g.name <> ": ") e))
check_group i g (ok gi) =
    if other_instance gi i
    then err (
        group_reference "UserGroupInstanceMismatch" (
          plain (
            "referenced user group "
            <> slash g.namespace g.name
            <> " belongs to instance "
            <> slash gi.namespace gi.name
            <> ", not "
            <> slash i.namespace i.name)))
    else if is_empty g.status.group_id
    then err (
        group_reference "UserGroupNotReady" (
          plain (
            "referenced user group "
            <> slash g.namespace g.name
            <> " is not ready: status.groupId is empty")))
    else ok (minimal g)

module _ (env : Env) (namespace : String) (i : Instance) where
  unfoldable pub resolve_group : Option UserGroup → String → M (Result UserGroupMinimal)
  resolve_group none name = pure (
      err (
        group_reference "UserGroupNotFound"
          (plain ("referenced user group " <> slash namespace name <> " not found"))))
  resolve_group (some g) name = do
    resolved ← resolve_instance_reference env g.spec.instance_ref g.namespace
    pure (check_group i g resolved)

  -- The loop over `AllowedUserGroupRefs`, with the groups found so far.
  unfoldable pub resolve_refs :
      Dict UserGroup
      → List LocalObjectReference
      → List UserGroupMinimal
      → M (Result (List UserGroupMinimal))
  resolve_refs groups [] found = pure (ok found)
  resolve_refs groups (ref ∷ refs) found = do
    resolved ← resolve_group (lookup ref.name groups) ref.name
    on_error resolved (λ e. pure (err e)) (λ g. resolve_refs groups refs (found ++ (g ∷ [])))

  unfoldable pub list_and_resolve : List LocalObjectReference → M (Result (List UserGroupMinimal))
  list_and_resolve refs = do
    listed ← fetch_all env user_group_kind namespace
    on_error listed
        (λ e. pure (
          err (
            group_reference "UserGroupListFailed"
              (wrap ("failed to list user groups in namespace " <> namespace <> ": ") e))))
        (λ groups. resolve_refs (groups_by_name groups []) refs [])

  unfoldable pub resolve_allowed_user_groups :
      List LocalObjectReference → M (Result (List UserGroupMinimal))
  resolve_allowed_user_groups [] = pure (ok [])
  resolve_allowed_user_groups (ref ∷ refs) = list_and_resolve (ref ∷ refs)

-- `updateOIDCGroupReferenceErrorStatus`: `errors.As` finds the reference error through the wraps.
unfoldable pub group_error_reason : Error → String
group_error_reason (group_reference reason e) = reason
group_error_reason (wrap context e) = group_error_reason e
group_error_reason _ = "UserGroupReferenceFailed"

-- The inner loop of `oidcClientsReferencingUserGroup`
abbrev pub refers_to : String → List LocalObjectReference → Bool
refers_to name [] = false
refers_to name (ref ∷ refs) = ref.name == name || refers_to name refs

unfoldable pub requests_for : String → List OidcClient → List Key
requests_for name [] = []
requests_for name (c ∷ cs) =
    let rest = requests_for name cs in
    if refers_to name c.spec.allowed_user_group_refs then key_of c.metadata ∷ rest else rest

unfoldable pub oidc_clients_referencing_user_group : Env → UserGroup → M (List Key)
oidc_clients_referencing_user_group env group = do
  listed ← fetch_all env oidc_client_kind group.namespace
  on_error listed (λ e. pure []) (λ clients. pure (requests_for group.name clients))
