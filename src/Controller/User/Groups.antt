-- ===== src/Controller/User/Groups.antt =====
-- `syncGroupMemberships` of pocketiduser_controller.go
pub mod Wanted
pub mod Sync
use pocketid_operator.Base.{
  String, Bool, not, ◌||◌, is_empty, string_eq, if◌then◌else◌, List, [], ◌∷◌, ◌++◌, map,
}
use pocketid_operator.Base.Lists.{contains, all_in}
use pocketid_operator.Error.{Error, Result, ok, err}
use pocketid_operator.Api.Meta.{LocalObjectReference}
use pocketid_operator.Api.User.{User}
use pocketid_operator.Api.UserGroup.{UserGroup}
use pocketid_operator.PocketId.Types.{User as Account, UserGroupMinimal}
use pocketid_operator.PocketId.Request.{Client}
use pocketid_operator.PocketId.Client.{set_user_groups}
use pocketid_operator.World.{Env, M, pure, fetch, range_keys, user_group_kind, ◌>>=◌}

-- `m[id] = true`, with the keys of `m` as a list.
abbrev pub add_id : String → List String → List String
add_id id ids = if contains ids id then ids else ids ++ (id ∷ [])

-- A group that cannot be read, or that has no id yet, is skipped.
abbrev pub add_group : Result UserGroup → List String → List String
add_group (err e) ids = ids
add_group (ok group) ids =
    if is_empty group.status.group_id then ids else add_id group.status.group_id ids

abbrev pub collect_ids : List UserGroupMinimal → List String → List String
collect_ids [] ids = ids
collect_ids (g ∷ gs) ids = collect_ids gs (add_id g.id ids)

-- `currentGroupIDs`
abbrev pub current_group_ids : Account → List String
current_group_ids account = collect_ids account.user_groups []

-- `needsUpdate`
abbrev pub memberships_differ : List String → List String → Bool
memberships_differ desired current = not (all_in desired current) || not (all_in current desired)

module _ (env : Env) where
  unfoldable pub desired_group_ids :
      List LocalObjectReference → String → List String → M (List String)
  desired_group_ids [] namespace ids = pure ids
  desired_group_ids (ref ∷ refs) namespace ids = do
    found ← fetch env user_group_kind (record { name = ref.name; namespace = namespace })
    desired_group_ids refs namespace (add_group found ids)

  unfoldable pub write_memberships : Client → Account → List String → M (Result (Unit {0}))
  write_memberships c account desired =
      if memberships_differ desired (current_group_ids account)
      then (do ids ← range_keys env desired; set_user_groups env c account.id ids)
      else pure (ok tt)

  unfoldable pub sync_group_memberships : Client → User → Account → M (Result (Unit {0}))
  sync_group_memberships c user account = do
    desired ← desired_group_ids user.spec.user_group_refs user.namespace []
    write_memberships c account desired
