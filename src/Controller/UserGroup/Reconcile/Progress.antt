-- ===== src/Controller/UserGroup/Reconcile/Progress.antt =====
-- pocketidusergroup_controller.go: how a run comes to the group in PocketID, and what it then
-- writes.
use pocketid_operator.Base.{
  ◌≡◌, refl, ◌∙◌, string_eq, String, true, false, [], map, Bool-cases, inl, inr, is_empty, is_some,
  Option, none, some, ◌∷◌, List,
}
use pocketid_operator.Base.Lists.{contains}
use pocketid_operator.Base.Lists.Named.{
  IsFirst, find_named, find_named_of-IsFirst, find_named_of-contains,
}
use pocketid_operator.Error.{ok}
use pocketid_operator.Api.Meta.{Key, key_of}
use pocketid_operator.Api.UserGroup.{UserGroup}
use pocketid_operator.Api.Instance.{Instance}
use pocketid_operator.PocketId.Types.{UserGroup as RemoteGroup}
use pocketid_operator.PocketId.Request.{Client}
use pocketid_operator.PocketId.Client.{get_group, list_groups, create_group, update_group}
use pocketid_operator.World.{
  Env, History, got, wrote, update_status, user_group_kind, fetch, put, clock, on_error, ◌>>=◌,
}
use pocketid_operator.Controller.Outcome.{again_after}
use pocketid_operator.Controller.Status.{set_synced_condition, set_condition}
use pocketid_operator.Controller.Access.{granted, access}
use pocketid_operator.Controller.UserGroup.Reconcile.Agreement.{
  Agrees, request_for, needs_group_update-false_iff,
}
use pocketid_operator.Controller.UserGroup.Reconcile.{
  group_finalizer, needs_group_update, target_group, find_group, ensure_finalizer, write_synced,
  finish, create_remote, update_remote, create_or_update, search_remote, get_remote, sync_group,
  reconcile_live, reconcile_with, reconcile_group, reconcile,
}

-- The last event is a write of the status that says that the resource is in sync with this group.
pub record SyncedTo (remote : RemoteGroup) (h : History) : Type 0 where
  pub group : UserGroup
  pub before : History
  pub newest : h ≡ wrote update_status user_group_kind group ∷ before
  pub id : group.status.group_id ≡ remote.id
  pub is_ready : group.status.ready ≡ true
  pub is_synced : group.status.synced ≡ true

abbrev name_of : RemoteGroup → String
name_of g = g.name

find_group-named :
    (name : String) (gs : List RemoteGroup) → find_group name gs ≡ find_named name_of name gs
find_group-named name [] = refl
find_group-named name (g ∷ gs) = rw (find_group-named name gs) refl

module _ (env : Env) (c : Client) (group : UserGroup) (h : History) where
  -- What PocketID has for the resource: the group with its id where it has one, else the first of
  -- the listed groups with its name, if there is one.
  pub data Finds : Option RemoteGroup → History → Type 0 where
    listed :
        (groups : List RemoteGroup) (remote : RemoteGroup)
        → is_empty group.status.group_id ≡ true
        → (list_groups env c h).0 ≡ ok groups
        → IsFirst name_of group.spec.name remote groups
        → Finds (some remote) (list_groups env c h).1
    unlisted :
        (groups : List RemoteGroup)
        → is_empty group.status.group_id ≡ true
        → (list_groups env c h).0 ≡ ok groups
        → contains (map name_of groups) group.spec.name ≡ false
        → Finds none (list_groups env c h).1
    named_by_id :
        (remote : RemoteGroup)
        → is_empty group.status.group_id ≡ false
        → (get_group env c group.status.group_id h).0 ≡ ok remote
        → Finds (some remote) (get_group env c group.status.group_id h).1

  -- The group that the run ends with: a new one where there was none, the present one if it has the
  -- name and the friendly name of the spec, else the answer to an update to these.
  pub data Reaches : RemoteGroup → UserGroup → History → Type 0 where
    created :
        (remote : RemoteGroup) (h' : History)
        → Finds none h'
        → (create_group env c (request_for group.spec) h').0 ≡ ok remote
        → Reaches remote
            (record group { status = record group.status { group_id = remote.id } })
            (create_group env c (request_for group.spec) h').1
    kept :
        (remote : RemoteGroup) (h' : History)
        → Finds (some remote) h'
        → Agrees remote group.spec
        → Reaches remote group h'
    updated :
        (current remote : RemoteGroup) (h' : History)
        → Finds (some current) h'
        → ¬ Agrees current group.spec
        → (update_group env c current.id (request_for group.spec) h').0 ≡ ok remote
        → Reaches remote group (update_group env c current.id (request_for group.spec) h').1

  sync_group-Finds :
      (o : Option RemoteGroup) (h' : History)
      → Finds o h'
      → sync_group env c group h ≡ create_or_update env group c o h'
  unfolding sync_group search_remote get_remote ◌>>=◌
  sync_group-Finds _ _ (listed groups remote no_id answer first) =
      rw
        (
          no_id,
          answer,
          on_error,
          find_group-named group.spec.name groups,
          find_named_of-IsFirst name_of group.spec.name remote groups first,
        )
        refl
  sync_group-Finds _ _ (unlisted groups no_id answer absent) =
      rw
        (
          no_id,
          answer,
          on_error,
          find_group-named group.spec.name groups,
          find_named_of-contains name_of group.spec.name groups absent,
        )
        refl
  sync_group-Finds _ _ (named_by_id remote has_id answer) = rw (has_id, answer, on_error) refl

  differs_of-disagreement :
      (current : RemoteGroup)
      → ¬ Agrees current group.spec
      → needs_group_update current (target_group group.spec) ≡ true
  differs_of-disagreement current disagrees =
      elim (Bool-cases (needs_group_update current (target_group group.spec))) [
        | inl differs ↦ differs
        | inr same ↦ absurd (disagrees ((needs_group_update-false_iff current group.spec).0 same))
      ]

  pub sync_group-Reaches :
      (remote : RemoteGroup) (group' : UserGroup) (h' : History)
      → Reaches remote group' h'
      → sync_group env c group h ≡ finish env group' remote h'
  unfolding create_or_update create_remote update_remote ◌>>=◌
  sync_group-Reaches _ _ _ (created remote h' finds answer) =
      sync_group-Finds none h' finds ∙ rw (answer, on_error) refl
  sync_group-Reaches _ _ _ (kept remote h' finds agrees) =
      sync_group-Finds (some remote) h' finds
      ∙ rw ((needs_group_update-false_iff remote group.spec).1 agrees) refl
  sync_group-Reaches _ _ _ (updated current remote h' finds disagrees answer) =
      sync_group-Finds (some current) h' finds
      ∙ rw (differs_of-disagreement current disagrees, answer, on_error) refl

-- A status write of this kind is the last event, and the next run is in five minutes.
write_synced-SyncedTo :
    (env : Env) (latest : UserGroup) (remote : RemoteGroup) (h : History)
    → ((history : History) (x : UserGroup)
        → (y : UserGroup) × (env.write update_status user_group_kind history x ≡ ok y))
    → ((write_synced env latest remote h).0 ≡ again_after 300)
      × SyncedTo remote (write_synced env latest remote h).1
unfolding write_synced set_synced_condition set_condition clock put ◌>>=◌
write_synced-SyncedTo env latest remote h stored =
    rw ((stored _ _).1, on_error)
      (
        refl,
        record {
          group = _;
          before = _;
          newest = refl;
          id = refl;
          is_ready = refl;
          is_synced = refl;
        },
      )

module _ (env : Env) (key : Key) (h : History) (g : UserGroup) (i : Instance) (c : Client) where
  abbrev pub after_access : History
  after_access = (access env g.spec.instance_ref g.namespace "" (got user_group_kind key ∷ h)).1

  -- A live resource that has its finalizer and whose instance gives access.
  pub record IsLive : Type 0 where
    pub found : env.get user_group_kind h key ≡ ok g
    pub not_deleted : is_some g.metadata.deletion_timestamp ≡ false
    pub opened :
        (access env g.spec.instance_ref g.namespace "" (got user_group_kind key ∷ h)).0
        ≡ granted i c
    pub held : env.contains_finalizer g.metadata group_finalizer ≡ true

  -- If a user group that is not being deleted has its finalizer and its instance gives access, if
  -- the calls of PocketID reach a group (the one with the id of the status, or else the first
  -- listed one with the name of the spec, which is updated exactly where its name or its friendly
  -- name is not that of the spec, or else, where none has the name, a new one), and if the resource
  -- can be read again and its status written, then the run asks for another one in five minutes,
  -- and its last event is a write of the status that says ready and synced, with the id of that
  -- group.
  pub reconcile-group_syncs :
      (remote : RemoteGroup) (g' latest : UserGroup) (h' : History)
      → IsLive
      → Reaches env c g after_access remote g' h'
      → env.get user_group_kind h' (key_of g'.metadata) ≡ ok latest
      → ((history : History) (x : UserGroup)
          → (y : UserGroup) × (env.write update_status user_group_kind history x ≡ ok y))
      → ((reconcile env key h).0 ≡ again_after 300) × SyncedTo remote (reconcile env key h).1
  unfolding reconcile reconcile_group reconcile_with reconcile_live ensure_finalizer finish fetch
      ◌>>=◌
  reconcile-group_syncs remote g' latest h' l reaches reread stored =
      rw
        (
          l.found,
          on_error,
          l.opened,
          l.not_deleted,
          l.held,
          sync_group-Reaches env c g after_access remote g' h' reaches,
          reread,
        )
        (write_synced-SyncedTo env latest remote _ stored)
