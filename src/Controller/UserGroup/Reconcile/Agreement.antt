-- ===== src/Controller/UserGroup/Reconcile/Agreement.antt =====
-- `needsGroupUpdate` and `targetGroup` of pocketidusergroup_controller.go: when the group in
-- PocketID is as the specification says.
use pocketid_operator.Base.{◌≡◌, refl, ◌↔◌, false, string_eq, eq_iff, arith}
use pocketid_operator.Api.UserGroup.{UserGroupSpec}
use pocketid_operator.PocketId.Types.{UserGroup as RemoteGroup, UserGroupCreate}
use pocketid_operator.Controller.UserGroup.Reconcile.{needs_group_update, target_group}

-- The group has the name and the friendly name of the specification.
pub record Agrees (remote : RemoteGroup) (spec : UserGroupSpec) : Type 0 where
  pub name : remote.name ≡ spec.name
  pub friendly_name : remote.friendly_name ≡ spec.friendly_name

-- What is asked of PocketID for the specification.
abbrev pub request_for : UserGroupSpec → UserGroupCreate
request_for spec = record { name = spec.name; friendly_name = spec.friendly_name }

pub needs_group_update-false_iff :
    (remote : RemoteGroup) (spec : UserGroupSpec)
    → (needs_group_update remote (target_group spec) ≡ false) ↔ Agrees remote spec
unfolding needs_group_update
needs_group_update-false_iff remote spec = (
  λ p. record {
    name = (eq_iff remote.name spec.name).0 (ground arith);
    friendly_name = (eq_iff remote.friendly_name spec.friendly_name).0 (ground arith);
  },
  λ a.
      rw
        (
          (eq_iff remote.name spec.name).1 a.name,
          (eq_iff remote.friendly_name spec.friendly_name).1 a.friendly_name,
        )
        refl,
)
