-- ===== src/Api/UserGroup.antt =====
-- api/v1alpha1/pocketidusergroup_types.go
use pocketid_operator.Base.{ℕ, Bool, String, Option, List}
use pocketid_operator.Base.Integer.{ℤ}
use pocketid_operator.Api.Meta.{Time, ObjectMeta, Condition, CrossNamespaceObjectReference}

pub record CustomClaim : Type 0 where
  pub key : String
  pub value : String

pub record UserGroupSpec : Type 0 where
  pub instance_ref : CrossNamespaceObjectReference
  pub name : String
  pub friendly_name : String
  pub is_default : Bool
  pub custom_claims : List CustomClaim

pub record UserGroupStatus : Type 0 where
  pub conditions : List Condition
  pub ready : Bool
  pub group_id : String
  pub user_count : ℤ
  pub synced : Bool
  pub last_sync_time : Option Time
  pub observed_generation : ℕ

pub record UserGroup : Type 0 where
  pub metadata : ObjectMeta
  pub open metadata use {name, namespace}
  pub spec : UserGroupSpec
  pub status : UserGroupStatus
