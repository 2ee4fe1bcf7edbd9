-- ===== src/Api/User.antt =====
-- api/v1alpha1/pocketiduser_types.go
use pocketid_operator.Base.{ℕ, Bool, String, Option, List}
use pocketid_operator.Api.Meta.{
  Time, ObjectMeta, Condition, LocalObjectReference, CrossNamespaceObjectReference,
}

pub record UserSpec : Type 0 where
  pub instance_ref : CrossNamespaceObjectReference
  pub username : String
  pub email : Option String
  pub first_name : String
  pub last_name : String
  pub display_name : String
  pub is_admin : Bool
  pub disabled : Bool
  pub locale : String
  pub user_group_refs : List LocalObjectReference
  pub send_onboarding_email : Bool
  pub one_time_access_secret_ref : Option LocalObjectReference

pub record UserStatus : Type 0 where
  pub conditions : List Condition
  pub ready : Bool
  pub user_id : String
  pub synced : Bool
  pub last_sync_time : Option Time
  pub onboarding_link_created : Bool
  pub onboarding_email_sent : Bool
  pub onboarding_email_sent_at : Option Time
  pub observed_generation : ℕ

pub record User : Type 0 where
  pub metadata : ObjectMeta
  pub open metadata use {name, namespace}
  pub spec : UserSpec
  pub status : UserStatus
