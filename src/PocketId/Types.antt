-- ===== src/PocketId/Types.antt =====
-- internal/pocketid/types.go
use pocketid_operator.Base.{Bool, false, String, Option, none, List, []}

pub record UserGroupMinimal : Type 0 where
  pub id : String
  pub name : String
  pub friendly_name : String

pub record OidcClient : Type 0 where
  pub id : String
  pub name : String
  pub callback_urls : List String
  pub is_public : Bool
  pub pkce_enabled : Bool
  pub is_group_restricted : Bool
  pub allowed_user_groups : List UserGroupMinimal
  pub has_logo : Bool

-- An entry of `UserGroups` has the three fields of `UserGroupMinimal`.
pub record User : Type 0 where
  pub id : String
  pub username : String
  pub email : Option String
  pub first_name : String
  pub last_name : Option String
  pub display_name : String
  pub is_admin : Bool
  pub disabled : Bool
  pub locale : Option String
  pub user_groups : List UserGroupMinimal

pub record UserGroup : Type 0 where
  pub id : String
  pub name : String
  pub friendly_name : String

pub record UserGroupCreate : Type 0 where
  pub name : String
  pub friendly_name : String

pub record OnboardingResponse : Type 0 where
  pub token : String

-- The zero values that `var x T` declares.
abbrev pub zero_user : User
zero_user = record {
  id = "";
  username = "";
  email = none;
  first_name = "";
  last_name = none;
  display_name = "";
  is_admin = false;
  disabled = false;
  locale = none;
  user_groups = [];
}

abbrev pub zero_group : UserGroup
zero_group = record { id = ""; name = ""; friendly_name = "" }

abbrev pub zero_client : OidcClient
zero_client = record {
  id = "";
  name = "";
  callback_urls = [];
  is_public = false;
  pkce_enabled = false;
  is_group_restricted = false;
  allowed_user_groups = [];
  has_logo = false;
}
