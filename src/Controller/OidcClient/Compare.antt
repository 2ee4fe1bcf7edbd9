-- ===== src/Controller/OidcClient/Compare.antt =====
-- `needsOIDCClientUpdate`, `equalUserGroupIDs` and `equalStrings` of
-- pocketidoidcclient_controller.go
pub mod Agreement
use pocketid_operator.Base.{
  ℕ, String, Bool, true, false, not, ◌==◌, string_eq, bool_eq, nat_eq, ◌||◌, if◌then◌else◌, List,
  [], ◌∷◌, map,
}
use pocketid_operator.Base.Lists.{length}
use pocketid_operator.Base.Order.{sort}
use pocketid_operator.PocketId.Types.{OidcClient, UserGroupMinimal}

-- The loop over the sorted copies; they have the same length.
abbrev pub same_items : List String → List String → Bool
same_items [] ys = true
same_items (x ∷ xs) [] = true
same_items (x ∷ xs) (y ∷ ys) = if not (x == y) then false else same_items xs ys

unfoldable pub equal_strings : List String → List String → Bool
equal_strings a b = if not (length a == length b) then false else same_items (sort a) (sort b)

abbrev pub group_id : UserGroupMinimal → String
group_id g = g.id

unfoldable pub equal_user_group_ids : List UserGroupMinimal → List UserGroupMinimal → Bool
equal_user_group_ids a b =
    if not (length a == length b) then false else equal_strings (map group_id a) (map group_id b)

unfoldable pub needs_oidc_client_update : OidcClient → OidcClient → Bool
needs_oidc_client_update current target =
    not (current.name == target.name)
    || not (current.is_public == target.is_public)
    || not (current.pkce_enabled == target.pkce_enabled)
    || not (current.is_group_restricted == target.is_group_restricted)
    || not (equal_strings current.callback_urls target.callback_urls)
    || not (equal_user_group_ids current.allowed_user_groups target.allowed_user_groups)
