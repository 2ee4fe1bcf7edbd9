-- ===== src/Controller/User/Account.antt =====
-- `resolveOrCreateUser`, `needsUserUpdate` and `stringPtrEqual` of pocketiduser_controller.go
pub mod Agreement
pub mod Outcomes
pub mod Resolution
use pocketid_operator.Base.{
  String, Bool, true, false, not, ◌==◌, string_eq, bool_eq, is_empty, if◌then◌else◌, Option, none,
  some, List, [], ◌∷◌,
}
use pocketid_operator.Error.{Error, wrap, Result, ok, err}
use pocketid_operator.Api.User.{User, UserSpec}
use pocketid_operator.PocketId.Types.{User as Account}
use pocketid_operator.PocketId.Request.{Client}
use pocketid_operator.PocketId.Client.{get_user, list_users, create_user, update_user}
use pocketid_operator.World.{Env, M, pure, on_error, ◌>>=◌}

abbrev pub string_ptr_equal : Option String → Option String → Bool
string_ptr_equal none none = true
string_ptr_equal none (some b) = false
string_ptr_equal (some a) none = false
string_ptr_equal (some a) (some b) = a == b

unfoldable pub needs_user_update : Account → Account → Bool
needs_user_update current target =
    if not (current.username == target.username)
    then true
    else if not (string_ptr_equal current.email target.email)
    then true
    else if not (current.first_name == target.first_name)
    then true
    else if not (string_ptr_equal current.last_name target.last_name)
    then true
    else if not (current.display_name == target.display_name)
    then true
    else if not (current.is_admin == target.is_admin)
    then true
    else if not (current.disabled == target.disabled)
    then true
    else if not (string_ptr_equal current.locale target.locale)
    then true
    else false

-- A pointer to a field that is set, or nil.
abbrev pub pointer_to : String → Option String
pointer_to s = if is_empty s then none else some s

-- `targetUser`
abbrev pub target_user : UserSpec → Account
target_user spec = record {
  id = "";
  username = spec.username;
  email = spec.email;
  first_name = spec.first_name;
  last_name = pointer_to spec.last_name;
  display_name = spec.display_name;
  is_admin = spec.is_admin;
  disabled = spec.disabled;
  locale = pointer_to spec.locale;
  user_groups = [];
}

-- The loop over the listed users.
abbrev pub find_username : String → List Account → Option Account
find_username name [] = none
find_username name (u ∷ us) = if u.username == name then some u else find_username name us

-- The account, and the resource with the status that the call leaves: it differs only where an
-- account was created.
abbrev pub Resolved : Type 0
Resolved = Result (Account × User)

module _ (env : Env) (c : Client) where
  unfoldable pub create_account : User → Account → M Resolved
  create_account user target = do
    created ← create_user env c target
    on_error created (λ e. pure (err (wrap "CreateUserFailed: " e)))
        λ account.
          pure (ok (account, record user { status = record user.status { user_id = account.id } }))

  unfoldable pub update_account : User → Account → Account → M Resolved
  update_account user current target =
      if needs_user_update current target
      then (do
        updated ← update_user env c current.id target
        on_error updated (λ e. pure (err (wrap "UpdateUserFailed: " e)))
            λ account. pure (ok (account, user)))
      else pure (ok (current, user))

  unfoldable pub create_or_update : User → Option Account → M Resolved
  create_or_update user none = create_account user (target_user user.spec)
  create_or_update user (some current) =
      update_account user current (record (target_user user.spec) { id = current.id })

  unfoldable pub get_account : User → M Resolved
  get_account user = do
    found ← get_user env c user.status.user_id
    on_error found (λ e. pure (err (wrap "GetUserFailed: " e))) λ account. pure (ok (account, user))

  unfoldable pub search_account : User → M Resolved
  search_account user = do
    listed ← list_users env c
    on_error listed (λ e. pure (err (wrap "ListUsersFailed: " e)))
        λ users. create_or_update user (find_username user.spec.username users)

  unfoldable pub resolve_or_create_user : User → M Resolved
  resolve_or_create_user user =
      if is_empty user.status.user_id then search_account user else get_account user
