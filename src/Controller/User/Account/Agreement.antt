-- ===== src/Controller/User/Account/Agreement.antt =====
-- When `needsUserUpdate` of pocketiduser_controller.go says that nothing is to be sent.
use pocketid_operator.Base.{
  ◌≡◌, refl, ap, ◌↔◌, String, true, false, string_eq, bool_eq, eq_iff, Option, none, some, arith,
}
use pocketid_operator.PocketId.Types.{User as Account}
use pocketid_operator.Controller.User.Account.{string_ptr_equal, needs_user_update}

string_ptr_equal_iff : (a b : Option String) → (string_ptr_equal a b ≡ true) ↔ (a ≡ b)
string_ptr_equal_iff none none = (λ e. refl, λ e. refl)
string_ptr_equal_iff none (some b) = (λ e. absurd (cc), λ e. absurd (cc))
string_ptr_equal_iff (some a) none = (λ e. absurd (cc), λ e. absurd (cc))
string_ptr_equal_iff (some a) (some b) = (λ e. ap some ((eq_iff a b).0 e), λ e. (eq_iff a b).1 (cc))

-- Two accounts that agree in all that an update sends but the groups.
pub record Agrees (current target : Account) : Type 0 where
  pub username : current.username ≡ target.username
  pub email : current.email ≡ target.email
  pub first_name : current.first_name ≡ target.first_name
  pub last_name : current.last_name ≡ target.last_name
  pub display_name : current.display_name ≡ target.display_name
  pub is_admin : current.is_admin ≡ target.is_admin
  pub disabled : current.disabled ≡ target.disabled
  pub locale : current.locale ≡ target.locale

Agrees-of-needs_user_update : (c t : Account) → needs_user_update c t ≡ false → Agrees c t
unfolding needs_user_update
Agrees-of-needs_user_update c t e = record {
  username = (eq_iff c.username t.username).0 (ground arith);
  email = (string_ptr_equal_iff c.email t.email).0 (ground arith);
  first_name = (eq_iff c.first_name t.first_name).0 (ground arith);
  last_name = (string_ptr_equal_iff c.last_name t.last_name).0 (ground arith);
  display_name = (eq_iff c.display_name t.display_name).0 (ground arith);
  is_admin = (eq_iff c.is_admin t.is_admin).0 (ground arith);
  disabled = (eq_iff c.disabled t.disabled).0 (ground arith);
  locale = (string_ptr_equal_iff c.locale t.locale).0 (ground arith);
}

needs_user_update_of-Agrees : (c t : Account) → Agrees c t → needs_user_update c t ≡ false
unfolding needs_user_update
needs_user_update_of-Agrees c t a = rw (
  (eq_iff c.username t.username).1 a.username,
  (string_ptr_equal_iff c.email t.email).1 a.email,
  (eq_iff c.first_name t.first_name).1 a.first_name,
  (string_ptr_equal_iff c.last_name t.last_name).1 a.last_name,
  (eq_iff c.display_name t.display_name).1 a.display_name,
  (eq_iff c.is_admin t.is_admin).1 a.is_admin,
  (eq_iff c.disabled t.disabled).1 a.disabled,
  (string_ptr_equal_iff c.locale t.locale).1 a.locale,
)

-- `needsUserUpdate` is false exactly when the two accounts agree in the eight fields that an update
-- sends, a nil pointer agreeing with nil only.
pub needs_user_update-false_iff :
    (current target : Account) → (needs_user_update current target ≡ false) ↔ Agrees current target
needs_user_update-false_iff c t = (Agrees-of-needs_user_update c t, needs_user_update_of-Agrees c t)
