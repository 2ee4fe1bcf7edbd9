-- ===== src/Controller/User/Account/Outcomes.antt =====
-- What `resolveOrCreateUser` of pocketiduser_controller.go may come to: the requests, by what it
-- finds.
use pocketid_operator.Base.{
  ◌≡◌, refl, String, true, false, string_eq, is_empty, if◌then◌else◌, none, some, List, [], ◌∷◌,
  map, inl, inr,
}
use pocketid_operator.Base.Lists.{contains}
use pocketid_operator.Base.Lists.Named.{IsFirst}
use pocketid_operator.Error.{Error, ok, err, is_ok, Result-cases, PassesOn, gives, fails}
use pocketid_operator.Api.User.{User, UserSpec}
use pocketid_operator.PocketId.Types.{User as Account}
use pocketid_operator.PocketId.Request.{
  Client, Request, method_get, method_post, method_put, no_body, user_body,
}
use pocketid_operator.PocketId.Client.{
  get_user, list_users, create_user, update_user, do_request, request, user_path,
}
use pocketid_operator.World.{Env, History, on_error, send, sent, ◌>>=◌}
use pocketid_operator.World.Effects.{effects}
use pocketid_operator.Controller.User.Account.{
  target_user, needs_user_update, Resolved, create_account, update_account,
}
use pocketid_operator.Controller.User.Account.Agreement.{Agrees}

abbrev pub username_of : Account → String
username_of a = a.username

-- The account that a specification asks for.
abbrev account_of : UserSpec → String → Account
account_of spec id = record {
  id = id;
  username = spec.username;
  email = spec.email;
  first_name = spec.first_name;
  last_name = if is_empty spec.last_name then none else some spec.last_name;
  display_name = spec.display_name;
  is_admin = spec.is_admin;
  disabled = spec.disabled;
  locale = if is_empty spec.locale then none else some spec.locale;
  user_groups = [];
}

module _ (env : Env) (c : Client) (u : User) where
  abbrev list_request : Request
  list_request = request c method_get "/api/users" no_body

  abbrev get_request : Request
  get_request = request c method_get (user_path u.status.user_id) no_body

  abbrev create_request : Request
  create_request = request c method_post "/api/users" (user_body (account_of u.spec ""))

  -- What the account should be, once its id is known.
  abbrev pub target_for : Account → Account
  target_for a = account_of u.spec a.id

  abbrev update_request : Account → Request
  update_request a = request c method_put (user_path a.id) (user_body (target_for a))

  -- The first of the listed accounts with the username.
  pub record Finds (h : History) (a : Account) : Type 0 where
    pub no_id : is_empty u.status.user_id ≡ true
    pub accounts : List Account
    pub listed : (list_users env c h).0 ≡ ok accounts
    pub first : IsFirst username_of u.spec.username a accounts

  abbrev pub after_list : History → History
  after_list h = sent list_request ∷ h

  abbrev with_id_of : Account → User
  with_id_of a = record u { status = record u.status { user_id = a.id } }

  pub data Resolution (h : History) (r : Resolved) (h' : History) : Type 0 where
    -- an id is known
    known :
        (a : Account)
        → is_empty u.status.user_id ≡ false
        → (get_user env c u.status.user_id h).0 ≡ ok a
        → r ≡ ok (a, u)
        → effects h' ≡ sent get_request ∷ effects h
        → Resolution h r h'
    unread :
        (e : Error)
        → is_empty u.status.user_id ≡ false
        → (get_user env c u.status.user_id h).0 ≡ err e
        → is_ok r ≡ false
        → effects h' ≡ sent get_request ∷ effects h
        → Resolution h r h'
    not_listed :
        (e : Error)
        → is_empty u.status.user_id ≡ true
        → (list_users env c h).0 ≡ err e
        → is_ok r ≡ false
        → effects h' ≡ sent list_request ∷ effects h
        → Resolution h r h'
    created :
        is_empty u.status.user_id ≡ true
        → (us : List Account) → (list_users env c h).0 ≡ ok us
        → contains (map username_of us) u.spec.username ≡ false
        → PassesOn
            (λ a. (a, with_id_of a))
            (create_user env c (account_of u.spec "") (after_list h)).0
            r
        → effects h' ≡ sent create_request ∷ sent list_request ∷ effects h
        → Resolution h r h'
    updated :
        (a : Account)
        → Finds h a
        → ¬ Agrees a (target_for a)
        → PassesOn (λ x. (x, u)) (update_user env c a.id (target_for a) (after_list h)).0 r
        → effects h' ≡ sent (update_request a) ∷ sent list_request ∷ effects h
        → Resolution h r h'
    kept :
        (a : Account)
        → Finds h a
        → Agrees a (target_for a)
        → r ≡ ok (a, u)
        → effects h' ≡ sent list_request ∷ effects h
        → Resolution h r h'

  pub effects-create :
      (h : History)
      → effects (create_account env c u (target_user u.spec) h).1 ≡ sent create_request ∷ effects h
  unfolding create_account create_user do_request send ◌>>=◌
  effects-create h = elim (Result-cases (create_user env c (target_user u.spec) h).0) [
    | inl (e, p) ↦ rw (p, on_error) refl
    | inr (a, p) ↦ rw (p, on_error) refl
  ]

  pub effects-update :
      (a : Account) (h : History)
      → needs_user_update a (target_for a) ≡ true
      → effects (update_account env c u a (target_for a) h).1 ≡ sent (update_request a) ∷ effects h
  unfolding update_account update_user do_request send ◌>>=◌
  effects-update a h differ = elim (Result-cases (update_user env c a.id (target_for a) h).0) [
    | inl (e, p) ↦ rw (differ, p, on_error) refl
    | inr (x, p) ↦ rw (differ, p, on_error) refl
  ]

  pub create_account-PassesOn :
      (h : History)
      → PassesOn
          (λ a. (a, with_id_of a))
          (create_user env c (account_of u.spec "") h).0
          (create_account env c u (target_user u.spec) h).0
  unfolding create_account ◌>>=◌
  create_account-PassesOn h = elim (Result-cases (create_user env c (target_user u.spec) h).0) [
    | inl (e, p) ↦ rw (p, on_error) (fails e refl refl)
    | inr (a, p) ↦ rw (p, on_error) (gives a refl refl)
  ]

  pub update_account-PassesOn :
      (a : Account) (h : History)
      → needs_user_update a (target_for a) ≡ true
      → PassesOn
          (λ x. (x, u))
          (update_user env c a.id (target_for a) h).0
          (update_account env c u a (target_for a) h).0
  unfolding update_account ◌>>=◌
  update_account-PassesOn a h differ =
      elim (Result-cases (update_user env c a.id (target_for a) h).0) [
        | inl (e, p) ↦ rw (differ, p, on_error) (fails e refl refl)
        | inr (x, p) ↦ rw (differ, p, on_error) (gives x refl refl)
      ]
