-- ===== src/Controller/User/Account/Resolution.antt =====
-- `resolveOrCreateUser` of pocketiduser_controller.go: when it creates an account, when it updates
-- one, and when it does neither.
use pocketid_operator.Base.{
  ◌≡◌, refl, sym, ◌∙◌, String, true, false, string_eq, is_empty, Option, none, some, List, [], ◌∷◌,
  arith, Bool-cases, inl, inr,
}
use pocketid_operator.Base.Lists.Named.{find_named, contains-of-find_named, IsFirst-of-find_named}
use pocketid_operator.Error.{ok, Result-cases}
use pocketid_operator.Api.User.{User}
use pocketid_operator.PocketId.Types.{User as Account}
use pocketid_operator.PocketId.Request.{Client}
use pocketid_operator.PocketId.Client.{get_user, list_users, do_request}
use pocketid_operator.World.{Env, History, on_error, send, ◌>>=◌}
use pocketid_operator.Controller.User.Account.{
  find_username, needs_user_update, update_account, create_or_update, get_account, search_account,
  resolve_or_create_user,
}
use pocketid_operator.Controller.User.Account.Agreement.{needs_user_update-false_iff}
use pocketid_operator.Controller.User.Account.Outcomes.{
  username_of, target_for, Finds, after_list, Resolution, effects-create, effects-update,
  create_account-PassesOn, update_account-PassesOn, known, unread, not_listed, created, updated,
  kept,
}

find_username-named :
    (name : String) (us : List Account) → find_username name us ≡ find_named username_of name us
find_username-named name [] = refl
find_username-named name (u ∷ us) = rw (find_username-named name us) refl

module _ (env : Env) (c : Client) (u : User) where
  Resolution-of-current :
      (h : History) (a : Account)
      → Finds env c u h a
      → Resolution env c u h
          (update_account env c u a (target_for env c u a) (after_list env c u h)).0
          (update_account env c u a (target_for env c u a) (after_list env c u h)).1
  unfolding update_account
  Resolution-of-current h a finds = elim (Bool-cases (needs_user_update a (target_for env c u a))) [
    | inl differ ↦
        updated a finds
          (λ agree.
            absurd (ground (arith, (needs_user_update-false_iff a (target_for env c u a)).1 agree)))
          (update_account-PassesOn env c u a (after_list env c u h) differ)
          (effects-update env c u a (after_list env c u h) differ)
    | inr agree ↦
        rw agree
          (kept a finds ((needs_user_update-false_iff a (target_for env c u a)).0 agree) refl refl)
  ]

  Resolution-of-listed :
      (h : History) (us : List Account) (o : Option Account)
      → is_empty u.status.user_id ≡ true
      → (list_users env c h).0 ≡ ok us
      → find_username u.spec.username us ≡ o
      → Resolution env c u h
          (create_or_update env c u o (after_list env c u h)).0
          (create_or_update env c u o (after_list env c u h)).1
  unfolding create_or_update
  Resolution-of-listed h us none unset listed p =
      created unset us listed
        (contains-of-find_named username_of u.spec.username us
          (sym (find_username-named u.spec.username us) ∙ p))
        (create_account-PassesOn env c u (after_list env c u h))
        (effects-create env c u (after_list env c u h))
  Resolution-of-listed h us (some a) unset listed p = Resolution-of-current h a (record {
    no_id = unset;
    accounts = us;
    listed = listed;
    first =
        IsFirst-of-find_named username_of u.spec.username us a
          (sym (find_username-named u.spec.username us) ∙ p);
  })

  Resolution-of-search :
      (h : History)
      → is_empty u.status.user_id ≡ true
      → Resolution env c u h (search_account env c u h).0 (search_account env c u h).1
  unfolding search_account list_users do_request send ◌>>=◌
  Resolution-of-search h unset = elim (Result-cases (list_users env c h).0) [
    | inl (e, p) ↦ rw (p, on_error) (not_listed e unset p refl refl)
    | inr (us, p) ↦ rw (p, on_error) (Resolution-of-listed h us _ unset p refl)
  ]

  Resolution-of-get :
      (h : History)
      → is_empty u.status.user_id ≡ false
      → Resolution env c u h (get_account env c u h).0 (get_account env c u h).1
  unfolding get_account get_user do_request send ◌>>=◌
  Resolution-of-get h set = elim (Result-cases (get_user env c u.status.user_id h).0) [
    | inl (e, p) ↦ rw (p, on_error) (unread e set p refl refl)
    | inr (a, p) ↦ rw (p, on_error) (known a set p refl refl)
  ]

  -- The account of a user, by its effects on PocketID. With an id in the status it is only read,
  -- and given as it is, whatever the specification says. Without one the accounts are listed; if
  -- that fails the call fails with no other request; an account is created, as the specification
  -- says, if PocketID has listed none with the username; else the first listed one with the
  -- username is updated, to what the specification says, if it disagrees with it, and is kept and
  -- given as it is if it agrees. The call gives the answer of PocketID to the creation, with its id
  -- in the status, or to the update, and fails if these do.
  pub resolve_or_create_user-Resolution :
      (h : History)
      → Resolution env c u h
          (resolve_or_create_user env c u h).0
          (resolve_or_create_user env c u h).1
  unfolding resolve_or_create_user
  resolve_or_create_user-Resolution h = elim (Bool-cases (is_empty u.status.user_id)) [
    | inl unset ↦ rw unset (Resolution-of-search h unset)
    | inr set ↦ rw set (Resolution-of-get h set)
  ]
