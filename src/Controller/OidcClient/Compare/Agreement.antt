-- ===== src/Controller/OidcClient/Compare/Agreement.antt =====
-- When `needsOIDCClientUpdate` of pocketidoidcclient_controller.go says that nothing is to be sent.
use pocketid_operator.Base.{
  ◌≡◌, refl, sym, ap, ◌∙◌, ◌+◌, ◌↔◌, inl, inr, String, true, false, ◌==◌, string_eq, bool_eq,
  nat_eq, eq_iff, eq_refl, List, [], ◌∷◌, map, arith, Bool-cases,
}
use mathlib.Core.Path.{ap₂}
use pocketid_operator.Base.Lists.{length}
use pocketid_operator.Base.Order.{sort, insert_sorted}
use pocketid_operator.Base.Order.Sorted.{count, sort-eq_iff}
use pocketid_operator.PocketId.Types.{OidcClient, UserGroupMinimal}
use pocketid_operator.Controller.OidcClient.Compare.{
  same_items, equal_strings, group_id, equal_user_group_ids, needs_oidc_client_update,
}

length-insert_sorted : (x : String) (ys : List String) → length (insert_sorted x ys) ≡ length ys + 1
unfolding insert_sorted
length-insert_sorted x [] = refl
length-insert_sorted x (y ∷ ys) = ground (arith, length-insert_sorted x ys)

length-sort : (xs : List String) → length (sort xs) ≡ length xs
unfolding sort
length-sort [] = refl
length-sort (x ∷ xs) = ground (arith, length-insert_sorted x (sort xs), length-sort xs)

same_items_refl : (xs : List String) → same_items xs xs ≡ true
same_items_refl [] = refl
same_items_refl (x ∷ xs) = rw (eq_refl x, same_items_refl xs)

eq_of_same_items : (xs ys : List String) → length xs ≡ length ys → same_items xs ys ≡ true → xs ≡ ys
eq_of_same_items [] [] l s = refl
eq_of_same_items [] (y ∷ ys) l s = absurd (ground arith)
eq_of_same_items (x ∷ xs) [] l s = absurd (ground arith)
eq_of_same_items (x ∷ xs) (y ∷ ys) l s = elim (Bool-cases (x == y)) [
  | inl same ↦ ap₂ ◌∷◌ ((eq_iff x y).0 same) (eq_of_same_items xs ys (ground arith) (ground arith))
  | inr other ↦ absurd (ground arith)
]

sort-eq_of-equal_strings : (xs ys : List String) → equal_strings xs ys ≡ true → sort xs ≡ sort ys
unfolding equal_strings
sort-eq_of-equal_strings xs ys e = elim (Bool-cases (length xs == length ys)) [
  | inl same ↦
      eq_of_same_items (sort xs) (sort ys)
        (length-sort xs ∙ (eq_iff (length xs) (length ys)).0 same ∙ sym (length-sort ys))
        (ground arith)
  | inr other ↦ absurd (ground arith)
]

equal_strings_of-sort-eq : (xs ys : List String) → sort xs ≡ sort ys → equal_strings xs ys ≡ true
unfolding equal_strings
equal_strings_of-sort-eq xs ys e =
    let l : length xs ≡ length ys = sym (length-sort xs) ∙ ap length e ∙ length-sort ys in
    rw ((eq_iff (length xs) (length ys)).1 l, e, same_items_refl (sort ys))

-- `equalStrings` holds of two slices exactly when each string is in both equally often.
pub equal_strings_iff :
    (xs ys : List String) → (equal_strings xs ys ≡ true) ↔ ((s : String) → count s xs ≡ count s ys)
equal_strings_iff xs ys = (
  λ e. (sort-eq_iff xs ys).0 (sort-eq_of-equal_strings xs ys e),
  λ same. equal_strings_of-sort-eq xs ys ((sort-eq_iff xs ys).1 same),
)

length-map : (gs : List UserGroupMinimal) → length (map group_id gs) ≡ length gs
length-map [] = refl
length-map (g ∷ gs) = ground (arith, length-map gs)

length-eq_of-equal_strings :
    (xs ys : List String) → equal_strings xs ys ≡ true → length xs ≡ length ys
length-eq_of-equal_strings xs ys e =
    sym (length-sort xs) ∙ ap length (sort-eq_of-equal_strings xs ys e) ∙ length-sort ys

-- The test on the lengths of the two slices of groups decides nothing that `equalStrings` would
-- not.
equal_user_group_ids-eq :
    (a b : List UserGroupMinimal)
    → equal_user_group_ids a b ≡ equal_strings (map group_id a) (map group_id b)
unfolding equal_user_group_ids
equal_user_group_ids-eq a b = ground (
  arith,
  length-map a,
  length-map b,
  eq_iff (length a) (length b),
  length-eq_of-equal_strings (map group_id a) (map group_id b),
)

-- What PocketID has and what it should have differ at most in the order of lists and in what the
-- comparison does not look at: identifiers of clients, logos and the names of groups.
pub record Agrees (current target : OidcClient) : Type 0 where
  pub name : current.name ≡ target.name
  pub is_public : current.is_public ≡ target.is_public
  pub pkce_enabled : current.pkce_enabled ≡ target.pkce_enabled
  pub is_group_restricted : current.is_group_restricted ≡ target.is_group_restricted
  pub callback_urls : (s : String) → count s current.callback_urls ≡ count s target.callback_urls
  pub allowed_user_groups :
      (s : String)
      → count s (map group_id current.allowed_user_groups)
        ≡ count s (map group_id target.allowed_user_groups)

Agrees-of-needs_oidc_client_update :
    (c t : OidcClient) → needs_oidc_client_update c t ≡ false → Agrees c t
unfolding needs_oidc_client_update
Agrees-of-needs_oidc_client_update c t e = record {
  name = (eq_iff c.name t.name).0 (ground arith);
  is_public = (eq_iff c.is_public t.is_public).0 (ground arith);
  pkce_enabled = (eq_iff c.pkce_enabled t.pkce_enabled).0 (ground arith);
  is_group_restricted = (eq_iff c.is_group_restricted t.is_group_restricted).0 (ground arith);
  callback_urls = (equal_strings_iff c.callback_urls t.callback_urls).0 (ground arith);
  allowed_user_groups =
      (equal_strings_iff (map group_id c.allowed_user_groups)
          (map group_id t.allowed_user_groups)).0
        (ground (arith, equal_user_group_ids-eq c.allowed_user_groups t.allowed_user_groups));
}

needs_oidc_client_update_of-Agrees :
    (c t : OidcClient) → Agrees c t → needs_oidc_client_update c t ≡ false
unfolding needs_oidc_client_update
needs_oidc_client_update_of-Agrees c t a = rw (
  (eq_iff c.name t.name).1 a.name,
  (eq_iff c.is_public t.is_public).1 a.is_public,
  (eq_iff c.pkce_enabled t.pkce_enabled).1 a.pkce_enabled,
  (eq_iff c.is_group_restricted t.is_group_restricted).1 a.is_group_restricted,
  (equal_strings_iff c.callback_urls t.callback_urls).1 a.callback_urls,
  equal_user_group_ids-eq c.allowed_user_groups t.allowed_user_groups,
  (equal_strings_iff (map group_id c.allowed_user_groups) (map group_id t.allowed_user_groups)).1
      a.allowed_user_groups,
)

-- `needsOIDCClientUpdate` is false exactly when the two clients agree: in the name, the three
-- flags, and, as multisets, the callback URLs and the ids of the allowed groups.
pub needs_oidc_client_update-false_iff :
    (current target : OidcClient)
    → (needs_oidc_client_update current target ≡ false) ↔ Agrees current target
needs_oidc_client_update-false_iff c t =
    (Agrees-of-needs_oidc_client_update c t, needs_oidc_client_update_of-Agrees c t)
