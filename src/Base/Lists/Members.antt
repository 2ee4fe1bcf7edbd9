-- ===== src/Base/Lists/Members.antt =====
-- Membership in lists: of joined lists, and lists with the same members.
use pocketid_operator.Base.{
  ◌≡◌, refl, sym, ◌∙◌, ap, ◌↔◌, inl, inr, true, ◌&&◌, ◌||◌, Eq, ◌==◌, eq_iff, eq_refl, List, [],
  ◌∷◌, ◌++◌, arith, Bool-cases,
}
use pocketid_operator.Base.Lists.{contains, all_in}

module _ {ℓ} {A : Type ℓ} ⦃e : Eq A⦄ where
  pub contains-append :
      (xs ys : List A) (a : A) → contains (xs ++ ys) a ≡ (contains xs a || contains ys a)
  contains-append [] ys a = refl
  contains-append (x ∷ xs) ys a = ground (arith, contains-append xs ys a)

  pub all_in_iff :
      (xs ys : List A)
      → (all_in xs ys ≡ true) ↔ ((a : A) → contains xs a ≡ true → contains ys a ≡ true)
  all_in_iff [] ys = (λ p a q. absurd (cc), λ p. refl)
  all_in_iff (x ∷ xs) ys = (
    λ p a q. elim (Bool-cases (x == a)) [
      | inl same ↦ ap (contains ys) (sym ((eq_iff x a).0 same)) ∙ ground arith
      | inr other ↦ (all_in_iff xs ys).0 (ground arith) a (ground arith)
    ],
    λ p.
        let here : contains ys x ≡ true = p x (rw (eq_refl x)) in
        let rest : all_in xs ys ≡ true = (all_in_iff xs ys).1 (λ a q. p a (ground arith)) in
        ground arith,
  )

  -- Each list stands in the other exactly when they have the same members.
  pub all_in-both_iff :
      (xs ys : List A)
      → ((all_in xs ys && all_in ys xs) ≡ true) ↔ ((a : A) → contains xs a ≡ contains ys a)
  all_in-both_iff xs ys = (
    λ p a.
        let to = (all_in_iff xs ys).0 (ground arith) a in
        let from = (all_in_iff ys xs).0 (ground arith) a in ground arith,
    λ same.
        let to : all_in xs ys ≡ true = (all_in_iff xs ys).1 (λ a q. sym (same a) ∙ q) in
        let from : all_in ys xs ≡ true = (all_in_iff ys xs).1 (λ a q. same a ∙ q) in ground arith,
  )
