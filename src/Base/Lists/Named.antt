-- ===== src/Base/Lists/Named.antt =====
-- The first and the last element of a list with a name, as relations, and a search for the first.
use pocketid_operator.Base.{
  ◌≡◌, refl, sym, ap, ◌∙◌, String, false, ◌==◌, string_eq, eq_iff, if◌then◌else◌, Option, none,
  some, List, [], ◌∷◌, map, arith, Bool-cases, inl, inr,
}
use pocketid_operator.Base.Lists.{contains}

module _ {A : Type 0} (name_of : A → String) (name : String) (a : A) where
  -- The element has the name, and none before it has.
  pub data IsFirst : List A → Type 0 where
    here : {xs : List A} → name_of a ≡ name → IsFirst (a ∷ xs)
    there : {x : A} {xs : List A} → (name_of x == name) ≡ false → IsFirst xs → IsFirst (x ∷ xs)

  -- The element has the name, and none after it has.
  pub data IsLast : List A → Type 0 where
    last_here :
        {xs : List A} → name_of a ≡ name → contains (map name_of xs) name ≡ false → IsLast (a ∷ xs)
    later : {x : A} {xs : List A} → IsLast xs → IsLast (x ∷ xs)

module _ {A : Type 0} (name_of : A → String) where
  abbrev pub find_named : String → List A → Option A
  find_named name [] = none
  find_named name (x ∷ xs) = if name_of x == name then some x else find_named name xs

  pub contains-of-find_named :
      (name : String) (xs : List A)
      → find_named name xs ≡ none
      → contains (map name_of xs) name ≡ false
  contains-of-find_named name [] p = refl
  contains-of-find_named name (x ∷ xs) p = ground (arith, contains-of-find_named name xs)

  pub find_named_of-contains :
      (name : String) (xs : List A)
      → contains (map name_of xs) name ≡ false
      → find_named name xs ≡ none
  find_named_of-contains name [] p = refl
  find_named_of-contains name (x ∷ xs) p = ground (arith, find_named_of-contains name xs)

  pub IsFirst-of-find_named :
      (name : String) (xs : List A) (a : A)
      → find_named name xs ≡ some a
      → IsFirst name_of name a xs
  IsFirst-of-find_named name [] a p = absurd (cc)
  IsFirst-of-find_named name (x ∷ xs) a p = elim (Bool-cases (name_of x == name)) [
    | inl same ↦
        let e : x ≡ a = ground arith in
        rw e (here (ap name_of (sym e) ∙ (eq_iff (name_of x) name).0 same))
    | inr other ↦ there other (IsFirst-of-find_named name xs a (ground arith))
  ]

  pub find_named_of-IsFirst :
      (name : String) (a : A) (xs : List A)
      → IsFirst name_of name a xs
      → find_named name xs ≡ some a
  find_named_of-IsFirst name a _ (here named) = rw ((eq_iff (name_of a) name).1 named) refl
  find_named_of-IsFirst name a _ (there {xs = xs} other first) =
      rw other (find_named_of-IsFirst name a xs first)

  IsFirst-name :
      (name : String) (a : A) (xs : List A) → IsFirst name_of name a xs → name_of a ≡ name
  IsFirst-name name a _ (here named) = named
  IsFirst-name name a _ (there {xs = xs} other first) = IsFirst-name name a xs first
