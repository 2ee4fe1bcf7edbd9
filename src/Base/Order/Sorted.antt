-- ===== src/Base/Order/Sorted.antt =====
-- The order of strings is a total order, and sorted lists with the same items are equal.
use Prim.Native.Nat.{ℕ, ◌+◌}
use Prim.Native.String.{String}
use mathlib.Core.Path.{◌≡◌, refl, sym, ap, ap₂, ◌∙◌}
use mathlib.Core.Logic.{◌≢◌, ◌↔◌, inl, inr}
use mathlib.Core.Bool.{true, false}
use mathlib.Core.List.{List, [], ◌∷◌}
use native.Mathlib.Omega.{arith}
use text.Mathlib.TextEquality.{Char-path}
use pocketid_operator.Base.Tests.{◌==◌, string_eq, eq_iff, eq_refl, if◌then◌else◌, Bool-cases}
use pocketid_operator.Base.Order.{codes, leb_codes, string_leb, insert_sorted, sort}

leb_codes_refl : (xs : List ℕ) → leb_codes xs xs ≡ true
unfolding leb_codes
leb_codes_refl [] = refl
leb_codes_refl (x ∷ xs) = ground (arith, leb_codes_refl xs)

leb_codes_total : (xs ys : List ℕ) → leb_codes xs ys ≡ false → leb_codes ys xs ≡ true
unfolding leb_codes
leb_codes_total [] ys h = cc
leb_codes_total (x ∷ xs) [] h = refl
leb_codes_total (x ∷ xs) (y ∷ ys) h = ground (arith, leb_codes_total xs ys)

leb_codes_trans :
    (xs ys zs : List ℕ) → leb_codes xs ys ≡ true → leb_codes ys zs ≡ true → leb_codes xs zs ≡ true
unfolding leb_codes
leb_codes_trans [] ys zs p q = refl
leb_codes_trans (x ∷ xs) [] zs p q = cc
leb_codes_trans (x ∷ xs) (y ∷ ys) [] p q = cc
leb_codes_trans (x ∷ xs) (y ∷ ys) (z ∷ zs) p q = ground (arith, leb_codes_trans xs ys zs)

leb_codes_antisymm : (xs ys : List ℕ) → leb_codes xs ys ≡ true → leb_codes ys xs ≡ true → xs ≡ ys
unfolding leb_codes
leb_codes_antisymm [] [] p q = refl
leb_codes_antisymm [] (y ∷ ys) p q = absurd (cc)
leb_codes_antisymm (x ∷ xs) [] p q = absurd (cc)
leb_codes_antisymm (x ∷ xs) (y ∷ ys) p q = ground (arith, leb_codes_antisymm xs ys)

codes_inj : (s t : String) → codes s ≡ codes t → s ≡ t
codes_inj String.[] String.[] e = refl
codes_inj String.[] (String.◌∷◌ d t) e = absurd (cc)
codes_inj (String.◌∷◌ c s) String.[] e = absurd (cc)
codes_inj (String.◌∷◌ c s) (String.◌∷◌ d t) e =
    ap₂ String.◌∷◌ (Char-path c d (cc)) (codes_inj s t (cc))

pub string_leb_refl : (s : String) → string_leb s s ≡ true
unfolding string_leb
string_leb_refl s = leb_codes_refl (codes s)

pub string_leb_total : (s t : String) → string_leb s t ≡ false → string_leb t s ≡ true
unfolding string_leb
string_leb_total s t = leb_codes_total (codes s) (codes t)

pub string_leb_trans :
    (s t u : String) → string_leb s t ≡ true → string_leb t u ≡ true → string_leb s u ≡ true
unfolding string_leb
string_leb_trans s t u = leb_codes_trans (codes s) (codes t) (codes u)

pub string_leb_antisymm : (s t : String) → string_leb s t ≡ true → string_leb t s ≡ true → s ≡ t
unfolding string_leb
string_leb_antisymm s t p q = codes_inj s t (leb_codes_antisymm (codes s) (codes t) p q)

-- How often a string stands in a list.
abbrev pub count : String → List String → ℕ
count s [] = 0
count s (x ∷ xs) = if x == s then count s xs + 1 else count s xs

abbrev pub IsBelow : String → List String → Type 0
IsBelow x [] = Unit {0}
IsBelow x (y ∷ ys) = (string_leb x y ≡ true) × IsBelow x ys

abbrev pub IsSorted : List String → Type 0
IsSorted [] = Unit {0}
IsSorted (x ∷ xs) = IsBelow x xs × IsSorted xs

IsBelow-trans :
    (x y : String) (ys : List String) → string_leb x y ≡ true → IsBelow y ys → IsBelow x ys
IsBelow-trans x y [] p b = tt
IsBelow-trans x y (z ∷ zs) p b = (string_leb_trans x y z p b.0, IsBelow-trans x y zs p b.1)

IsBelow-insert :
    (x y : String) (ys : List String)
    → string_leb x y ≡ true
    → IsBelow x ys
    → IsBelow x (insert_sorted y ys)
unfolding insert_sorted
IsBelow-insert x y [] p b = (p, tt)
IsBelow-insert x y (z ∷ zs) p b = ground (arith, IsBelow-insert x y zs p b.1)

insert_sorted-IsSorted :
    (x : String) (ys : List String) → IsSorted ys → IsSorted (insert_sorted x ys)
unfolding insert_sorted
insert_sorted-IsSorted x [] s = (tt, tt)
insert_sorted-IsSorted x (y ∷ ys) s = elim (Bool-cases (string_leb x y)) [
  | inl le ↦ rw le ((le, IsBelow-trans x y ys le s.0), s)
  | inr gt ↦
      rw gt (IsBelow-insert y x ys (string_leb_total x y gt) s.0, insert_sorted-IsSorted x ys s.1)
]

sort-IsSorted : (xs : List String) → IsSorted (sort xs)
unfolding sort
sort-IsSorted [] = tt
sort-IsSorted (x ∷ xs) = insert_sorted-IsSorted x (sort xs) (sort-IsSorted xs)

count-insert_sorted :
    (s x : String) (ys : List String) → count s (insert_sorted x ys) ≡ count s (x ∷ ys)
unfolding insert_sorted
count-insert_sorted s x [] = refl
count-insert_sorted s x (y ∷ ys) = ground (arith, count-insert_sorted s x ys)

pub count-sort : (s : String) (xs : List String) → count s (sort xs) ≡ count s xs
unfolding sort
count-sort s [] = refl
count-sort s (x ∷ xs) = ground (arith, count-insert_sorted s x (sort xs), count-sort s xs)

-- What stands in a list lies above its lower bounds.
leb_of-IsBelow :
    (x s : String) (ys : List String) → IsBelow x ys → count s ys ≢ 0 → string_leb x s ≡ true
leb_of-IsBelow x s [] b there = absurd (there refl)
leb_of-IsBelow x s (y ∷ ys) b there = ground (arith, eq_iff y s, leb_of-IsBelow x s ys b.1)

pub eq_of_count :
    (xs ys : List String)
    → IsSorted xs
    → IsSorted ys
    → ((s : String) → count s xs ≡ count s ys)
    → xs ≡ ys
eq_of_count [] [] sx sy same = refl
eq_of_count [] (y ∷ ys) sx sy same = absurd (ground (arith, same y, eq_refl y))
eq_of_count (x ∷ xs) [] sx sy same = absurd (ground (arith, same x, eq_refl x))
eq_of_count (x ∷ xs) (y ∷ ys) sx sy same =
    ap₂ ◌∷◌ heads (eq_of_count xs ys sx.1 sy.1 (λ s. ground (arith, same s, heads)))
  where
    above :
        (a b : String) (us vs : List String)
        → IsBelow a us
        → count b (a ∷ us) ≢ 0
        → string_leb a b ≡ true
    above a b us vs below there = leb_of-IsBelow a b (a ∷ us) (string_leb_refl a, below) there

    heads : x ≡ y
    heads =
        string_leb_antisymm x y (above x y xs ys sx.0 (ground (arith, same y, eq_refl y)))
          (above y x ys xs sy.0 (ground (arith, same x, eq_refl x)))

-- Lists with the same items, however ordered, have one sorted form; and only those.
pub sort-eq_iff :
    (xs ys : List String) → (sort xs ≡ sort ys) ↔ ((s : String) → count s xs ≡ count s ys)
sort-eq_iff xs ys = (
  λ e s. sym (count-sort s xs) ∙ ap (count s) e ∙ count-sort s ys,
  λ same.
      eq_of_count (sort xs) (sort ys) (sort-IsSorted xs) (sort-IsSorted ys)
        (λ s. count-sort s xs ∙ same s ∙ sym (count-sort s ys)),
)
