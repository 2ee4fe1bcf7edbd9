-- ===== src/Base/Order.antt =====
-- Go's order of strings and `slices.Sort`. The order of the bytes of two UTF-8 texts is the order
-- of their code points.
pub mod Sorted
use Prim.Native.Nat.{ℕ, compare, Ordering}
use Prim.Native.Char.{code}
use Prim.Native.String.{String}
use mathlib.Core.Bool.{Bool, true, false}
use mathlib.Core.List.{List, [], ◌∷◌}
use pocketid_operator.Base.Tests.{if◌then◌else◌}

abbrev pub codes : String → List ℕ
codes String.[] = []
codes (String.◌∷◌ c s) = code c ∷ codes s

pub leb_codes : List ℕ → List ℕ → Bool
leb_codes [] ys = true
leb_codes (x ∷ xs) [] = false
leb_codes (x ∷ xs) (y ∷ ys) = elim (compare x y) [
  | Ordering.lt ↦ true
  | Ordering.gt ↦ false
  | Ordering.eq ↦ leb_codes xs ys
]

unfoldable pub string_leb : String → String → Bool
unfolding leb_codes
string_leb s t = leb_codes (codes s) (codes t)

unfoldable pub insert_sorted : String → List String → List String
unfolding string_leb
insert_sorted x [] = x ∷ []
insert_sorted x (y ∷ ys) = if string_leb x y then x ∷ y ∷ ys else y ∷ insert_sorted x ys

-- `slices.Sort`: which sort it is cannot be told from the result, since equal strings are one.
unfoldable pub sort : List String → List String
unfolding insert_sorted
sort [] = []
sort (x ∷ xs) = insert_sorted x (sort xs)
