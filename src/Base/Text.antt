-- ===== src/Base/Text.antt =====
-- The functions of Go's package `strings` that the operator calls, on the native strings.
pub mod Splits
use Prim.Native.Nat.{ℕ, compare, Ordering}
use Prim.Native.Char.{Char, code}
use Prim.Native.String.{String}
use mathlib.Core.Bool.{Bool, true, false, ◌&&◌, ◌||◌}
use mathlib.Core.Option.{Option, none, some}
use mathlib.Core.List.{List, [], ◌∷◌}
use pocketid_operator.Base.Tests.{◌==◌, nat_eq, is_empty, if◌then◌else◌}

abbrev leb : ℕ → ℕ → Bool
leb a b = elim (compare a b) [ Ordering.gt ↦ false | _ ↦ true ]

-- `unicode.IsSpace`
abbrev pub is_space : ℕ → Bool
is_space c =
    (leb 9 c && leb c 13)
    || c == 32
    || c == 0x85
    || c == 0xA0
    || c == 0x1680
    || (leb 0x2000 c && leb c 0x200A)
    || c == 0x2028
    || c == 0x2029
    || c == 0x202F
    || c == 0x205F
    || c == 0x3000

pub trim_left : String → String
trim_left String.[] = String.[]
trim_left (String.◌∷◌ c s) = if is_space (code c) then trim_left s else String.◌∷◌ c s

-- `s` without the trailing run of characters that pass the test.
pub trim_right_by : (ℕ → Bool) → String → String
trim_right_by p String.[] = String.[]
trim_right_by p (String.◌∷◌ c s) =
    let rest = trim_right_by p s in
    if p (code c) && is_empty rest then String.[] else String.◌∷◌ c rest

-- `strings.TrimSpace`
unfoldable pub trim_space : String → String
unfolding trim_left trim_right_by
trim_space s = trim_right_by is_space (trim_left s)

-- `strings.TrimRight(s, "/")`
unfoldable pub trim_right_slashes : String → String
unfolding trim_right_by
trim_right_slashes = trim_right_by (λ c. c == b'/')

abbrev pub put_in_front : Char → Option (String × String) → Option (String × String)
put_in_front c none = none
put_in_front c (some (before, after)) = some (String.◌∷◌ c before, after)

-- `strings.SplitN(s, sep, 2)`, where the separator, one character, occurs.
unfoldable pub split_once : ℕ → String → Option (String × String)
split_once sep String.[] = none
split_once sep (String.◌∷◌ c s) =
    let rest = put_in_front c (split_once sep s) in
    if code c == sep then some (String.[], s) else rest

-- `strings.Split(s, sep)` for a separator of one character.
push_char : Char → List String → List String
push_char c [] = String.◌∷◌ c String.[] ∷ []
push_char c (part ∷ parts) = String.◌∷◌ c part ∷ parts

unfoldable pub split : ℕ → String → List String
unfolding push_char
split sep String.[] = String.[] ∷ []
split sep (String.◌∷◌ c s) =
    let rest = split sep s in if code c == sep then String.[] ∷ rest else push_char c rest
