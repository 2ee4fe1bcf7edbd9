-- ===== src/Base/Text/Splits.antt =====
-- What `split_once` finds: the text before the first separator and the text after it.
use Prim.Native.Char.{Char, code}
use pocketid_operator.Base.{
  ◌≡◌, refl, ◌⊎◌, inl, inr, ℕ, String, Bool, true, false, not, ◌&&◌, ◌==◌, nat_eq, none, some,
  arith, Bool-cases, eq_iff,
}
use pocketid_operator.Base.Text.{split_once}

-- No character of the text has the code.
abbrev pub lacks : ℕ → String → Bool
lacks sep String.[] = true
lacks sep (String.◌∷◌ c s) = not (code c == sep) && lacks sep s

-- The text is `before`, then a character with the code, then `after`.
abbrev pub Joins : ℕ → String → String → String → Type 0
Joins sep String.[] after text = (c : Char) × (code c ≡ sep) × (text ≡ String.◌∷◌ c after)
Joins sep (String.◌∷◌ c before) after text =
    (rest : String) × (text ≡ String.◌∷◌ c rest) × Joins sep before after rest

pub split_once-Joins :
    (sep : ℕ) (before after text : String)
    → Joins sep before after text
    → lacks sep before ≡ true
    → split_once sep text ≡ some (before, after)
unfolding split_once
split_once-Joins sep String.[] after text (c, e, p) l = rw (p, (eq_iff (code c) sep).1 e) refl
split_once-Joins sep (String.◌∷◌ c before) after text (rest, p, j) l =
    let other : (code c == sep) ≡ false = ground arith in
    let l' : lacks sep before ≡ true = ground arith in
    rw (p, other, split_once-Joins sep before after rest j l') refl

pub split_once-cases :
    (sep : ℕ) (text : String)
    → (split_once sep text ≡ none) × (lacks sep text ≡ true)
      ⊎ (before : String) × (after : String) × (split_once sep text ≡ some (before, after))
        × Joins sep before after text
        × (lacks sep before ≡ true)
unfolding split_once
split_once-cases sep String.[] = inl (refl, refl)
split_once-cases sep (String.◌∷◌ c s) = elim (Bool-cases (code c == sep)) [
  | inl same ↦ inr (String.[], s, rw same refl, (c, (eq_iff (code c) sep).0 same, refl), refl)
  | inr other ↦ elim (split_once-cases sep s) [
    | inl (nothing, l) ↦ inl (rw (other, nothing) refl, rw (other, l) refl)
    | inr (before, after, e, j, l) ↦
        inr (String.◌∷◌ c before, after, rw (other, e) refl, (s, refl, j), rw (other, l) refl)
  ]
]

pub split_once-lacks :
    (sep : ℕ) (text : String) → lacks sep text ≡ true → split_once sep text ≡ none
unfolding split_once
split_once-lacks sep String.[] l = refl
split_once-lacks sep (String.◌∷◌ c s) l =
    let other : (code c == sep) ≡ false = ground arith in
    let l' : lacks sep s ≡ true = ground arith in rw (other, split_once-lacks sep s l') refl
