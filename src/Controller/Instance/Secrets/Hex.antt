-- ===== src/Controller/Instance/Secrets/Hex.antt =====
-- The text that `generateRandomKey` makes of its bytes: it can be read back.
use Prim.Native.Char.{Char, code}
use Prim.Native.String.append
use Prim.Native.String.{◌++◌ as ◌<>◌}
use Prim.Native.Nat.{◌/◌, ◌%◌, ◌-◌, compare, Ordering}
use pocketid_operator.Base.{
  ◌≡◌, refl, ap, ◌∙◌, ℕ, zero, suc, ◌+◌, ◌*◌, ◌<◌, String, nat_eq, List, [], ◌∷◌, arith,
}
use pocketid_operator.World.{Env, History, read_bytes, ◌>>=◌}
use pocketid_operator.Controller.Instance.Secrets.{hex_digit, encode_hex, generate_random_key}

-- The value of a digit by its code: `0` to `9` and `a` to `f`.
unfoldable pub digit_value : ℕ → ℕ
digit_value c = elim (compare c 58) [ Ordering.lt ↦ c - 48 | _ ↦ c - 87 ]

-- Two digits are a byte.
unfoldable pub decode_hex : String → List ℕ
decode_hex String.[] = []
decode_hex (String.◌∷◌ c String.[]) = []
decode_hex (String.◌∷◌ c (String.◌∷◌ d s)) =
    (digit_value (code c) * 16 + digit_value (code d)) ∷ decode_hex s

-- One character, with the value.
record IsDigit (d : ℕ) : Type 0 where
  char : Char
  text : hex_digit d ≡ String.◌∷◌ char String.[]
  value : digit_value (code char) ≡ d

hex-IsDigit-IsDigit : (d : ℕ) → d < 16 → IsDigit d
unfolding digit_value
hex-IsDigit-IsDigit zero p = record { char = "0"; text = refl; value = refl }
hex-IsDigit-IsDigit (suc zero) p = record { char = "1"; text = refl; value = refl }
hex-IsDigit-IsDigit (suc (suc zero)) p = record { char = "2"; text = refl; value = refl }
hex-IsDigit-IsDigit (suc (suc (suc zero))) p = record { char = "3"; text = refl; value = refl }
hex-IsDigit-IsDigit (suc (suc (suc (suc zero)))) p = record {
  char = "4";
  text = refl;
  value = refl;
}
hex-IsDigit-IsDigit (suc (suc (suc (suc (suc zero))))) p = record {
  char = "5";
  text = refl;
  value = refl;
}
hex-IsDigit-IsDigit (suc (suc (suc (suc (suc (suc zero)))))) p = record {
  char = "6";
  text = refl;
  value = refl;
}
hex-IsDigit-IsDigit (suc (suc (suc (suc (suc (suc (suc zero))))))) p = record {
  char = "7";
  text = refl;
  value = refl;
}
hex-IsDigit-IsDigit (suc (suc (suc (suc (suc (suc (suc (suc zero)))))))) p = record {
  char = "8";
  text = refl;
  value = refl;
}
hex-IsDigit-IsDigit (suc (suc (suc (suc (suc (suc (suc (suc (suc zero))))))))) p = record {
  char = "9";
  text = refl;
  value = refl;
}
hex-IsDigit-IsDigit (suc (suc (suc (suc (suc (suc (suc (suc (suc (suc zero)))))))))) p = record {
  char = "a";
  text = refl;
  value = refl;
}
hex-IsDigit-IsDigit (suc (suc (suc (suc (suc (suc (suc (suc (suc (suc (suc zero))))))))))) p =
    record { char = "b"; text = refl; value = refl }
hex-IsDigit-IsDigit (suc (suc (suc (suc (suc (suc (suc (suc (suc (suc (suc (suc zero)))))))))))) p =
    record { char = "c"; text = refl; value = refl }
hex-IsDigit-IsDigit
      (suc (suc (suc (suc (suc (suc (suc (suc (suc (suc (suc (suc (suc zero))))))))))))) p =
    record { char = "d"; text = refl; value = refl }
hex-IsDigit-IsDigit
      (suc (suc (suc (suc (suc (suc (suc (suc (suc (suc (suc (suc (suc (suc zero)))))))))))))) p =
    record { char = "e"; text = refl; value = refl }
hex-IsDigit-IsDigit
      (suc (suc (suc (suc (suc (suc (suc (suc (suc (suc (suc (suc (suc (suc (suc zero)))))))))))))))
      p =
    record { char = "f"; text = refl; value = refl }
hex-IsDigit-IsDigit
      (suc
        (suc (suc (suc (suc (suc (suc (suc (suc (suc (suc (suc (suc (suc (suc (suc d))))))))))))))))
      p =
    absurd (omega arith)

one-append : (c : Char) (s : String) → String.◌∷◌ c String.[] <> s ≡ String.◌∷◌ c s
one-append c s = append.cons c String.[] s ∙ ap (String.◌∷◌ c) (append.nil s)

decode_two :
    (c d : Char) (s : String)
    → decode_hex (String.◌∷◌ c String.[] <> String.◌∷◌ d String.[] <> s)
      ≡ (digit_value (code c) * 16 + digit_value (code d)) ∷ decode_hex s
unfolding decode_hex
decode_two c d s = rw (one-append d s, one-append c (String.◌∷◌ d s)) refl

decode_digits :
    (a b : ℕ) (s : String)
    → a < 16
    → b < 16
    → decode_hex (hex_digit a <> hex_digit b <> s) ≡ (a * 16 + b) ∷ decode_hex s
decode_digits a b s p q =
    let x = hex-IsDigit-IsDigit a p in
    let y = hex-IsDigit-IsDigit b q in
    rw (x.text, y.text) (decode_two x.char y.char s ∙ rw (x.value, y.value) refl)

-- Every number is below 256.
abbrev pub AreBytes : List ℕ → Type 0
AreBytes [] = Unit
AreBytes (b ∷ bs) = (b < 256) × AreBytes bs

decode_hex-encode_hex : (bs : List ℕ) → AreBytes bs → decode_hex (encode_hex bs) ≡ bs
unfolding encode_hex decode_hex
decode_hex-encode_hex [] p = refl
decode_hex-encode_hex (b ∷ bs) (p, ps) =
    let whole : b / 16 * 16 + b % 16 ≡ b = omega arith in
    decode_digits (b / 16) (b % 16) (encode_hex bs) (omega arith) (omega arith)
    ∙ rw (whole, decode_hex-encode_hex bs ps) refl

-- If the random source gives numbers below 256, then the key that is generated from them reads
-- back, two digits for each number, as the very numbers that were drawn: nothing of what was drawn
-- is lost.
pub decode_hex-generate_random_key :
    (env : Env) (length : ℕ) (h : History)
    → AreBytes (env.random h length)
    → decode_hex (generate_random_key env length h).0 ≡ env.random h length
unfolding generate_random_key read_bytes ◌>>=◌
decode_hex-generate_random_key env length h bytes = decode_hex-encode_hex _ bytes
