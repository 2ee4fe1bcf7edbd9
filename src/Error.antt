-- ===== src/Error.antt =====
-- Go's `error` values as the controllers build and inspect them, and `(value, error)` results.
use Prim.Native.String.{◌++◌}
use pocketid_operator.Base.{◌≡◌, refl, ◌⊎◌, inl, inr, ℕ, String, Bool, true, false}
use pocketid_operator.Base.Integer.{print_nat}

pub data Error : Type 0 where
  -- a Kubernetes API error with reason NotFound, and any other
  not_found api_failure : String → Error
  -- `errors.New`, and `fmt.Errorf` with no `%w`
  plain : String → Error
  -- `pocketid.APIError`
  api_error : ℕ → String → Error
  -- `fmt.Errorf("…%w", err)`, the text in front of the cause
  wrap : String → Error → Error
  -- `oidcGroupReferenceError`
  group_reference : String → Error → Error

-- `err.Error()`
unfoldable pub error_text : Error → String
error_text (not_found m) = m
error_text (api_failure m) = m
error_text (plain m) = m
error_text (api_error code m) = "API error: status=" ++ print_nat code ++ " message=" ++ m
error_text (wrap context e) = context ++ error_text e
error_text (group_reference reason e) = error_text e

-- `apierrors.IsNotFound`, which looks through the wrapped errors.
abbrev pub is_not_found : Error → Bool
is_not_found (not_found m) = true
is_not_found (api_failure m) = false
is_not_found (plain m) = false
is_not_found (api_error code m) = false
is_not_found (wrap context e) = is_not_found e
is_not_found (group_reference reason e) = is_not_found e

pub data Result {ℓ} (A : Type ℓ) : Type ℓ where
  ok : A → Result A
  err : Error → Result A

abbrev pub is_ok {ℓ} : {A : Type ℓ} → Result A → Bool
is_ok (ok a) = true
is_ok (err e) = false

-- To split on a result and keep the equation.
pub Result-cases {ℓ} :
    {A : Type ℓ} (r : Result A) → ((e : Error) × (r ≡ err e)) ⊎ ((a : A) × (r ≡ ok a))
Result-cases (ok a) = inr (a, refl)
Result-cases (err e) = inl (e, refl)

-- A result is an answer handed on: what it holds goes through the function, and a failure stays
-- one.
pub data PassesOn {ℓ} {A B : Type ℓ} (f : A → B) (answer : Result A) (r : Result B) : Type ℓ where
  gives : (a : A) → answer ≡ ok a → r ≡ ok (f a) → PassesOn f answer r
  fails : (e : Error) → answer ≡ err e → is_ok r ≡ false → PassesOn f answer r
