-- ===== src/Controller/Instance/Secrets.antt =====
-- `reconcileSecrets` and `generateRandomKey` of pocketidinstance_controller.go
pub mod Hex
use Prim.Native.String.{◌++◌ as ◌<>◌}
use Prim.Native.Nat.{◌/◌, ◌%◌}
use pocketid_operator.Base.{ℕ, String, ◌==◌, nat_eq, if◌then◌else◌, List, [], ◌∷◌}
use pocketid_operator.Error.{is_not_found, Result, ok, err}
use pocketid_operator.Api.Meta.{named}
use pocketid_operator.Api.Core.{Secret}
use pocketid_operator.Api.Instance.{Instance}
use pocketid_operator.World.{
  Env, M, pure, on_error, on_nil, fetch, put, read_bytes, create, instance_kind, secret_kind, ◌>>=◌,
}

abbrev pub hex_digit : ℕ → String
hex_digit d =
    if d == 0
    then "0"
    else if d == 1
    then "1"
    else if d == 2
    then "2"
    else if d == 3
    then "3"
    else if d == 4
    then "4"
    else if d == 5
    then "5"
    else if d == 6
    then "6"
    else if d == 7
    then "7"
    else if d == 8
    then "8"
    else if d == 9
    then "9"
    else if d == 10
    then "a"
    else if d == 11
    then "b"
    else if d == 12
    then "c"
    else if d == 13
    then "d"
    else if d == 14
    then "e"
    else "f"

-- `hex.EncodeToString`
unfoldable pub encode_hex : List ℕ → String
encode_hex [] = ""
encode_hex (b ∷ bs) = hex_digit (b / 16) <> hex_digit (b % 16) <> encode_hex bs

module _ (env : Env) where
  -- A failure of the random source is a panic, which no run here has.
  unfoldable pub generate_random_key : ℕ → M String
  generate_random_key length = do bytes ← read_bytes env length; pure (encode_hex bytes)

  unfoldable pub create_secret : Instance → String → String → M (Result Secret)
  create_secret i name key = do
    value ← generate_random_key 32
    on_error (env.set_controller_reference instance_kind i.metadata (named name i.namespace))
        (λ e. pure (err e))
        λ metadata.
          put env create secret_kind (record { metadata = metadata; contents = (key, value) ∷ [] })

  unfoldable pub create_if_missing : Instance → String → String → Result Secret → M (Result Secret)
  create_if_missing i name key (ok secret) = pure (ok secret)
  create_if_missing i name key (err e) =
      if is_not_found e then create_secret i name key else pure (err e)

  -- The secret of that name, made with a fresh value under the key where there is none.
  unfoldable pub ensure_secret : Instance → String → String → M (Result Secret)
  ensure_secret i name key = do
    found ← fetch env secret_kind (record { name = name; namespace = i.namespace })
    create_if_missing i name key found

  abbrev pub with_api_key_name : Instance → String → Instance
  with_api_key_name i name = record i {
    status = record i.status { static_api_key_secret_name = name };
  }

  unfoldable pub reconcile_api_key : Instance → M (Result Instance)
  reconcile_api_key i =
      on_nil i.spec.static_api_key_secret_ref
        (do
          ensured ← ensure_secret i (i.name <> "-api-key") "STATIC_API_KEY"
          on_error ensured (λ e. pure (err e))
              (λ s. pure (ok (with_api_key_name i (i.name <> "-api-key")))))
        (λ ref. pure (ok (with_api_key_name i ref.name)))

  unfoldable pub reconcile_encryption_key : Instance → M (Result (Unit {0}))
  reconcile_encryption_key i =
      on_nil i.spec.encryption_key_secret_ref
        (do
          ensured ← ensure_secret i (i.name <> "-encryption-key") "ENCRYPTION_KEY"
          on_error ensured (λ e. pure (err e)) (λ s. pure (ok tt)))
        (λ ref. pure (ok tt))

  -- The instance comes back with the name of its API key secret in the status.
  unfoldable pub reconcile_secrets : Instance → M (Result Instance)
  reconcile_secrets i = do
    encryption ← reconcile_encryption_key i
    on_error encryption (λ e. pure (err e)) (λ u. reconcile_api_key i)
