-- ===== src/Controller/User/Onboarding.antt =====
-- internal/controller/onboarding.go
pub mod Link
use Prim.Native.String.{◌++◌ as ◌<>◌}
use pocketid_operator.Base.{
  String, Bool, true, false, not, ◌&&◌, ◌||◌, is_empty, if◌then◌else◌, Option, none, some, [], ◌∷◌,
}
use pocketid_operator.Error.{Error, Result, ok, err}
use pocketid_operator.Api.Meta.{Time, named}
use pocketid_operator.Api.Core.{Secret}
use pocketid_operator.Api.User.{User}
use pocketid_operator.Api.Instance.{Instance}
use pocketid_operator.PocketId.Types.{User as Account}
use pocketid_operator.PocketId.Request.{Client}
use pocketid_operator.PocketId.Client.{create_one_time_access_token}
use pocketid_operator.World.{
  Env, M, pure, on_error, fetch, put, clock, create, update, user_kind, secret_kind, ◌>>=◌,
}

-- `onboardingResult`
pub record OnboardingResult : Type 0 where
  pub link_created : Bool
  pub email_sent : Bool
  pub email_sent_at : Option Time

-- The result that the function starts from, and returns on each failure.
abbrev pub before_onboarding : User → OnboardingResult
before_onboarding user = record {
  link_created = user.status.onboarding_link_created;
  email_sent = user.status.onboarding_email_sent;
  email_sent_at = user.status.onboarding_email_sent_at;
}

unfoldable pub resolve_onboarding_secret_name : User → String
resolve_onboarding_secret_name user = elim user.spec.one_time_access_secret_ref [
  | none ↦ user.name <> "-onboarding"
  | some ref ↦ ref.name
]

module _ (env : Env) where
  unfoldable pub write_link_secret : Secret → Result Secret → M (Result Secret)
  write_link_secret secret (err e) = put env create secret_kind secret
  write_link_secret secret (ok existing) =
      put env update secret_kind (record existing { contents = secret.contents })

  unfoldable pub store_one_time_access_link : User → String → String → M (Result Secret)
  store_one_time_access_link user secret_name link =
      on_error
        (env.set_controller_reference user_kind user.metadata (named secret_name user.namespace))
        (λ e. pure (err e))
        λ metadata. do
          existing ←
              fetch env secret_kind (record { name = secret_name; namespace = user.namespace })
          write_link_secret
              (record { metadata = metadata; contents = ("ONE_TIME_ACCESS_LINK", link) ∷ [] })
              existing

  -- What follows the stored link: `SendOnboardingEmail` is recorded as done.
  unfoldable pub mark_email : User → M OnboardingResult
  mark_email user =
      let result = record (before_onboarding user) { link_created = true } in
      if user.spec.send_onboarding_email && not result.email_sent
      then (do
        now ← clock env
        pure (record result { email_sent = true; email_sent_at = some now }))
      else pure result

  unfoldable pub create_link : Client → User → Account → Instance → String → M OnboardingResult
  create_link c user account i secret_name = do
    response ← create_one_time_access_token env c account.id
    on_error response (λ e. pure (before_onboarding user))
        λ r. do
          stored ←
              store_one_time_access_link user secret_name (i.spec.app_url <> "/login/" <> r.token)
          on_error stored (λ e. pure (before_onboarding user)) λ s. mark_email user

  unfoldable pub reconcile_onboarding : Client → User → Account → Instance → M OnboardingResult
  reconcile_onboarding c user account i =
      if is_empty (resolve_onboarding_secret_name user) || user.status.onboarding_link_created
      then pure (before_onboarding user)
      else create_link c user account i (resolve_onboarding_secret_name user)
