-- ===== src/Controller/Permission.antt =====
-- What a resource that may not reference its instance can cause: the opening that the reconcilers
-- share ends in a refusal, and nothing is sent to PocketID. The children follow this through
-- pocketiduser_controller.go, pocketidusergroup_controller.go and pocketidoidcclient_controller.go.
pub mod User
pub mod UserGroup
pub mod OidcClient
pub mod Granted
use Prim.Native.String.{◌++◌ as ◌<>◌}
use pocketid_operator.Base.{◌≡◌, refl, String, List, [], ◌∷◌, ◌∙◌, arith}
use pocketid_operator.Error.{Error, Result, ok, err, plain}
use pocketid_operator.Api.Meta.{CrossNamespaceObjectReference}
use pocketid_operator.Api.Instance.{Instance}
use pocketid_operator.PocketId.Request.{Request}
use pocketid_operator.World.{
  Env, History, Event, sent, wrote, got, instance_kind, fetch, on_error, pure, ◌>>=◌,
}
use pocketid_operator.World.Keeps.{IgnoresReads}
use pocketid_operator.World.Effects.{effects, effects_reads}
use pocketid_operator.Controller.Steps.{Keeps-access}
use pocketid_operator.Controller.References.{
  Verdict, allowed, denied, undecided, validate_cross_namespace_reference,
  resolve_instance_reference, instance_key,
}
use pocketid_operator.Controller.References.Rules.{MayReference, validate-MayReference_iff}
use pocketid_operator.Controller.Access.{Access, refused, granted, access, admit, make_client}

module _ (env : Env) (ref : CrossNamespaceObjectReference) (ns dev : String) (h : History) where
  -- The opening only reads.
  pub effects-access : effects (access env ref ns dev h).1 ≡ effects h
  effects-access = (Keeps-access env (effects_reads (effects h)) ref ns dev).at h refl

  abbrev pub Refusal : Type 0
  Refusal = (reason : String) × (e : Error) × ((access env ref ns dev h).0 ≡ refused reason e)

  Refusal_of-verdict :
      (i : Instance) (v : Verdict)
      → env.get instance_kind h (instance_key ref ns) ≡ ok i
      → (validate_cross_namespace_reference env i ns
          (got instance_kind (instance_key ref ns) ∷ h)).0
        ≡ v
      → (v ≡ allowed → ⊥)
      → Refusal
  unfolding access resolve_instance_reference fetch admit ◌>>=◌
  Refusal_of-verdict i allowed found e denies = absurd (denies refl)
  Refusal_of-verdict i (denied r) found e denies = (
    "CrossNamespaceDenied",
    plain ("cross-namespace reference denied: " <> r),
    rw (found, on_error, e, admit) refl,
  )
  Refusal_of-verdict i (undecided x) found e denies =
      ("CrossNamespaceValidationFailed", x, rw (found, on_error, e, admit) refl)

  pub access-refuses :
      (i : Instance)
      → env.get instance_kind h (instance_key ref ns) ≡ ok i
      → ¬ MayReference env (got instance_kind (instance_key ref ns) ∷ h) i ns
      → Refusal
  access-refuses i found denies =
      Refusal_of-verdict i _ found refl (λ e. denies ((validate-MayReference_iff env i ns _).0 e))
