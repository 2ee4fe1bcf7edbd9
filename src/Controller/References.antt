-- ===== src/Controller/References.antt =====
-- internal/controller/reference_validation.go. Rules has who may reference an instance, as a
-- relation, and Expressions what is not looked at.
pub mod Expressions
pub mod Rules
use Prim.Native.String.{◌++◌ as ◌<>◌}
use pocketid_operator.Base.{
  String, Bool, true, false, Option, none, some, ◌==◌, string_eq, if◌then◌else◌,
}
use pocketid_operator.Error.{Error, wrap, Result, ok, err}
use pocketid_operator.Api.Meta.{Key, LabelSelector, CrossNamespaceObjectReference}
use pocketid_operator.Api.Core.{Namespace}
use pocketid_operator.Api.Instance.{
  Instance, NamespacesFrom, FromNamespaces, from_all, from_same, from_selector, from_other,
  AllowedReferences,
}
use pocketid_operator.World.{
  Env, M, pure, fetch, on_error, on_nil, instance_kind, namespace_kind, ◌>>=◌,
}

-- `(allowed, reason, error)`
pub data Verdict : Type 0 where
  allowed : Verdict
  denied : String → Verdict
  undecided : Error → Verdict

abbrev pub full_name : Instance → String
full_name i = i.namespace <> "/" <> i.name

-- `namespaces.From`, with its default.
abbrev pub mode : NamespacesFrom → FromNamespaces
mode namespaces = elim namespaces.from [ none ↦ from_same | some from ↦ from ]

abbrev pub instance_key : CrossNamespaceObjectReference → String → Key
instance_key ref default_namespace = record {
  name = ref.name;
  namespace = elim ref.namespace [ none ↦ default_namespace | some ns ↦ ns ];
}

module _ (env : Env) where
  unfoldable pub match_selector : Instance → String → LabelSelector → Namespace → Verdict
  match_selector i referrer selector ns =
      elim (env.parse_selector (env.selector_text selector.match_labels)) [
        | err e ↦ undecided (wrap "failed to parse selector: " e)
        | ok matches ↦
            if matches ns.metadata.labels
            then allowed
            else denied (
                "namespace " <> referrer <> " does not match selector for instance " <> full_name i)
      ]

  -- The case `NamespacesFromSelector`.
  unfoldable pub check_selector : Instance → String → Option LabelSelector → M Verdict
  check_selector i referrer none =
      pure (denied ("instance " <> full_name i <> " has Selector mode but no selector defined"))
  check_selector i referrer (some selector) = do
    found ← fetch env namespace_kind (record { name = referrer; namespace = "" })
    on_error found (λ e. pure (undecided (wrap ("failed to get namespace " <> referrer <> ": ") e)))
        (λ ns. pure (match_selector i referrer selector ns))

  unfoldable pub check_mode : Instance → String → NamespacesFrom → FromNamespaces → M Verdict
  check_mode i referrer namespaces from_all = pure allowed
  check_mode i referrer namespaces from_same =
      pure (denied ("instance " <> full_name i <> " only allows same-namespace references"))
  check_mode i referrer namespaces from_selector = check_selector i referrer namespaces.selector
  check_mode i referrer namespaces (from_other text) =
      pure (denied ("unknown namespace selection mode: " <> text))

  unfoldable pub check_allowed : Instance → String → Option AllowedReferences → M Verdict
  check_allowed i referrer none =
      pure (denied ("instance " <> full_name i <> " does not allow cross-namespace references"))
  check_allowed i referrer (some references) =
      on_nil references.namespaces
        (pure (denied ("instance " <> full_name i <> " does not allow cross-namespace references")))
        (λ namespaces. check_mode i referrer namespaces (mode namespaces))

  unfoldable pub validate_cross_namespace_reference : Instance → String → M Verdict
  validate_cross_namespace_reference i referrer =
      if i.namespace == referrer
      then pure allowed
      else check_allowed i referrer i.spec.allowed_references

  unfoldable pub resolve_instance_reference :
      CrossNamespaceObjectReference → String → M (Result Instance)
  resolve_instance_reference ref default_namespace =
      fetch env instance_kind (instance_key ref default_namespace)
