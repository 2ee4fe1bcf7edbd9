-- ===== src/Controller/References/Expressions.antt =====
-- `ValidateCrossNamespaceReference` of internal/controller/reference_validation.go reads the match
-- labels of the selector of an instance, and not its match expressions.
use pocketid_operator.Base.{
  ◌≡◌, refl, String, Bool, true, false, ◌==◌, string_eq, Option, none, some, List,
}
use pocketid_operator.Api.Meta.{LabelSelector}
use pocketid_operator.Api.Instance.{
  Instance, NamespacesFrom, AllowedReferences, FromNamespaces, from_all, from_same, from_selector,
  from_other,
}
use pocketid_operator.World.{Env, History}
use pocketid_operator.Controller.References.{
  mode, match_selector, check_selector, check_mode, check_allowed,
  validate_cross_namespace_reference,
}

module _ (es : List String) where
  abbrev selector_with : Option LabelSelector → Option LabelSelector
  selector_with none = none
  selector_with (some s) = some (record s { match_expressions = es })

  abbrev namespaces_with : NamespacesFrom → NamespacesFrom
  namespaces_with n = record n { selector = selector_with n.selector }

  abbrev references_with : AllowedReferences → AllowedReferences
  references_with a = record a {
    namespaces = elim a.namespaces [ none ↦ none | some n ↦ some (namespaces_with n) ];
  }

  -- The instance with these match expressions in its selector, if it has one.
  abbrev pub with_expressions : Instance → Instance
  with_expressions i = record i {
    spec = record i.spec {
      allowed_references = elim i.spec.allowed_references [
        | none ↦ none
        | some a ↦ some (references_with a)
      ];
    };
  }

  module _ (env : Env) (i : Instance) (referrer : String) (h : History) where
    check_selector-selector_with :
        (s : Option LabelSelector)
        → check_selector env (with_expressions i) referrer (selector_with s) h
          ≡ check_selector env i referrer s h
    unfolding check_selector match_selector
    check_selector-selector_with none = refl
    check_selector-selector_with (some s) = refl

    check_mode-namespaces_with :
        (n : NamespacesFrom) (f : FromNamespaces)
        → check_mode env (with_expressions i) referrer (namespaces_with n) f h
          ≡ check_mode env i referrer n f h
    unfolding check_mode
    check_mode-namespaces_with n from_all = refl
    check_mode-namespaces_with n from_same = refl
    check_mode-namespaces_with n from_selector = check_selector-selector_with n.selector
    check_mode-namespaces_with n (from_other text) = refl

    check_namespaces-with :
        (a : AllowedReferences) (n : Option NamespacesFrom)
        → a.namespaces ≡ n
        → check_allowed env (with_expressions i) referrer (some (references_with a)) h
          ≡ check_allowed env i referrer (some a) h
    unfolding check_allowed
    check_namespaces-with a none e = rw e refl
    check_namespaces-with a (some n) e = rw e (check_mode-namespaces_with n (mode n))

    check_allowed-with :
        (a : Option AllowedReferences)
        → check_allowed env
            (with_expressions i)
            referrer
            (elim a [ none ↦ none | some a ↦ some (references_with a) ])
            h
          ≡ check_allowed env i referrer a h
    unfolding check_allowed
    check_allowed-with none = refl
    check_allowed-with (some a) = check_namespaces-with a a.namespaces refl

    validate_same :
        (same : Bool)
        → i.namespace == referrer ≡ same
        → validate_cross_namespace_reference env (with_expressions i) referrer h
          ≡ validate_cross_namespace_reference env i referrer h
    unfolding validate_cross_namespace_reference
    validate_same true e = rw e refl
    validate_same false e = rw e (check_allowed-with i.spec.allowed_references)

    pub validate-with_expressions :
        validate_cross_namespace_reference env (with_expressions i) referrer h
        ≡ validate_cross_namespace_reference env i referrer h
    validate-with_expressions = validate_same (i.namespace == referrer) refl
