-- ===== src/Controller/References/Rules.antt =====
-- Who may reference an instance, as a relation, and that `ValidateCrossNamespaceReference` of
-- internal/controller/reference_validation.go decides it. This is what the code makes of a
-- selector, its match labels; the API's selector has match expressions also.
use pocketid_operator.Base.{
  ◌≡◌, refl, ◌↔◌, inl, inr, String, Bool, true, ◌==◌, string_eq, eq_iff, Option-cases, Option, none,
  some, List, Bool-cases, arith,
}
use pocketid_operator.Base.Dict.{Dict}
use pocketid_operator.Error.{ok, Result-cases}
use pocketid_operator.Api.Meta.{LabelSelector}
use pocketid_operator.Api.Core.{Namespace}
use pocketid_operator.Api.Instance.{
  Instance, AllowedReferences, NamespacesFrom, FromNamespaces, from_all, from_selector,
}
use pocketid_operator.World.{Env, History, fetch, namespace_kind, ◌>>=◌}
use pocketid_operator.Controller.References.Expressions.{
  with_expressions, validate-with_expressions,
}
use pocketid_operator.Controller.References.{
  allowed, match_selector, check_selector, check_mode, check_allowed,
  validate_cross_namespace_reference, mode,
}

-- The instance selects namespaces in the given way.
pub record Selects (i : Instance) (n : NamespacesFrom) (f : FromNamespaces) : Type 0 where
  pub references : AllowedReferences
  pub configured : i.spec.allowed_references ≡ some references
  pub selected : references.namespaces ≡ some n
  pub mode : n.from ≡ some f

-- The labels that the namespace has now meet the match labels of the selector.
pub record Meets (env : Env) (h : History) (referrer : String) (n : NamespacesFrom) : Type 0 where
  pub selector : LabelSelector
  pub given : n.selector ≡ some selector
  pub ns : Namespace
  pub found : env.get namespace_kind h (record { name = referrer; namespace = "" }) ≡ ok ns
  pub matches : Dict String → Bool
  pub parsed : env.parse_selector (env.selector_text selector.match_labels) ≡ ok matches
  pub met : matches ns.metadata.labels ≡ true

pub data MayReference (env : Env) (h : History) (i : Instance) (referrer : String) : Type 0 where
  same_namespace : i.namespace ≡ referrer → MayReference env h i referrer
  all_namespaces : (n : NamespacesFrom) → Selects i n from_all → MayReference env h i referrer
  selected_namespace :
      (n : NamespacesFrom)
      → Selects i n from_selector
      → Meets env h referrer n
      → MayReference env h i referrer

module _ (env : Env) (h : History) (i : Instance) (referrer : String) where
  Meets-of-check_selector :
      (n : NamespacesFrom) (s : Option LabelSelector)
      → n.selector ≡ s
      → (check_selector env i referrer s h).0 ≡ allowed
      → Meets env h referrer n
  unfolding check_selector match_selector fetch ◌>>=◌
  Meets-of-check_selector n none e p = absurd (cc)
  Meets-of-check_selector n (some s) e p =
      elim (Result-cases (env.get namespace_kind h (record { name = referrer; namespace = "" }))) [
        | inl (_, missing) ↦ absurd (ground arith)
        | inr (ns, found) ↦
            elim (Result-cases (env.parse_selector (env.selector_text s.match_labels))) [
              | inl (_, unparsed) ↦ absurd (ground arith)
              | inr (matches, parsed) ↦ record {
                selector = s;
                given = e;
                ns = ns;
                found = found;
                matches = matches;
                parsed = parsed;
                met = ground arith;
              }
            ]
      ]

  check_selector_of-Meets :
      (n : NamespacesFrom)
      → Meets env h referrer n
      → (check_selector env i referrer n.selector h).0 ≡ allowed
  unfolding check_selector match_selector fetch ◌>>=◌
  check_selector_of-Meets n m = ground (arith, m.given, m.found, m.parsed, m.met)

  MayReference-of-check_mode :
      (a : AllowedReferences) (n : NamespacesFrom) (f : Option FromNamespaces)
      → i.spec.allowed_references ≡ some a
      → a.namespaces ≡ some n
      → n.from ≡ f
      → (check_mode env i referrer n (mode n) h).0 ≡ allowed
      → MayReference env h i referrer
  unfolding check_mode
  MayReference-of-check_mode a n (some from_all) ea en ef p =
      all_namespaces n (record { references = a; configured = ea; selected = en; mode = ef })
  MayReference-of-check_mode a n (some from_selector) ea en ef p =
      selected_namespace n (record { references = a; configured = ea; selected = en; mode = ef })
        (Meets-of-check_selector n n.selector refl (ground arith))
  MayReference-of-check_mode a n _ ea en ef p = absurd (ground arith)

  MayReference-of-check_allowed :
      (a : Option AllowedReferences)
      → i.spec.allowed_references ≡ a
      → (check_allowed env i referrer a h).0 ≡ allowed
      → MayReference env h i referrer
  unfolding check_allowed
  MayReference-of-check_allowed none e p = absurd (cc)
  MayReference-of-check_allowed (some a) e p = elim (Option-cases a.namespaces) [
    | inl closed ↦ absurd (ground arith)
    | inr (n, en) ↦ MayReference-of-check_mode a n n.from e en refl (ground arith)
  ]

  MayReference-of-validate :
      (validate_cross_namespace_reference env i referrer h).0 ≡ allowed
      → MayReference env h i referrer
  unfolding validate_cross_namespace_reference
  MayReference-of-validate p = elim (Bool-cases (i.namespace == referrer)) [
    | inl same ↦ same_namespace ((eq_iff i.namespace referrer).0 same)
    | inr other ↦ MayReference-of-check_allowed i.spec.allowed_references refl (ground arith)
  ]

  validate_of-MayReference :
      MayReference env h i referrer
      → (validate_cross_namespace_reference env i referrer h).0 ≡ allowed
  unfolding validate_cross_namespace_reference check_allowed check_mode
  validate_of-MayReference (same_namespace e) = rw ((eq_iff i.namespace referrer).1 e)
  validate_of-MayReference (all_namespaces n s) = ground (arith, s.configured, s.selected, s.mode)
  validate_of-MayReference (selected_namespace n s m) =
      ground (arith, s.configured, s.selected, s.mode, check_selector_of-Meets n m)

pub validate-MayReference_iff :
    (env : Env) (i : Instance) (referrer : String) (h : History)
    → ((validate_cross_namespace_reference env i referrer h).0 ≡ allowed)
      ↔ MayReference env h i referrer
validate-MayReference_iff env i referrer h =
    (MayReference-of-validate env h i referrer, validate_of-MayReference env h i referrer)

-- `ValidateCrossNamespaceReference` allows a reference exactly in three cases: it comes from the
-- namespace of the instance; the instance is open to all namespaces; or the instance selects
-- namespaces, and the namespace can be read and has labels that the match labels of the selector,
-- parsed, match. The match expressions of the selector, which the API has also, play no part: with
-- any others in their place the verdict and the reads are the same. So a selector with match
-- expressions alone counts as the empty one.
pub validate-allowed_iff :
    (env : Env) (i : Instance) (referrer : String) (h : History) (es : List String)
    → (((validate_cross_namespace_reference env i referrer h).0 ≡ allowed)
        ↔ MayReference env h i referrer)
      × (validate_cross_namespace_reference env (with_expressions es i) referrer h
          ≡ validate_cross_namespace_reference env i referrer h)
validate-allowed_iff env i referrer h es =
    (validate-MayReference_iff env i referrer h, validate-with_expressions es env i referrer h)
