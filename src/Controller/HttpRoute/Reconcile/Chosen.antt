-- ===== src/Controller/HttpRoute/Reconcile/Chosen.antt =====
-- The instance that httproute_controller.go takes for a route.
use pocketid_operator.Base.{
  ◌≡◌, refl, sym, ap, ◌∙◌, ◌↔◌, inl, inr, String, true, false, is_empty, none, some, List, [], ◌∷◌,
  Bool-cases,
}
use pocketid_operator.Base.Text.{split_once}
use pocketid_operator.Base.Text.Splits.{
  Joins, lacks, split_once-Joins, split_once-lacks, split_once-cases,
}
use pocketid_operator.Error.{Result, ok, err}
use pocketid_operator.Api.Meta.{CrossNamespaceObjectReference}
use pocketid_operator.Api.Core.{HttpRoute}
use pocketid_operator.Api.Instance.{Instance}
use pocketid_operator.World.{Env, History, instance_kind, fetch_all, on_error, ◌>>=◌}
use pocketid_operator.Controller.HttpRoute.Desired.{annotation, annotation_instance}
use pocketid_operator.Controller.HttpRoute.Reconcile.{
  chosen, no_choice, single_instance, parse_instance, choose_instance,
}

parse_instance_plain :
    (t : String)
    → split_once b'/' t ≡ none
    → parse_instance t ≡ record { name = t; namespace = none }
unfolding parse_instance
parse_instance_plain t e = rw (e, parse_instance) refl

parse_instance_qualified :
    (t namespace name : String)
    → split_once b'/' t ≡ some (namespace, name)
    → parse_instance t ≡ record { name = name; namespace = some namespace }
unfolding parse_instance
parse_instance_qualified t namespace name e = rw (e, parse_instance) refl

module _ (env : Env) (h : History) (route : HttpRoute) where
  abbrev pub text : String
  text = annotation route annotation_instance

  -- Where the route names an instance, the part before the first slash is the namespace, if there
  -- is a slash; where it names none, it gets the instance of its namespace that has no other.
  pub data Chosen : CrossNamespaceObjectReference → Type 0 where
    qualified :
        (namespace name : String)
        → is_empty text ≡ false
        → Joins b'/' namespace name text
        → lacks b'/' namespace ≡ true
        → Chosen (record { name = name; namespace = some namespace })
    by_name :
        is_empty text ≡ false
        → lacks b'/' text ≡ true
        → Chosen (record { name = text; namespace = none })
    single :
        (i : Instance)
        → is_empty text ≡ true
        → env.list instance_kind h route.namespace ≡ ok (i ∷ [])
        → Chosen (record { name = i.name; namespace = none })

  choice_of_list :
      (listed : Result (List Instance))
      → env.list instance_kind h route.namespace ≡ listed
      → is_empty text ≡ true
      → (choose_instance env route h).0
        ≡ elim listed [ err e ↦ no_choice e | ok is ↦ single_instance is ]
  unfolding choose_instance fetch_all ◌>>=◌
  choice_of_list (err e) p q = rw (q, p, on_error) refl
  choice_of_list (ok is) p q = rw (q, p, on_error) refl

  choice_of_text :
      is_empty text ≡ false → (choose_instance env route h).0 ≡ chosen (parse_instance text)
  unfolding choose_instance ◌>>=◌
  choice_of_text q = rw q refl

  Chosen-of_list :
      (listed : Result (List Instance)) (ref : CrossNamespaceObjectReference)
      → env.list instance_kind h route.namespace ≡ listed
      → is_empty text ≡ true
      → elim listed [ err e ↦ no_choice e | ok is ↦ single_instance is ] ≡ chosen ref
      → Chosen ref
  unfolding single_instance
  Chosen-of_list (err e) ref p q r = absurd (cc (r))
  Chosen-of_list (ok []) ref p q r = absurd (cc (r))
  Chosen-of_list (ok (i ∷ [])) ref p q r =
      let one : CrossNamespaceObjectReference = record { name = i.name; namespace = none } in
      let same : one ≡ ref = cc (r) in rw (sym same) (single i q p)
  Chosen-of_list (ok (i ∷ j ∷ is)) ref p q r = absurd (cc (r))

  Chosen-of_text : is_empty text ≡ false → Chosen (parse_instance text)
  Chosen-of_text q = elim (split_once-cases b'/' text) [
    | inl (nothing, l) ↦ rw (parse_instance_plain text nothing) (by_name q l)
    | inr (namespace, name, e, j, l) ↦
        rw (parse_instance_qualified text namespace name e) (qualified namespace name q j l)
  ]

  choice_of-Chosen :
      (ref : CrossNamespaceObjectReference)
      → Chosen ref
      → (choose_instance env route h).0 ≡ chosen ref
  unfolding single_instance
  choice_of-Chosen _ (qualified namespace name q j l) =
      choice_of_text q
      ∙ ap chosen (
          parse_instance_qualified text namespace name
            (split_once-Joins b'/' namespace name text j l))
  choice_of-Chosen _ (by_name q l) =
      choice_of_text q ∙ ap chosen (parse_instance_plain text (split_once-lacks b'/' text l))
  choice_of-Chosen _ (single i q p) = choice_of_list (ok (i ∷ [])) p q

  -- For a route the reference is chosen exactly if its annotation names it (the whole text is the
  -- name if it has no slash, else the part before the first slash is the namespace and the rest the
  -- name), or if it has no annotation or an empty one and it refers to the one instance that the
  -- list of the route's namespace has.
  pub choose_instance-chosen_iff :
      (ref : CrossNamespaceObjectReference)
      → ((choose_instance env route h).0 ≡ chosen ref) ↔ Chosen ref
  choose_instance-chosen_iff ref = (
    λ r. elim (Bool-cases (is_empty text)) [
      | inl empty ↦ Chosen-of_list _ ref refl empty (sym (choice_of_list _ refl empty) ∙ r)
      | inr written ↦
          let same : parse_instance text ≡ ref = cc (r, choice_of_text written) in
          rw (sym same) (Chosen-of_text written)
    ],
    choice_of-Chosen ref,
  )
