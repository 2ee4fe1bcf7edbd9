-- ===== src/Controller/Steps.antt =====
-- What the shared steps of the reconcilers leave alone: the opening of `Reconcile` only reads, a
-- request to PocketID is one send, and the conditions are built from the clock.
use pocketid_operator.Base.{String, ℕ, List, Option, none, some}
use pocketid_operator.Error.{Error}
use pocketid_operator.Api.Meta.{
  Condition, ConditionStatus, CrossNamespaceObjectReference, LabelSelector,
}
use pocketid_operator.Api.Instance.{
  Instance, AllowedReferences, NamespacesFrom, FromNamespaces, from_all, from_same, from_selector,
  from_other,
}
use pocketid_operator.PocketId.Request.{Client, Method, Body, Payload}
use pocketid_operator.PocketId.Client.{do_request}
use pocketid_operator.World.{instance_kind, Env, History}
use pocketid_operator.World.Keeps.{Keeps, IgnoresReads, IgnoresSends, keeps_rules, Keeps-fetch}
use pocketid_operator.Controller.Status.{set_condition, set_synced_condition, set_error_condition}
use pocketid_operator.Controller.References.{
  Verdict, allowed, denied, undecided, check_selector, check_mode, check_allowed,
  validate_cross_namespace_reference, resolve_instance_reference, instance_key,
}
use pocketid_operator.Controller.Access.{
  get_secret, create_api_client_with_dev_default, make_client, admit, access,
}

module _ (env : Env) {P : History → Type 0} (reads : IgnoresReads P) where
  pub Keeps-set_condition :
      (cs : List Condition) (g : ℕ) (t : String) (s : ConditionStatus) (r m : String)
      → Keeps P (set_condition env cs g t s r m)
  unfolding set_condition
  Keeps-set_condition cs g t s r m = search keeps_rules

  pub Keeps-set_synced_condition :
      (cs : List Condition) (g : ℕ) (m : String) → Keeps P (set_synced_condition env cs g m)
  unfolding set_synced_condition
  Keeps-set_synced_condition cs g m = Keeps-set_condition cs g _ _ _ m

  pub Keeps-set_error_condition :
      (cs : List Condition) (g : ℕ) (r : String) (e : Error)
      → Keeps P (set_error_condition env cs g r e)
  unfolding set_error_condition
  Keeps-set_error_condition cs g r e = Keeps-set_condition cs g _ _ r _

  Keeps-check_selector :
      (i : Instance) (ns : String) (s : Option LabelSelector) → Keeps P (check_selector env i ns s)
  unfolding check_selector
  Keeps-check_selector i ns none = search keeps_rules
  Keeps-check_selector i ns (some s) = search keeps_rules

  Keeps-check_mode :
      (i : Instance) (ns : String) (n : NamespacesFrom) (f : FromNamespaces)
      → Keeps P (check_mode env i ns n f)
  unfolding check_mode
  Keeps-check_mode i ns n from_selector = Keeps-check_selector i ns _
  Keeps-check_mode i ns n from_all = search keeps_rules
  Keeps-check_mode i ns n from_same = search keeps_rules
  Keeps-check_mode i ns n (from_other t) = search keeps_rules

  Keeps-check_allowed :
      (i : Instance) (ns : String) (a : Option AllowedReferences)
      → Keeps P (check_allowed env i ns a)
  unfolding check_allowed
  Keeps-check_allowed i ns none = search keeps_rules
  Keeps-check_allowed i ns (some a) = search (keeps_rules, Keeps-check_mode)

  pub Keeps-validate :
      (i : Instance) (ns : String) → Keeps P (validate_cross_namespace_reference env i ns)
  unfolding validate_cross_namespace_reference
  Keeps-validate i ns = search (keeps_rules, Keeps-check_allowed)

  pub Keeps-resolve :
      (ref : CrossNamespaceObjectReference) (ns : String)
      → Keeps P (resolve_instance_reference env ref ns)
  unfolding resolve_instance_reference
  Keeps-resolve ref ns = Keeps-fetch env reads instance_kind (instance_key ref ns)

  pub Keeps-create_api_client :
      (i : Instance) (dev : String) → Keeps P (create_api_client_with_dev_default env i dev)
  unfolding create_api_client_with_dev_default get_secret
  Keeps-create_api_client i dev = search keeps_rules depth 8

  Keeps-admit : (i : Instance) (dev : String) (v : Verdict) → Keeps P (admit env i dev v)
  unfolding admit make_client
  Keeps-admit i dev allowed = search (keeps_rules, Keeps-create_api_client)
  Keeps-admit i dev (denied reason) = search keeps_rules
  Keeps-admit i dev (undecided e) = search keeps_rules

  pub Keeps-access :
      (ref : CrossNamespaceObjectReference) (ns dev : String) → Keeps P (access env ref ns dev)
  unfolding access
  Keeps-access ref ns dev = search (keeps_rules, Keeps-resolve, Keeps-validate, Keeps-admit) depth 8

module _ (env : Env) {P : History → Type 0} (sends : IgnoresSends P) where
  pub Keeps-do_request :
      {A : Type 0} (c : Client) (m : Method) (path : String) (b : Body) (d : Payload → Option A)
      (z : A)
      → Keeps P (do_request env c m path b d z)
  unfolding do_request
  Keeps-do_request c m path b d z = search keeps_rules

pub ruleset step_rules = (
  keeps_rules, Keeps-set_synced_condition, Keeps-set_error_condition, Keeps-resolve, Keeps-access,
  Keeps-do_request,
)
