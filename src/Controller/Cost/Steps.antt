-- ===== src/Controller/Cost/Steps.antt =====
-- How many requests and writes the shared steps of the reconcilers make at most.
use pocketid_operator.Base.{ℕ, String, List, Option, none, some}
use pocketid_operator.Error.{Error}
use pocketid_operator.Api.Meta.{
  Condition, ConditionStatus, CrossNamespaceObjectReference, LabelSelector,
}
use pocketid_operator.Api.Instance.{
  Instance, AllowedReferences, NamespacesFrom, FromNamespaces, from_all, from_same, from_selector,
  from_other,
}
use pocketid_operator.PocketId.Request.{Client, Method, Body, Payload}
use pocketid_operator.PocketId.Client.{do_request}
use pocketid_operator.World.{Env, instance_kind}
use pocketid_operator.World.Costs.{Spends, Spends-fetch, cost_rules}
use pocketid_operator.Controller.Status.{set_condition, set_synced_condition, set_error_condition}
use pocketid_operator.Controller.References.{
  Verdict, allowed, denied, undecided, check_selector, check_mode, check_allowed,
  validate_cross_namespace_reference, resolve_instance_reference, instance_key,
}
use pocketid_operator.Controller.Access.{
  get_secret, create_api_client_with_dev_default, make_client, admit, access,
}

module _ (env : Env) where
  pub Spends-set_condition :
      (cs : List Condition) (g : ℕ) (t : String) (s : ConditionStatus) (r m : String)
      → Spends 0 0 (set_condition env cs g t s r m)
  unfolding set_condition
  Spends-set_condition cs g t s r m = search cost_rules

  pub Spends-set_synced_condition :
      (cs : List Condition) (g : ℕ) (m : String) → Spends 0 0 (set_synced_condition env cs g m)
  unfolding set_synced_condition
  Spends-set_synced_condition cs g m = Spends-set_condition cs g _ _ _ m

  pub Spends-set_error_condition :
      (cs : List Condition) (g : ℕ) (r : String) (e : Error)
      → Spends 0 0 (set_error_condition env cs g r e)
  unfolding set_error_condition
  Spends-set_error_condition cs g r e = Spends-set_condition cs g _ _ r _

  Spends-check_selector :
      (i : Instance) (ns : String) (s : Option LabelSelector)
      → Spends 0 0 (check_selector env i ns s)
  unfolding check_selector
  Spends-check_selector i ns none = search cost_rules
  Spends-check_selector i ns (some s) = search cost_rules

  Spends-check_mode :
      (i : Instance) (ns : String) (n : NamespacesFrom) (f : FromNamespaces)
      → Spends 0 0 (check_mode env i ns n f)
  unfolding check_mode
  Spends-check_mode i ns n from_selector = Spends-check_selector i ns _
  Spends-check_mode i ns n from_all = search cost_rules
  Spends-check_mode i ns n from_same = search cost_rules
  Spends-check_mode i ns n (from_other t) = search cost_rules

  Spends-check_allowed :
      (i : Instance) (ns : String) (a : Option AllowedReferences)
      → Spends 0 0 (check_allowed env i ns a)
  unfolding check_allowed
  Spends-check_allowed i ns none = search cost_rules
  Spends-check_allowed i ns (some a) = search (cost_rules, Spends-check_mode)

  pub Spends-validate :
      (i : Instance) (ns : String) → Spends 0 0 (validate_cross_namespace_reference env i ns)
  unfolding validate_cross_namespace_reference
  Spends-validate i ns = search (cost_rules, Spends-check_allowed)

  pub Spends-resolve :
      (ref : CrossNamespaceObjectReference) (ns : String)
      → Spends 0 0 (resolve_instance_reference env ref ns)
  unfolding resolve_instance_reference
  Spends-resolve ref ns = Spends-fetch env instance_kind (instance_key ref ns)

  pub Spends-create_api_client :
      (i : Instance) (dev : String) → Spends 0 0 (create_api_client_with_dev_default env i dev)
  unfolding create_api_client_with_dev_default get_secret
  Spends-create_api_client i dev = search cost_rules depth 8

  Spends-admit : (i : Instance) (dev : String) (v : Verdict) → Spends 0 0 (admit env i dev v)
  unfolding admit make_client
  Spends-admit i dev allowed = search (cost_rules, Spends-create_api_client)
  Spends-admit i dev (denied reason) = search cost_rules
  Spends-admit i dev (undecided e) = search cost_rules

  pub Spends-access :
      (ref : CrossNamespaceObjectReference) (ns dev : String) → Spends 0 0 (access env ref ns dev)
  unfolding access
  Spends-access ref ns dev =
      search (cost_rules, Spends-resolve, Spends-validate, Spends-admit) depth 8

  pub Spends-do_request :
      {A : Type 0} (c : Client) (m : Method) (path : String) (b : Body) (d : Payload → Option A)
      (z : A)
      → Spends 1 0 (do_request env c m path b d z)
  unfolding do_request
  Spends-do_request c m path b d z = search cost_rules

pub ruleset step_costs = (
  cost_rules, Spends-set_synced_condition, Spends-set_error_condition, Spends-access,
  Spends-do_request,
)
