-- ===== src/Controller/Cost/Instance.antt =====
-- pocketidinstance_controller.go: how many requests and writes a run makes at most.
use pocketid_operator.Base.{String, string_eq, List, Option-cases, inl, inr}
use pocketid_operator.Error.{Error, Result, ok, err}
use pocketid_operator.Api.Meta.{Key, Condition}
use pocketid_operator.Api.Core.{Secret, ConfigMap, Service}
use pocketid_operator.Api.Workload.{StatefulSet}
use pocketid_operator.Api.Instance.{Instance}
use pocketid_operator.World.{on_error, Env, ◌>>=◌}
use pocketid_operator.Controller.Instance.Reconcile.{
  handle_deletion, write_config_map, reconcile_config_map, write_service, reconcile_service,
  write_stateful_set, reconcile_stateful_set, set_available, keep_initialized, write_ready,
  update_status_of, set_degraded_condition, reconcile_workload, reconcile_resources, add_finalizer,
  reconcile_instance, reconcile,
}
use pocketid_operator.World.{
  create, update, patch, secret_kind, config_map_kind, service_kind, stateful_set_kind,
}
use pocketid_operator.PocketId.Client.{create_user_without_result, list_users}
use pocketid_operator.Controller.Instance.Secrets.{
  generate_random_key, create_secret, create_if_missing, ensure_secret, reconcile_api_key,
  reconcile_encryption_key, reconcile_secrets,
}
use pocketid_operator.Controller.Instance.Initialize.{
  mark_initialized, create_admin, create_first_user, initialize_with, initialize_instance,
}
use pocketid_operator.Base.{ℕ, suc}
use pocketid_operator.World.Costs.{Spends, Spends-put, Spends-bind, cost_rules}
use pocketid_operator.Controller.Cost.Steps.{
  step_costs, Spends-set_condition, Spends-create_api_client,
}

module _ (env : Env) {a b : ℕ} where
  Spends-set_degraded_condition :
      (i : Instance) (r : String) (e : Error) → Spends a (suc b) (set_degraded_condition env i r e)
  unfolding set_degraded_condition
  Spends-set_degraded_condition i r e = search (cost_rules, Spends-set_condition) depth 8

module _ (env : Env) where
  Spends-write_config_map :
      (d : ConfigMap) (r : Result ConfigMap) → Spends 0 1 (write_config_map env d r)
  unfolding write_config_map
  Spends-write_config_map d (ok x) = Spends-put env update config_map_kind _
  Spends-write_config_map d (err e) = search (cost_rules, Spends-put env create config_map_kind)

  Spends-write_service : (d : Service) (r : Result Service) → Spends 0 1 (write_service env d r)
  unfolding write_service
  Spends-write_service d (ok x) = Spends-put env update service_kind _
  Spends-write_service d (err e) = search (cost_rules, Spends-put env create service_kind)

  Spends-write_stateful_set :
      (d : StatefulSet) (r : Result StatefulSet) → Spends 0 1 (write_stateful_set env d r)
  unfolding write_stateful_set
  Spends-write_stateful_set d (ok x) = Spends-put env patch stateful_set_kind _
  Spends-write_stateful_set d (err e) = search (cost_rules, Spends-put env create stateful_set_kind)

  Spends-config_map : (i : Instance) → Spends 0 1 (reconcile_config_map env i)
  unfolding reconcile_config_map
  Spends-config_map i = search (cost_rules, Spends-write_config_map) depth 8

  Spends-service : (i : Instance) → Spends 0 1 (reconcile_service env i)
  unfolding reconcile_service
  Spends-service i = search (cost_rules, Spends-write_service) depth 8

  Spends-stateful_set : (i : Instance) → Spends 0 1 (reconcile_stateful_set env i)
  unfolding reconcile_stateful_set
  Spends-stateful_set i = search (cost_rules, Spends-write_stateful_set) depth 8

  Spends-keep_initialized :
      (i : Instance) (cs : List Condition) → Spends 0 0 (keep_initialized env i cs)
  unfolding keep_initialized
  Spends-keep_initialized i cs =
      elim (Option-cases (env.find_status_condition i.status.conditions "Initialized")) [
        | inl absent ↦ rw (absent, keep_initialized) (search cost_rules)
        | inr (c, present) ↦ rw (present, keep_initialized) (search cost_rules)
      ]

  Spends-update_status : (i : Instance) → Spends 0 1 (update_status_of env i)
  unfolding update_status_of write_ready set_available
  Spends-update_status i =
      search (cost_rules, Spends-set_condition, Spends-keep_initialized) depth 14

  Spends-initialize : (i : Instance) → Spends 2 0 (initialize_instance env i)
  unfolding initialize_instance initialize_with create_first_user create_admin mark_initialized
      create_user_without_result list_users
  Spends-initialize i = search (step_costs, Spends-set_condition, Spends-create_api_client) depth 16

  Spends-create_if_missing :
      (i : Instance) (name key : String) (found : Result Secret)
      → Spends 0 1 (create_if_missing env i name key found)
  unfolding create_if_missing create_secret generate_random_key
  Spends-create_if_missing i name key (ok s) = search cost_rules
  Spends-create_if_missing i name key (err e) =
      search (cost_rules, Spends-put env create secret_kind) depth 8

  Spends-ensure_secret :
      (i : Instance) (name key : String) → Spends 0 1 (ensure_secret env i name key)
  unfolding ensure_secret
  Spends-ensure_secret i name key = search (cost_rules, Spends-create_if_missing)

  Spends-api_key : (i : Instance) → Spends 0 1 (reconcile_api_key env i)
  unfolding reconcile_api_key
  Spends-api_key i = search (cost_rules, Spends-ensure_secret) depth 8

  Spends-encryption_key : (i : Instance) → Spends 0 1 (reconcile_encryption_key env i)
  unfolding reconcile_encryption_key
  Spends-encryption_key i = search (cost_rules, Spends-ensure_secret) depth 8

  Spends-secrets : (i : Instance) → Spends 0 2 (reconcile_secrets env i)
  unfolding reconcile_secrets
  Spends-secrets i = search (cost_rules, Spends-encryption_key, Spends-api_key) depth 8

  Spends-initialize_and_update :
      (i : Instance)
      → Spends 2 1 (
          initialize_instance env i >>= λ r.
          on_error r (set_degraded_condition env i "InitializationFailed") (update_status_of env))
  Spends-initialize_and_update i =
      Spends-bind (initialize_instance env i) _ 2 0 0 1 (Spends-initialize i)
        (λ r. search (cost_rules, Spends-set_degraded_condition, Spends-update_status) depth 8)

  Spends-workload : (i : Instance) → Spends 2 4 (reconcile_workload env i)
  unfolding reconcile_workload
  Spends-workload i =
      search
        (
          cost_rules, Spends-config_map, Spends-service, Spends-stateful_set,
          Spends-set_degraded_condition, Spends-initialize_and_update,
        )
        depth 14

  Spends-resources : (i : Instance) → Spends 2 6 (reconcile_resources env i)
  unfolding reconcile_resources
  Spends-resources i =
      Spends-bind (reconcile_secrets env i) _ 0 2 2 4 (Spends-secrets i)
        (λ r. search (cost_rules, Spends-set_degraded_condition, Spends-workload) depth 8)

  -- The accounts are listed and the first is made; two secrets, the config map, the service, the
  -- stateful set and the status are written.
  pub Spends-reconcile : (key : Key) → Spends 2 6 (reconcile env key)
  unfolding reconcile reconcile_instance handle_deletion add_finalizer
  Spends-reconcile key = search (cost_rules, Spends-resources) depth 12
