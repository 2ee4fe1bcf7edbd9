-- ===== src/Controller/Footprint/Instance.antt =====
-- pocketidinstance_controller.go: what a run writes, as the invariants that it keeps.
use pocketid_operator.Base.{String, string_eq, List, Option-cases, inl, inr}
use pocketid_operator.Error.{Error, Result, ok, err}
use pocketid_operator.Api.Meta.{Key, Condition}
use pocketid_operator.Api.Core.{Secret, ConfigMap, Service}
use pocketid_operator.Api.Workload.{StatefulSet}
use pocketid_operator.Api.Instance.{Instance}
use pocketid_operator.World.{Env, History, clock, ◌>>=◌}
use pocketid_operator.World.Keeps.{Keeps, keeps_rules}
use pocketid_operator.Controller.Steps.{Keeps-set_condition}
use pocketid_operator.Controller.Instance.Reconcile.{
  handle_deletion, write_config_map, reconcile_config_map, write_service, reconcile_service,
  write_stateful_set, reconcile_stateful_set, set_available, keep_initialized, write_ready,
  update_status_of, set_degraded_condition, reconcile_workload, reconcile_resources, add_finalizer,
  reconcile_instance, reconcile,
}
use pocketid_operator.World.Keeps.{IgnoresReads, IgnoresSends, IgnoresWrites, Keeps-put}
use pocketid_operator.World.{
  create, update, update_status, patch, instance_kind, secret_kind, config_map_kind, service_kind,
  stateful_set_kind,
}
use pocketid_operator.Controller.Steps.{step_rules, Keeps-create_api_client}
use pocketid_operator.PocketId.Client.{create_user_without_result, list_users}
use pocketid_operator.Controller.Instance.Secrets.{
  generate_random_key, create_secret, create_if_missing, ensure_secret, reconcile_api_key,
  reconcile_encryption_key, reconcile_secrets,
}
use pocketid_operator.Controller.Instance.Initialize.{
  mark_initialized, create_admin, create_first_user, initialize_with, initialize_instance,
}

module _ (env : Env) {P : History → Type 0} (reads : IgnoresReads P)
    (status : IgnoresWrites P update_status instance_kind)
    (creates_config : IgnoresWrites P create config_map_kind)
    (updates_config : IgnoresWrites P update config_map_kind)
    (creates_service : IgnoresWrites P create service_kind)
    (updates_service : IgnoresWrites P update service_kind)
    (creates_workload : IgnoresWrites P create stateful_set_kind)
    (patches_workload : IgnoresWrites P patch stateful_set_kind) where
  Keeps-write_config_map :
      (d : ConfigMap) (r : Result ConfigMap) → Keeps (P) (write_config_map env d r)
  unfolding write_config_map
  Keeps-write_config_map d (ok x) = Keeps-put env update config_map_kind updates_config _
  Keeps-write_config_map d (err e) =
      search (keeps_rules, Keeps-put env create config_map_kind creates_config)

  Keeps-write_service : (d : Service) (r : Result Service) → Keeps (P) (write_service env d r)
  unfolding write_service
  Keeps-write_service d (ok x) = Keeps-put env update service_kind updates_service _
  Keeps-write_service d (err e) =
      search (keeps_rules, Keeps-put env create service_kind creates_service)

  Keeps-write_stateful_set :
      (d : StatefulSet) (r : Result StatefulSet) → Keeps (P) (write_stateful_set env d r)
  unfolding write_stateful_set
  Keeps-write_stateful_set d (ok x) = Keeps-put env patch stateful_set_kind patches_workload _
  Keeps-write_stateful_set d (err e) =
      search (keeps_rules, Keeps-put env create stateful_set_kind creates_workload)

  Keeps-set_degraded_condition :
      (i : Instance) (r : String) (e : Error) → Keeps (P) (set_degraded_condition env i r e)
  unfolding set_degraded_condition
  Keeps-set_degraded_condition i r e = search (keeps_rules, Keeps-set_condition) depth 8

  Keeps-keep_initialized :
      (i : Instance) (cs : List Condition) → Keeps (P) (keep_initialized env i cs)
  unfolding keep_initialized clock ◌>>=◌
  Keeps-keep_initialized i cs = record {
    at = λ h p. elim (Option-cases (env.find_status_condition i.status.conditions "Initialized")) [
      | inl absent ↦ rw (keep_initialized, absent) p
      | inr (c, present) ↦ rw (keep_initialized, present) (reads.at_read_clock h p)
    ];
  }

  Keeps-update_status : (i : Instance) → Keeps (P) (update_status_of env i)
  unfolding update_status_of write_ready set_available
  Keeps-update_status i = search (keeps_rules, Keeps-set_condition, Keeps-keep_initialized) depth 14

  module _ (inits : (i : Instance) → Keeps P (initialize_instance env i)) where
    Keeps-workload : (i : Instance) → Keeps P (reconcile_workload env i)
    unfolding reconcile_workload reconcile_config_map reconcile_service reconcile_stateful_set
    Keeps-workload i =
        search
          (
            keeps_rules, Keeps-write_config_map, Keeps-write_service, Keeps-write_stateful_set,
            Keeps-set_degraded_condition, Keeps-update_status,
          )
          depth 14

    -- A run keeps what its parts, its reads and the writes that it makes keep.
    pub Keeps-reconcile :
        ((i : Instance) → Keeps P (reconcile_secrets env i))
        → IgnoresWrites P update instance_kind
        → (key : Key) → Keeps P (reconcile env key)
    unfolding reconcile reconcile_instance reconcile_resources handle_deletion add_finalizer
    Keeps-reconcile secrets writes key =
        search (keeps_rules, Keeps-workload, Keeps-set_degraded_condition) depth 12

module _ (env : Env) {P : History → Type 0} (reads : IgnoresReads P) where
  Keeps-create_if_missing :
      IgnoresWrites P create secret_kind
      → (i : Instance) (name key : String) (found : Result Secret)
      → Keeps P (create_if_missing env i name key found)
  unfolding create_if_missing create_secret generate_random_key
  Keeps-create_if_missing creates i name key (ok s) = search keeps_rules
  Keeps-create_if_missing creates i name key (err e) =
      search (keeps_rules, Keeps-put env create secret_kind creates) depth 8

  pub Keeps-secrets :
      IgnoresWrites P create secret_kind → (i : Instance) → Keeps P (reconcile_secrets env i)
  unfolding reconcile_secrets reconcile_api_key reconcile_encryption_key ensure_secret
  Keeps-secrets creates i = search (keeps_rules, Keeps-create_if_missing) depth 10

  pub Keeps-initialize : IgnoresSends P → (i : Instance) → Keeps P (initialize_instance env i)
  unfolding initialize_instance initialize_with create_first_user create_admin mark_initialized
      create_user_without_result list_users
  Keeps-initialize sends i =
      search (step_rules, Keeps-set_condition, Keeps-create_api_client) depth 16
