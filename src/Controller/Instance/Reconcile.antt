-- ===== src/Controller/Instance/Reconcile.antt =====
-- `Reconcile`, its remaining steps and the two ways in which it writes the status, of
-- pocketidinstance_controller.go
pub mod Progress
use Prim.Native.String.{◌++◌ as ◌<>◌}
use pocketid_operator.Base.{
  String, Bool, true, false, ◌&&◌, is_some, if◌then◌else◌, none, some, List,
}
use pocketid_operator.Base.Integer.{int_beq, is_positive, print_int}
use pocketid_operator.Error.{Error, is_not_found, error_text, Result, ok, err}
use pocketid_operator.Api.Meta.{Key, key_of, Condition, condition_true, condition_false}
use pocketid_operator.Api.Core.{ConfigMap, Service}
use pocketid_operator.Api.Workload.{StatefulSet}
use pocketid_operator.Api.Instance.{Instance}
use pocketid_operator.World.{
  Env, M, pure, on_error, fetch, put, clock, create, update, update_status, patch, instance_kind,
  config_map_kind, service_kind, stateful_set_kind, ◌>>=◌,
}
use pocketid_operator.Controller.Outcome.{Outcome, finished, failed, again_after, failed_after}
use pocketid_operator.Controller.Status.{set_condition}
use pocketid_operator.Controller.Access.{pocketid_internal_url}
use pocketid_operator.Controller.Instance.Workload.{
  config_map_name, service_name, desired_instance_config_map, desired_instance_service,
  desired_instance_stateful_set,
}
use pocketid_operator.Controller.Instance.Secrets.{reconcile_secrets}
use pocketid_operator.Controller.Instance.Initialize.{initialize_instance}

abbrev pub instance_finalizer : String
instance_finalizer = "pocketid.tobiash.github.io/finalizer"

-- `ctrl.Result{Requeue: true}, nil`
abbrev pub again : Outcome
again = record { requeue = true; requeue_after = 0; error = none }

abbrev pub beside : Instance → String → Key
beside i name = record { name = name; namespace = i.namespace }

module _ (env : Env) where
  unfoldable pub handle_deletion : Instance → M Outcome
  handle_deletion i =
      if env.contains_finalizer i.metadata instance_finalizer
      then (do
        written ←
            put env update instance_kind
              (record i { metadata = env.remove_finalizer i.metadata instance_finalizer })
        on_error written (λ e. pure (failed e)) (λ x. pure finished))
      else pure finished

  unfoldable pub write_config_map : ConfigMap → Result ConfigMap → M (Result ConfigMap)
  write_config_map desired (err e) =
      if is_not_found e then put env create config_map_kind desired else pure (err e)
  write_config_map desired (ok existing) =
      put env update config_map_kind (record existing { contents = desired.contents })

  unfoldable pub reconcile_config_map : Instance → M (Result ConfigMap)
  reconcile_config_map i =
      on_error (desired_instance_config_map env i) (λ e. pure (err e))
        λ desired. do
          found ← fetch env config_map_kind (beside i (config_map_name i))
          write_config_map desired found

  unfoldable pub write_service : Service → Result Service → M (Result Service)
  write_service desired (err e) =
      if is_not_found e then put env create service_kind desired else pure (err e)
  write_service desired (ok existing) =
      put env update service_kind
        (record existing { selector = desired.selector; ports = desired.ports })

  unfoldable pub reconcile_service : Instance → M (Result Service)
  reconcile_service i =
      on_error (desired_instance_service env i) (λ e. pure (err e))
        λ desired. do
          found ← fetch env service_kind (beside i (service_name i))
          write_service desired found

  -- The patch is written as the object that it leads to.
  unfoldable pub write_stateful_set : StatefulSet → Result StatefulSet → M (Result StatefulSet)
  write_stateful_set desired (err e) =
      if is_not_found e then put env create stateful_set_kind desired else pure (err e)
  write_stateful_set desired (ok existing) =
      put env patch stateful_set_kind
        (record existing { replicas = desired.replicas; template = desired.template })

  unfoldable pub reconcile_stateful_set : Instance → M (Result StatefulSet)
  reconcile_stateful_set i =
      on_error (desired_instance_stateful_set env i) (λ e. pure (err e))
        λ desired. do
          found ← fetch env stateful_set_kind (beside i i.name)
          write_stateful_set desired found

  abbrev pub all_ready : StatefulSet → Bool
  all_ready sts = int_beq sts.ready_replicas sts.replicas && is_positive sts.ready_replicas

  -- The condition "Available".
  unfoldable pub set_available : Instance → StatefulSet → M (List Condition)
  set_available latest sts =
      if all_ready sts
      then set_condition env latest.status.conditions latest.metadata.generation "Available"
          condition_true "AllReplicasReady" "All StatefulSet replicas are ready"
      else set_condition env latest.status.conditions latest.metadata.generation "Available"
          condition_false "ReplicasNotReady"
          ("Waiting for replicas: "
            <> print_int sts.ready_replicas
            <> "/"
            <> print_int sts.replicas
            <> " ready")

  -- `meta.SetStatusCondition(…, *initializedCond)`
  unfoldable pub keep_initialized : Instance → List Condition → M (List Condition)
  keep_initialized i conditions =
      elim (env.find_status_condition i.status.conditions "Initialized") [
        | none ↦ pure conditions
        | some c ↦ (do now ← clock env; pure (env.set_status_condition now conditions c))
      ]

  unfoldable pub write_ready : Instance → Instance → StatefulSet → M Outcome
  write_ready i latest sts = do
    available ← set_available latest sts
    configured ←
        set_condition env available latest.metadata.generation "Configured" condition_true
          "ConfigurationValid" "Instance configuration is valid"
    kept ← keep_initialized i configured
    written ← put env update_status instance_kind (record latest {
      status = record latest.status {
        conditions = env.remove_status_condition kept "Degraded";
        ready = all_ready sts;
        internal_url = pocketid_internal_url latest.name latest.namespace;
        static_api_key_secret_name = i.status.static_api_key_secret_name;
        observed_generation = latest.metadata.generation;
      };
    })
    on_error written (λ e. pure (failed e))
        (λ stored. pure (if stored.status.ready then finished else again_after 10))

  unfoldable pub update_status_of : Instance → M Outcome
  update_status_of i = do
    found ← fetch env instance_kind (key_of i.metadata)
    on_error found (λ e. pure (failed e))
        λ latest. do
          sts ← fetch env stateful_set_kind (beside latest latest.name)
          on_error sts (λ e. pure (again_after 10)) (write_ready i latest)

  unfoldable pub set_degraded_condition : Instance → String → Error → M Outcome
  set_degraded_condition i reason e = do
    conditions ←
        set_condition env i.status.conditions i.metadata.generation "Degraded" condition_true reason
          (error_text e)
    written ←
        put env update_status instance_kind
          (record i { status = record i.status { ready = false; conditions = conditions } })
    on_error written (λ x. pure (failed_after 30 x)) (λ stored. pure (failed_after 30 e))

  unfoldable pub reconcile_workload : Instance → M Outcome
  reconcile_workload i = do
    config_map ← reconcile_config_map i
    on_error config_map (set_degraded_condition i "ConfigMapReconcileFailed") λ c. do
      service ← reconcile_service i
      on_error service (set_degraded_condition i "ServiceReconcileFailed") λ s. do
        stateful_set ← reconcile_stateful_set i
        on_error stateful_set (set_degraded_condition i "StatefulSetReconcileFailed") λ t. do
          initialized ← initialize_instance env i
          on_error initialized (set_degraded_condition i "InitializationFailed") update_status_of

  unfoldable pub reconcile_resources : Instance → M Outcome
  reconcile_resources i = do
    secrets ← reconcile_secrets env i
    on_error secrets (set_degraded_condition i "SecretsReconcileFailed") reconcile_workload

  unfoldable pub add_finalizer : Instance → M Outcome
  add_finalizer i = do
    written ←
        put env update instance_kind
          (record i { metadata = env.add_finalizer i.metadata instance_finalizer })
    on_error written (λ e. pure (failed e)) (λ x. pure again)

  unfoldable pub reconcile_instance : Instance → M Outcome
  reconcile_instance i =
      if is_some i.metadata.deletion_timestamp
      then handle_deletion i
      else if env.contains_finalizer i.metadata instance_finalizer
      then reconcile_resources i
      else add_finalizer i

  unfoldable pub reconcile : Key → M Outcome
  reconcile key = do
    found ← fetch env instance_kind key
    on_error found (λ e. pure (if is_not_found e then finished else failed e)) reconcile_instance
