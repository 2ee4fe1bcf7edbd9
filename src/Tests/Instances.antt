-- ===== src/Tests/Instances.antt =====
-- The theorems on instances.
use pocketid_operator.Base.{arith, ◌≡◌, refl, none, [], ◌∷◌}
use pocketid_operator.Base.Integer.{pos}
use pocketid_operator.Error.{Result, ok}
use pocketid_operator.Api.Meta.{Key, named}
use pocketid_operator.Api.Core.{ConfigMap, Service}
use pocketid_operator.Api.Workload.{StatefulSet}
use pocketid_operator.PocketId.Request.{answered, users_payload}
use pocketid_operator.World.{
  Env, History, Kind, Carrier, instance_kind, stateful_set_kind, put, fetch, ◌>>=◌,
}
use pocketid_operator.Controller.Instance.Reconcile.{
  instance_finalizer, reconcile_config_map, write_config_map, reconcile_service, write_service,
  reconcile_stateful_set, write_stateful_set, reconcile,
}
use pocketid_operator.Controller.Instance.Reconcile.Progress.{
  StoresStatus, Concludes, IsLive, Succeeds, reconcile-instance_serves,
}
use pocketid_operator.Controller.Instance.Secrets.Hex.{
  AreBytes, decode_hex, decode_hex-generate_random_key,
}
use pocketid_operator.Controller.Instance.Secrets.{
  generate_random_key, with_api_key_name, reconcile_secrets, reconcile_encryption_key,
  reconcile_api_key, ensure_secret, create_if_missing,
}
use pocketid_operator.Controller.Instance.Initialize.{initialize_instance}
use pocketid_operator.Api.Instance.{Instance}
use pocketid_operator.Controller.Instance.Workload.{
  desired_instance_config_map, desired_instance_service, desired_instance_stateful_set, config_of,
  instance_labels, pod_template, pod_container, parse_storage_quantity, owned,
}
use pocketid_operator.Controller.Instance.Workload.Consistent.{Consistent, desired-Consistent}
use pocketid_operator.Controller.Instance.Bootstrap.{KeepsNames, IsCareful, careful}
use pocketid_operator.Controller.Instance.Bootstrap.Run.{reconcile-instance-IsCareful}
use pocketid_operator.Tests.Sample.{
  sample_get, machinery, instance, user, group, oidc_client, environment,
}

abbrev env : Env
env = environment user group oidc_client (answered 200 "" (users_payload []))

abbrev key : Key
key = record { name = "main"; namespace = "auth" }

machinery-KeepsNames : KeepsNames machinery
machinery-KeepsNames = record {
  name-owned = λ k owner m m' p. cc (p);
  namespace-owned = λ k owner m m' p. cc (p);
}

empty-IsCareful : IsCareful env []
unfolding careful
empty-IsCareful = refl

reconcile-instance-IsCareful_example : IsCareful env (reconcile env key []).1
reconcile-instance-IsCareful_example =
    reconcile-instance-IsCareful env machinery-KeepsNames key [] empty-IsCareful

abbrev config_map : ConfigMap
config_map = record { metadata = named "main-config" "auth"; contents = config_of instance.spec }

abbrev service : Service
service = record {
  metadata = named "main-svc" "auth";
  selector = instance_labels instance;
  ports = record { name = "http"; port = 80; target_port = 1411; protocol = "TCP" } ∷ [];
}

abbrev stateful_set : StatefulSet
stateful_set = record {
  metadata = named "main" "auth";
  replicas = pos 1;
  service_name = "main-svc";
  match_labels = instance_labels instance;
  template = pod_template instance;
  volume_claim_templates =
      record {
        name = "data";
        access_modes = "ReadWriteOnce" ∷ [];
        storage = 1073741824;
        storage_class_name = none;
      }
      ∷ [];
  ready_replicas = pos 0;
}

wants_config_map : desired_instance_config_map env instance ≡ ok config_map
unfolding desired_instance_config_map owned
wants_config_map = refl

wants_service : desired_instance_service env instance ≡ ok service
unfolding desired_instance_service owned
wants_service = refl

wants_stateful_set : desired_instance_stateful_set env instance ≡ ok stateful_set
unfolding desired_instance_stateful_set owned parse_storage_quantity
wants_stateful_set = refl

desired-Consistent_example : Consistent instance config_map service stateful_set
desired-Consistent_example =
    desired-Consistent env instance machinery-KeepsNames config_map service stateful_set
      wants_config_map wants_service wants_stateful_set

abbrev live : Instance
live = record instance {
  metadata = record instance.metadata { finalizers = instance_finalizer ∷ [] };
}

abbrev running : StatefulSet
running = record stateful_set { ready_replicas = pos 1 }

-- The instance has its workload, and all replicas are ready.
abbrev running_get : (k : Kind) → History → Key → Result (Carrier k)
running_get instance_kind h x = ok live
running_get stateful_set_kind h x = ok running
running_get k h x = sample_get user group oidc_client k h x

abbrev cluster : Env
cluster = record env { get = running_get }

abbrev key_named : Instance
key_named = with_api_key_name cluster live "main-api-key"

cluster-StoresStatus : StoresStatus cluster
cluster-StoresStatus = record {
  stored = λ history x. x;
  granted = λ history x. refl;
  kept = λ history x. refl;
}

live-IsLive : IsLive cluster key [] live
live-IsLive = record { found = refl; not_deleted = refl; held = refl }

live-Succeeds : Succeeds cluster key [] live key_named key_named live running
unfolding reconcile_secrets reconcile_encryption_key reconcile_api_key ensure_secret
    create_if_missing reconcile_config_map write_config_map reconcile_service write_service
    reconcile_stateful_set write_stateful_set initialize_instance desired_instance_config_map
    desired_instance_service desired_instance_stateful_set owned parse_storage_quantity put fetch
    instance_labels pod_template pod_container ◌>>=◌
live-Succeeds = record {
  config_map = config_map;
  service = service;
  stateful_set = running;
  has_secrets = refl;
  has_config_map = refl;
  has_service = refl;
  has_stateful_set = refl;
  initialized = refl;
  reread = refl;
  observed = refl;
}

reconcile-instance_serves_example :
    Concludes running live key_named (reconcile cluster key []).0 (reconcile cluster key []).1
reconcile-instance_serves_example =
    reconcile-instance_serves cluster key [] live key_named key_named live running live-IsLive
      live-Succeeds cluster-StoresStatus

bytes : AreBytes (env.random [] 2)
bytes = (omega arith, (omega arith, tt))

decode_hex-generate_random_key_example :
    decode_hex (generate_random_key env 2 []).0 ≡ 171 ∷ 171 ∷ []
decode_hex-generate_random_key_example = decode_hex-generate_random_key env 2 [] bytes
