-- ===== src/Controller/Instance/Workload/Consistent.antt =====
-- instance_workload.go, with helpers.go: the objects of an instance fit together, and the operator
-- reads the API key where the pod does.
use Prim.Native.String.{◌++◌ as ◌<>◌}
use pocketid_operator.Base.{
  ◌≡◌, refl, sym, ap, ◌∙◌, String, Option, none, some, [], ◌∷◌, arith, inl, inr,
}
use text.Mathlib.TextLemmas.{append_assoc}
use pocketid_operator.Error.{ok, Result-cases}
use pocketid_operator.Api.Meta.{ObjectMeta}
use pocketid_operator.Api.Core.{ConfigMap, Service, ServicePort}
use pocketid_operator.Api.Workload.{StatefulSet, Container, config_map_ref, secret_ref}
use pocketid_operator.Api.Instance.{Instance, SecretKeySelector}
use pocketid_operator.World.{Env, instance_kind}
use pocketid_operator.Controller.Access.{api_key_secret_name, pocketid_internal_url}
use pocketid_operator.Controller.Instance.Workload.{
  config_of, config_map_name, service_name, secret_name_or, instance_labels, pod_template,
  pod_container, owned, desired_instance_config_map, desired_instance_service,
  desired_instance_stateful_set,
}
use pocketid_operator.Controller.Instance.Bootstrap.{KeepsNames}

-- The one container of the pods takes its environment from the config map and two secrets, and
-- listens where the service sends to.
pub record Runs (i : Instance) (c : ConfigMap) (s : Service) (t : StatefulSet) (x : Container)
    : Type 0 where
  pub only : t.template.containers ≡ x ∷ []
  pub sources :
      x.env_from
      ≡ config_map_ref c.metadata.name
        ∷ secret_ref (secret_name_or i.spec.encryption_key_secret_ref (i.name <> "-encryption-key"))
        ∷ secret_ref (api_key_secret_name i)
        ∷ []
  pub port : ServicePort
  pub one_port : s.ports ≡ port ∷ []
  pub target : port.target_port ≡ x.container_port
  pub probed : x.readiness_probe.port ≡ x.container_port

pub record Consistent (i : Instance) (c : ConfigMap) (s : Service) (t : StatefulSet) : Type 0 where
  pub selects_pods : s.selector ≡ t.template.labels
  pub owns_pods : t.match_labels ≡ t.template.labels
  pub governs : t.service_name ≡ s.metadata.name
  pub container : Container
  pub runs : Runs i c s t container
  pub url :
      pocketid_internal_url i.name i.namespace
      ≡ "http://" <> s.metadata.name <> "." <> s.metadata.namespace <> ".svc.cluster.local"

module _ (env : Env) (i : Instance) where
  abbrev config_map_with : ObjectMeta → ConfigMap
  config_map_with m = record { metadata = m; contents = config_of i.spec }

  abbrev service_with : ObjectMeta → Service
  service_with m = record {
    metadata = m;
    selector = instance_labels i;
    ports = record { name = "http"; port = 80; target_port = 1411; protocol = "TCP" } ∷ [];
  }

  -- What the theorem needs of a stateful set.
  record IsDesired (t : StatefulSet) : Type 0 where
    template : t.template ≡ pod_template i
    match_labels : t.match_labels ≡ instance_labels i
    service_named : t.service_name ≡ service_name i

  desired_config_map :
      (c : ConfigMap)
      → desired_instance_config_map env i ≡ ok c
      → (m : ObjectMeta) × (owned env i (config_map_name i) ≡ ok m) × (c ≡ config_map_with m)
  unfolding desired_instance_config_map
  desired_config_map c p = elim (Result-cases (owned env i (config_map_name i))) [
    | inl (e, q) ↦ absurd (ground arith)
    | inr (m, q) ↦ (m, q, ground arith)
  ]

  desired_service :
      (s : Service)
      → desired_instance_service env i ≡ ok s
      → (m : ObjectMeta) × (owned env i (service_name i) ≡ ok m) × (s ≡ service_with m)
  unfolding desired_instance_service
  desired_service s p = elim (Result-cases (owned env i (service_name i))) [
    | inl (e, q) ↦ absurd (ground arith)
    | inr (m, q) ↦ (m, q, ground arith)
  ]

  IsDesired-of-ok : (t : StatefulSet) → desired_instance_stateful_set env i ≡ ok t → IsDesired t
  unfolding desired_instance_stateful_set
  IsDesired-of-ok t p = elim (Result-cases (owned env i i.name)) [
    | inl (e, q) ↦ absurd (ground arith)
    | inr (m, q) ↦ record {
      template = ground arith;
      match_labels = ground arith;
      service_named = ground arith;
    }
  ]

  secret_name_or-eq :
      (ref : Option SecretKeySelector) (default : String)
      → secret_name_or ref default ≡ elim ref [ none ↦ default | some r ↦ r.name ]
  secret_name_or-eq none default = refl
  secret_name_or-eq (some r) default = refl

  dotted : (rest : String) → i.name <> "-svc." <> rest ≡ (i.name <> "-svc") <> "." <> rest
  dotted rest =
      ap (λ x. i.name <> x) (append_assoc "-svc" "." rest)
      ∙ sym (append_assoc i.name "-svc" ("." <> rest))

  Consistent-of-desired :
      (mc ms : ObjectMeta) (t : StatefulSet)
      → mc.name ≡ config_map_name i
      → ms.name ≡ service_name i
      → ms.namespace ≡ i.namespace
      → IsDesired t
      → Consistent i (config_map_with mc) (service_with ms) t
  unfolding pod_template pod_container pocketid_internal_url
  Consistent-of-desired mc ms t nc ns ss d = record {
    selects_pods = rw d.template refl;
    owns_pods = rw (d.template, d.match_labels) refl;
    governs = d.service_named ∙ sym ns;
    container = pod_container i;
    runs = record {
      only = rw d.template refl;
      sources =
          rw (nc, secret_name_or-eq i.spec.static_api_key_secret_ref (i.name <> "-api-key")) refl;
      port = _;
      one_port = refl;
      target = refl;
      probed = refl;
    };
    url = rw (ns, ss) (ap (λ x. "http://" <> x) (dotted (i.namespace <> ".svc.cluster.local")));
  }

  -- Where the library that sets owners keeps names, the config map, the service and the stateful
  -- set that an instance wants fit together: the service and the stateful set select the pods that
  -- the template labels; the stateful set names the service; the one container of a pod reads the
  -- config map, the encryption key and the secret from which the operator takes its API key, and
  -- listens, and is probed, on the port that the service sends to; and the URL that the operator
  -- uses by default is the service's.
  pub desired-Consistent :
      KeepsNames env.lib
      → (c : ConfigMap) (s : Service) (t : StatefulSet) → desired_instance_config_map env i ≡ ok c
      → desired_instance_service env i ≡ ok s
      → desired_instance_stateful_set env i ≡ ok t
      → Consistent i c s t
  unfolding owned
  desired-Consistent names c s t pc ps pt =
      let (mc, oc, ec) = desired_config_map c pc in
      let (ms, os, es) = desired_service s ps in
      rw (ec, es)
        (Consistent-of-desired mc ms t (names.name-owned instance_kind i.metadata _ mc oc)
          (names.name-owned instance_kind i.metadata _ ms os)
          (names.namespace-owned instance_kind i.metadata _ ms os) (IsDesired-of-ok t pt))
