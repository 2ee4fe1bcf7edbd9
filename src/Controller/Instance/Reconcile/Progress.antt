-- ===== src/Controller/Instance/Reconcile/Progress.antt =====
-- pocketidinstance_controller.go: a run on a live instance whose steps succeed.
use pocketid_operator.Base.{
  ℕ, zero, suc, ◌≡◌, refl, ap, ◌↔◌, Bool, true, false, nat_eq, eq_iff, arith, Bool-cases, inl, inr,
  is_some, ◌∷◌,
}
use pocketid_operator.Base.Integer.{ℤ, pos, negsuc, int_beq, is_positive}
use pocketid_operator.Error.{ok}
use pocketid_operator.Api.Meta.{Key, key_of}
use pocketid_operator.Api.Core.{ConfigMap, Service}
use pocketid_operator.Api.Workload.{StatefulSet}
use pocketid_operator.Api.Instance.{Instance}
use pocketid_operator.World.{
  Env, History, got, wrote, update_status, instance_kind, stateful_set_kind, fetch, put, on_error,
  ◌>>=◌,
}
use pocketid_operator.Controller.Outcome.{Outcome, finished, again_after}
use pocketid_operator.Controller.Access.{pocketid_internal_url}
use pocketid_operator.Controller.Instance.Secrets.{reconcile_secrets}
use pocketid_operator.Controller.Instance.Initialize.{initialize_instance}
use pocketid_operator.Controller.Instance.Reconcile.{
  instance_finalizer, beside, reconcile_config_map, reconcile_service, reconcile_stateful_set,
  all_ready, write_ready, update_status_of, reconcile_workload, reconcile_resources,
  reconcile_instance, reconcile,
}

-- The server takes every write of a status, and stores what it says of readiness.
pub record StoresStatus (env : Env) : Type 0 where
  pub stored : History → Instance → Instance
  pub granted :
      (history : History) (x : Instance)
      → env.write update_status instance_kind history x ≡ ok (stored history x)
  pub kept : (history : History) (x : Instance) → (stored history x).status.ready ≡ x.status.ready

-- The last event is a write of the status, ready or not, with the address of the instance and the
-- name of the secret of its API key.
pub record WroteStatus (is_ready : Bool) (latest done : Instance) (h : History) : Type 0 where
  pub instance : Instance
  pub before : History
  pub newest : h ≡ wrote update_status instance_kind instance ∷ before
  pub readiness : instance.status.ready ≡ is_ready
  pub address : instance.status.internal_url ≡ pocketid_internal_url latest.name latest.namespace
  pub api_key : instance.status.static_api_key_secret_name ≡ done.status.static_api_key_secret_name

module _ (env : Env) (key : Key) (h : History) (i : Instance) where
  -- A live instance that has its finalizer.
  pub record IsLive : Type 0 where
    pub found : env.get instance_kind h key ≡ ok i
    pub not_deleted : is_some i.metadata.deletion_timestamp ≡ false
    pub held : env.contains_finalizer i.metadata instance_finalizer ≡ true

  module _ (v w : Instance) where
    abbrev pub after_secrets : History
    after_secrets = (reconcile_secrets env i (got instance_kind key ∷ h)).1

    abbrev pub after_config_map : History
    after_config_map = (reconcile_config_map env v after_secrets).1

    abbrev pub after_service : History
    after_service = (reconcile_service env v after_config_map).1

    abbrev pub after_stateful_set : History
    after_stateful_set = (reconcile_stateful_set env v after_service).1

    abbrev pub after_initialize : History
    after_initialize = (initialize_instance env v after_stateful_set).1

    -- No step fails: the secrets, the config map, the service and the stateful set are in place,
    -- the first user too where it is time for one, and the instance and its stateful set can be
    -- read.
    pub record Succeeds (latest : Instance) (sts : StatefulSet) : Type 0 where
      pub config_map : ConfigMap
      pub service : Service
      pub stateful_set : StatefulSet
      pub has_secrets : (reconcile_secrets env i (got instance_kind key ∷ h)).0 ≡ ok v
      pub has_config_map : (reconcile_config_map env v after_secrets).0 ≡ ok config_map
      pub has_service : (reconcile_service env v after_config_map).0 ≡ ok service
      pub has_stateful_set : (reconcile_stateful_set env v after_service).0 ≡ ok stateful_set
      pub initialized : (initialize_instance env v after_stateful_set).0 ≡ ok w
      pub reread : env.get instance_kind after_initialize (key_of w.metadata) ≡ ok latest
      pub observed :
          env.get stateful_set_kind
            (got instance_kind (key_of w.metadata) ∷ after_initialize)
            (beside latest latest.name)
          ≡ ok sts

-- As many replicas are ready as the stateful set has, and at least one.
pub record IsServing (sts : StatefulSet) : Type 0 where
  pub more : ℕ
  pub some_ready : sts.ready_replicas ≡ pos (suc more)
  pub all_of_them : sts.ready_replicas ≡ sts.replicas

int_beq_iff : (a b : ℤ) → (int_beq a b ≡ true) ↔ (a ≡ b)
int_beq_iff (pos a) (pos b) = (λ p. ap pos ((eq_iff a b).0 p), λ p. (eq_iff a b).1 (cc (p)))
int_beq_iff (negsuc a) (negsuc b) =
    (λ p. ap negsuc ((eq_iff a b).0 p), λ p. (eq_iff a b).1 (cc (p)))
int_beq_iff (pos a) (negsuc b) = (λ p. absurd (cc), λ p. absurd (cc (p)))
int_beq_iff (negsuc a) (pos b) = (λ p. absurd (cc), λ p. absurd (cc (p)))

positive-of-is_positive : (a : ℤ) → is_positive a ≡ true → (n : ℕ) × (a ≡ pos (suc n))
positive-of-is_positive (pos zero) p = absurd (cc)
positive-of-is_positive (pos (suc n)) p = (n, refl)
positive-of-is_positive (negsuc n) p = absurd (cc)

all_ready_iff : (env : Env) (sts : StatefulSet) → (all_ready env sts ≡ true) ↔ IsServing sts
all_ready_iff env sts =
    let same = int_beq_iff sts.ready_replicas sts.replicas in
    (
      λ p.
          let (n, some_ready) = positive-of-is_positive sts.ready_replicas (ground arith) in
          record { more = n; some_ready = some_ready; all_of_them = same.0 (ground arith) },
      λ serving. rw (same.1 serving.all_of_them, serving.some_ready) refl,
    )

-- The run is finished, with a status that says ready, if the stateful set serves, and else comes
-- back in ten seconds, with one that says not ready.
pub data Concludes (sts : StatefulSet) (latest done : Instance) : Outcome → History → Type 0 where
  serving :
      {h : History}
      → IsServing sts
      → WroteStatus true latest done h
      → Concludes sts latest done finished h
  waiting :
      {h : History}
      → ¬ IsServing sts
      → WroteStatus false latest done h
      → Concludes sts latest done (again_after 10) h

write_ready-Concludes :
    (env : Env) (w latest : Instance) (sts : StatefulSet) (h : History)
    → StoresStatus env
    → Concludes sts latest w (write_ready env w latest sts h).0 (write_ready env w latest sts h).1
unfolding write_ready put ◌>>=◌
write_ready-Concludes env w latest sts h s = elim (Bool-cases (all_ready env sts)) [
  | inl ready ↦
      rw (s.granted, on_error, s.kept, ready)
        (serving ((all_ready_iff env sts).0 ready) (record {
          instance = _;
          before = _;
          newest = refl;
          readiness = refl;
          address = refl;
          api_key = refl;
        }))
  | inr unready ↦
      rw (s.granted, on_error, s.kept, unready)
        (waiting (λ serves. absurd (ground (arith, unready, (all_ready_iff env sts).1 serves)))
          (record {
            instance = _;
            before = _;
            newest = refl;
            readiness = refl;
            address = refl;
            api_key = refl;
          }))
]

module _ (env : Env) (key : Key) (h : History) (i : Instance) where
  -- If an instance that is not being deleted has its finalizer, if every step of the run succeeds,
  -- and if the server takes the status, then the last event of the run is a write of the status
  -- that says ready exactly if as many replicas are ready as the stateful set has, and at least
  -- one, with the address inside the cluster and the name of the secret of the API key, and the run
  -- is finished if it is ready and asks for another one in ten seconds if not.
  pub reconcile-instance_serves :
      (v w latest : Instance) (sts : StatefulSet)
      → IsLive env key h i
      → Succeeds env key h i v w latest sts
      → StoresStatus env
      → Concludes sts latest w (reconcile env key h).0 (reconcile env key h).1
  unfolding reconcile reconcile_instance reconcile_resources reconcile_workload update_status_of
      fetch ◌>>=◌
  reconcile-instance_serves v w latest sts l s stores =
      rw
        (
          l.found, on_error, l.not_deleted, l.held, s.has_secrets, s.has_config_map, s.has_service,
          s.has_stateful_set, s.initialized, s.reread, s.observed,
        )
        (write_ready-Concludes env w latest sts _ stores)
