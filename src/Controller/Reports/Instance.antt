-- ===== src/Controller/Reports/Instance.antt =====
-- pocketidinstance_controller.go: the result of the steps of a live instance, and the status that
-- they wrote last.
pub mod Run
use pocketid_operator.Base.{
  ◌≡◌, refl, true, false, Bool, Bool-cases, inl, inr, String, ◌∷◌, if◌then◌else◌, is_some,
}
use pocketid_operator.Error.{Error, ok, err, Result-cases}
use pocketid_operator.Api.Meta.{Key}
use pocketid_operator.Api.Workload.{StatefulSet}
use pocketid_operator.Api.Instance.{Instance}
use pocketid_operator.World.{
  Env, History, wrote, got, put, update, update_status, instance_kind, stateful_set_kind, fetch,
  on_error, pure, ◌>>=◌,
}
use pocketid_operator.World.Ends.{Ends, Ends-pure, Ends-bind, Ends-put, Ends-on_error, ends_rules}
use pocketid_operator.Controller.Outcome.{
  Outcome, finished, failed, again_after, failed_after, ignore_not_found,
}
use pocketid_operator.Controller.Instance.Reconcile.{
  beside, update_status_of, write_ready, set_degraded_condition, reconcile_workload,
  reconcile_resources, instance_finalizer, again, handle_deletion, add_finalizer,
  reconcile_instance, reconcile,
}

-- The last event is a write of a status of an instance that says that it is not ready.
pub record WroteDegraded (h : History) : Type 0 where
  pub instance : Instance
  pub before : History
  pub newest : h ≡ wrote update_status instance_kind instance ∷ before
  pub not_ready : instance.status.ready ≡ false

-- The last event is a write of the status, and the resource as the server stored it is ready, or
-- not.
pub record Stored (env : Env) (is_ready : Bool) (h : History) : Type 0 where
  pub instance : Instance
  pub before : History
  pub newest : h ≡ wrote update_status instance_kind instance ∷ before
  pub stored : Instance
  pub granted : env.write update_status instance_kind before instance ≡ ok stored
  pub readiness : stored.status.ready ≡ is_ready

-- The last event is a read of the stateful set that failed.
pub record HasNoStatefulSet (env : Env) (h : History) : Type 0 where
  pub key : Key
  pub before : History
  pub newest : h ≡ got stateful_set_kind key ∷ before
  pub error : Error
  pub failed : env.get stateful_set_kind before key ≡ err error

pub data InstanceReports (env : Env) : Outcome → History → Type 0 where
  error_only : {h : History} (e : Error) → InstanceReports env (failed e) h
  ready : {h : History} → Stored env true h → InstanceReports env finished h
  waiting : {h : History} → Stored env false h → InstanceReports env (again_after 10) h
  no_workload : {h : History} → HasNoStatefulSet env h → InstanceReports env (again_after 10) h
  degraded : {h : History} (e : Error) → WroteDegraded h → InstanceReports env (failed_after 30 e) h

module _ (env : Env) where
  Ends-set_degraded_condition :
      (i : Instance) (reason : String) (e : Error)
      → Ends (InstanceReports env) (set_degraded_condition env i reason e)
  unfolding set_degraded_condition
  Ends-set_degraded_condition i reason e = Ends-bind _ _ (λ conditions.
      Ends-put env update_status instance_kind _ _ _
        (λ h x p. degraded x (record { instance = _; before = h; newest = refl; not_ready = refl }))
        (λ h y p.
          degraded e (record { instance = _; before = h; newest = refl; not_ready = refl })))

  reports_of-stored :
      (i stored : Instance) (h : History) (b : Bool)
      → env.write update_status instance_kind h i ≡ ok stored
      → stored.status.ready ≡ b
      → InstanceReports env
          (if b then finished else again_after 10)
          (wrote update_status instance_kind i ∷ h)
  reports_of-stored i stored h true p q = ready (record {
    instance = i;
    before = h;
    newest = refl;
    stored = stored;
    granted = p;
    readiness = q;
  })
  reports_of-stored i stored h false p q = waiting (record {
    instance = i;
    before = h;
    newest = refl;
    stored = stored;
    granted = p;
    readiness = q;
  })

  Ends-write_ready :
      (i latest : Instance) (sts : StatefulSet)
      → Ends (InstanceReports env) (write_ready env i latest sts)
  unfolding write_ready
  Ends-write_ready i latest sts = Ends-bind _ _ (λ available. Ends-bind _ _ (λ configured.
      Ends-bind _ _ (λ kept.
        Ends-put env update_status instance_kind _ _ _ (λ h e p. error_only e)
          (λ h y p. reports_of-stored _ y h y.status.ready p refl))))

  Ends-with_stateful_set :
      (i latest : Instance)
      → Ends (InstanceReports env) (
          fetch env stateful_set_kind (beside latest latest.name) >>= λ sts.
          on_error sts (λ e. pure (again_after 10)) (write_ready env i latest))
  unfolding fetch ◌>>=◌
  Ends-with_stateful_set i latest = record {
    at = λ h. elim (Result-cases (env.get stateful_set_kind h (beside latest latest.name))) [
      | inl (e, p) ↦
          rw (p, on_error)
            (no_workload (record { key = _; before = h; newest = refl; error = e; failed = p }))
      | inr (sts, p) ↦ rw (p, on_error) ((Ends-write_ready i latest sts).at _)
    ];
  }

  Ends-update_status : (i : Instance) → Ends (InstanceReports env) (update_status_of env i)
  unfolding update_status_of
  Ends-update_status i = Ends-bind _ _ (λ found.
      Ends-on_error found _ _ (λ e. Ends-pure (failed e) (λ h. error_only e))
        (Ends-with_stateful_set i))

  Ends-resources : (i : Instance) → Ends (InstanceReports env) (reconcile_resources env i)
  unfolding reconcile_resources reconcile_workload
  Ends-resources i = search (ends_rules, Ends-set_degraded_condition, Ends-update_status) depth 14

  pub reconcile_resources-reports :
      (i : Instance) (h : History)
      → InstanceReports env (reconcile_resources env i h).0 (reconcile_resources env i h).1
  reconcile_resources-reports i = (Ends-resources i).at
