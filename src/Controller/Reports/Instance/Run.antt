-- ===== src/Controller/Reports/Instance/Run.antt =====
-- pocketidinstance_controller.go: the result of a whole run, by what it found.
use pocketid_operator.Base.{◌≡◌, refl, true, false, Bool-cases, inl, inr, ◌∷◌, is_some}
use pocketid_operator.Error.{Error, ok, err, Result-cases}
use pocketid_operator.Api.Meta.{Key}
use pocketid_operator.Api.Instance.{Instance}
use pocketid_operator.World.{
  Env, History, wrote, got, put, update, instance_kind, fetch, on_error, pure, ◌>>=◌,
}
use pocketid_operator.World.Ends.{Ends, Ends-pure, ends_rules}
use pocketid_operator.Controller.Outcome.{Outcome, finished, failed, ignore_not_found}
use pocketid_operator.Controller.Instance.Reconcile.{
  instance_finalizer, again, handle_deletion, add_finalizer, reconcile_instance, reconcile,
}
use pocketid_operator.Controller.Reports.Instance.{InstanceReports, reconcile_resources-reports}

module _ (env : Env) where
  -- The run was done, or there is an error alone.
  pub data Closes : Outcome → History → Type 0 where
    done : {h : History} → Closes finished h
    error_only : {h : History} (e : Error) → Closes (failed e) h

  -- The run comes back at once, or there is an error alone.
  pub data Repeats : Outcome → Type 0 where
    at_once : Repeats again
    error_only : (e : Error) → Repeats (failed e)

  -- The result of a run on the instance with the key, by what the run found.
  pub data InstanceRun (key : Key) (h : History) : Outcome → History → Type 0 where
    unread :
        (e : Error) {r : Outcome} {h' : History}
        → env.get instance_kind h key ≡ err e
        → r ≡ ignore_not_found e
        → InstanceRun key h r h'
    deleted :
        (i : Instance) {r : Outcome} {h' : History}
        → env.get instance_kind h key ≡ ok i
        → is_some i.metadata.deletion_timestamp ≡ true
        → Closes r h'
        → InstanceRun key h r h'
    adopted :
        (i : Instance) {r : Outcome}
        → env.get instance_kind h key ≡ ok i
        → is_some i.metadata.deletion_timestamp ≡ false
        → env.contains_finalizer i.metadata instance_finalizer ≡ false
        → Repeats r
        → InstanceRun key h r (
            wrote update instance_kind
              (record i { metadata = env.add_finalizer i.metadata instance_finalizer })
            ∷ got instance_kind key
            ∷ h)
    live :
        (i : Instance) {r : Outcome} {h' : History}
        → env.get instance_kind h key ≡ ok i
        → is_some i.metadata.deletion_timestamp ≡ false
        → env.contains_finalizer i.metadata instance_finalizer ≡ true
        → InstanceReports env r h'
        → InstanceRun key h r h'

  Ends-done : Ends Closes (pure finished)
  Ends-done = Ends-pure finished (λ h. done)

  Ends-failed : (e : Error) → Ends Closes (pure (failed e))
  Ends-failed e = Ends-pure (failed e) (λ h. error_only e)

  Ends-handle_deletion : (i : Instance) → Ends Closes (handle_deletion env i)
  unfolding handle_deletion
  Ends-handle_deletion i = search (ends_rules, Ends-done, Ends-failed) depth 8

  InstanceRun-add_finalizer :
      (key : Key) (h : History) (i : Instance)
      → env.get instance_kind h key ≡ ok i
      → is_some i.metadata.deletion_timestamp ≡ false
      → env.contains_finalizer i.metadata instance_finalizer ≡ false
      → InstanceRun key h
          (add_finalizer env i (got instance_kind key ∷ h)).0
          (add_finalizer env i (got instance_kind key ∷ h)).1
  unfolding add_finalizer put ◌>>=◌
  InstanceRun-add_finalizer key h i found kept missing =
      elim (Result-cases (
        env.write update instance_kind (got instance_kind key ∷ h)
          (record i { metadata = env.add_finalizer i.metadata instance_finalizer }))) [
            | inl (e, p) ↦ rw (p, on_error) (adopted i found kept missing (error_only e))
            | inr (x, p) ↦ rw (p, on_error) (adopted i found kept missing at_once)
          ]

  InstanceRun-found :
      (key : Key) (h : History) (i : Instance)
      → env.get instance_kind h key ≡ ok i
      → InstanceRun key h
          (reconcile_instance env i (got instance_kind key ∷ h)).0
          (reconcile_instance env i (got instance_kind key ∷ h)).1
  unfolding reconcile_instance
  InstanceRun-found key h i found = elim (Bool-cases (is_some i.metadata.deletion_timestamp)) [
    | inl gone ↦ rw gone (deleted i found gone ((Ends-handle_deletion i).at _))
    | inr kept ↦ elim (Bool-cases (env.contains_finalizer i.metadata instance_finalizer)) [
      | inl held ↦ rw (kept, held) (live i found kept held (reconcile_resources-reports env i _))
      | inr missing ↦ rw (kept, missing) (InstanceRun-add_finalizer key h i found kept missing)
    ]
  ]

  pub reconcile-InstanceRun :
      (key : Key) (h : History) → InstanceRun key h (reconcile env key h).0 (reconcile env key h).1
  unfolding reconcile fetch ◌>>=◌
  reconcile-InstanceRun key h = elim (Result-cases (env.get instance_kind h key)) [
    | inl (e, p) ↦ rw (p, on_error) (unread e p refl)
    | inr (i, p) ↦ rw (p, on_error) (InstanceRun-found key h i p)
  ]
