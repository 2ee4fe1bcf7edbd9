-- ===== src/Controller/Permission/UserGroup.antt =====
-- pocketidusergroup_controller.go: a user group that may not reference its instance.
use pocketid_operator.Base.{◌≡◌, refl, String, List, ◌∷◌, false}
use pocketid_operator.Error.{Error, ok}
use pocketid_operator.Api.Meta.{Key, Condition}
use pocketid_operator.Api.UserGroup.{UserGroup}
use pocketid_operator.Api.Instance.{Instance}
use pocketid_operator.World.{
  Env, History, got, wrote, update_status, user_group_kind, instance_kind, fetch, put, clock,
  on_error, ◌>>=◌,
}
use pocketid_operator.World.Effects.{effects}
use pocketid_operator.Controller.Outcome.{Outcome, failed_after}
use pocketid_operator.Controller.Status.{set_error_condition, set_condition}
use pocketid_operator.Controller.References.{instance_key}
use pocketid_operator.Controller.References.Rules.{MayReference}
use pocketid_operator.Controller.Access.{Access, refused}
use pocketid_operator.Controller.UserGroup.Reconcile.{
  update_error_status, reconcile_with, reconcile_group, reconcile,
}
use pocketid_operator.Controller.Permission.{effects-access, access-refuses}

-- The resource as a failed run leaves it.
abbrev pub not_ready : UserGroup → List Condition → UserGroup
not_ready g conditions = record g {
  status = record g.status { ready = false; synced = false; conditions = conditions };
}

-- A run that has one effect, and that is to report a failure in the status.
pub record ReportsRefusal (h : History) (g : UserGroup) (o : Outcome) (h' : History) : Type 0 where
  pub error : Error
  pub outcome : o ≡ failed_after 30 error
  pub conditions : List Condition
  pub effect : effects h' ≡ wrote update_status user_group_kind (not_ready g conditions) ∷ effects h

module _ (env : Env) (key : Key) (h : History) (g : UserGroup) where
  abbrev after_get : History
  after_get = got user_group_kind key ∷ h

  reports :
      (a : Access) (h' : History)
      → effects h' ≡ effects h
      → (reason : String) (e : Error) → a ≡ refused reason e
      → ReportsRefusal h g (reconcile_with env g a h').0 (reconcile_with env g a h').1
  unfolding reconcile_with update_error_status set_error_condition set_condition clock put ◌>>=◌
  reports a h' same reason e p = rw p (record {
    error = e;
    outcome = refl;
    conditions = (set_error_condition env g.status.conditions g.metadata.generation reason e h').0;
    effect = rw same;
  })

  -- A user group whose instance is there but may not be referenced from its namespace: the run has
  -- one effect, which is to write the status with `ready` and `synced` false (so it sends nothing
  -- to PocketID), and it asks for another run in 30 seconds with an error.
  pub reconcile-group_refused :
      env.get user_group_kind h key ≡ ok g
      → (i : Instance)
      → env.get instance_kind after_get (instance_key g.spec.instance_ref g.namespace) ≡ ok i
      → ¬ MayReference env
          (got instance_kind (instance_key g.spec.instance_ref g.namespace) ∷ after_get)
          i
          g.namespace
      → ReportsRefusal h g (reconcile env key h).0 (reconcile env key h).1
  unfolding reconcile reconcile_group fetch ◌>>=◌
  reconcile-group_refused found i there denies =
      let (reason, e, p) =
        access-refuses env g.spec.instance_ref g.namespace "" after_get i there denies in
      rw (found, on_error)
        (reports _ _ (effects-access env g.spec.instance_ref g.namespace "" after_get) reason e p)
