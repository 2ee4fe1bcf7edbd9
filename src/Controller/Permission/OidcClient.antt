-- ===== src/Controller/Permission/OidcClient.antt =====
-- pocketidoidcclient_controller.go: an OIDC client that may not reference its instance.
use pocketid_operator.Base.{◌≡◌, refl, String, List, ◌∷◌, false}
use pocketid_operator.Error.{Error, ok}
use pocketid_operator.Api.Meta.{Key, Condition}
use pocketid_operator.Api.OidcClient.{OidcClient}
use pocketid_operator.Api.Instance.{Instance}
use pocketid_operator.World.{
  Env, History, got, wrote, update_status, oidc_client_kind, instance_kind, fetch, put, clock,
  on_error, ◌>>=◌,
}
use pocketid_operator.World.Effects.{effects}
use pocketid_operator.Controller.Outcome.{Outcome, failed_after}
use pocketid_operator.Controller.Status.{set_error_condition, set_condition}
use pocketid_operator.Controller.References.{instance_key}
use pocketid_operator.Controller.References.Rules.{MayReference}
use pocketid_operator.Controller.Access.{Access, refused}
use pocketid_operator.Controller.OidcClient.Reconcile.{
  update_error_status, reconcile_with, reconcile_client, reconcile,
}
use pocketid_operator.Controller.Permission.{effects-access, access-refuses}

-- The resource as a failed run leaves it.
abbrev pub not_ready : OidcClient → List Condition → OidcClient
not_ready o conditions = record o {
  status = record o.status { ready = false; synced = false; conditions = conditions };
}

-- A run that has one effect, and that is to report a failure in the status.
pub record ReportsRefusal (h : History) (o : OidcClient) (out : Outcome) (h' : History)
    : Type 0 where
  pub error : Error
  pub outcome : out ≡ failed_after 30 error
  pub conditions : List Condition
  pub effect :
      effects h' ≡ wrote update_status oidc_client_kind (not_ready o conditions) ∷ effects h

module _ (env : Env) (key : Key) (h : History) (o : OidcClient) where
  abbrev after_get : History
  after_get = got oidc_client_kind key ∷ h

  reports :
      (a : Access) (h' : History)
      → effects h' ≡ effects h
      → (reason : String) (e : Error) → a ≡ refused reason e
      → ReportsRefusal h o (reconcile_with env o a h').0 (reconcile_with env o a h').1
  unfolding reconcile_with update_error_status set_error_condition set_condition clock put ◌>>=◌
  reports a h' same reason e p = rw p (record {
    error = e;
    outcome = refl;
    conditions = (set_error_condition env o.status.conditions o.metadata.generation reason e h').0;
    effect = rw same;
  })

  -- An OIDC client whose instance is there but may not be referenced from its namespace: the run
  -- has one effect, which is to write the status with `ready` and `synced` false (so it sends
  -- nothing to PocketID), and it asks for another run in 30 seconds with an error.
  pub reconcile-client_refused :
      env.get oidc_client_kind h key ≡ ok o
      → (i : Instance)
      → env.get instance_kind after_get (instance_key o.spec.instance_ref o.namespace) ≡ ok i
      → ¬ MayReference env
          (got instance_kind (instance_key o.spec.instance_ref o.namespace) ∷ after_get)
          i
          o.namespace
      → ReportsRefusal h o (reconcile env key h).0 (reconcile env key h).1
  unfolding reconcile reconcile_client fetch ◌>>=◌
  reconcile-client_refused found i there denies =
      let (reason, e, p) =
        access-refuses env o.spec.instance_ref o.namespace "http://localhost:8080" after_get i there
          denies in
      rw (found, on_error)
        (reports _ _
          (effects-access env o.spec.instance_ref o.namespace "http://localhost:8080" after_get)
          reason e p)
