-- ===== src/Operator/Runs.antt =====
-- Runs of the five reconcilers, one after another.
use pocketid_operator.Api.Meta.{Key}
use pocketid_operator.World.{Env, History, M}
use pocketid_operator.Controller.Outcome.{Outcome}
use pocketid_operator.Controller.Instance.Reconcile as InstanceReconcile
use pocketid_operator.Controller.User.Reconcile as UserReconcile
use pocketid_operator.Controller.OidcClient.Reconcile as ClientReconcile
use pocketid_operator.Controller.UserGroup.Reconcile as GroupReconcile
use pocketid_operator.Controller.HttpRoute.Reconcile as RouteReconcile
use pocketid_operator.Operator.Setup.{
  Controller, instance_controller, user_controller, oidc_client_controller, user_group_controller,
  http_route_controller,
}

-- What a controller does with a key from its queue.
abbrev pub run : Env → Controller → Key → M Outcome
run env instance_controller = InstanceReconcile.reconcile env
run env user_controller = UserReconcile.reconcile env
run env oidc_client_controller = ClientReconcile.reconcile env
run env user_group_controller = GroupReconcile.reconcile env
run env http_route_controller = RouteReconcile.reconcile env

-- The second history follows on the first by runs of any of the controllers, for any keys and in
-- any order.
pub data Runs (env : Env) (h : History) : History → Type 0 where
  none_yet : Runs env h h
  later :
      {h' : History} (c : Controller) (key : Key) → Runs env h h' → Runs env h (run env c key h').1
