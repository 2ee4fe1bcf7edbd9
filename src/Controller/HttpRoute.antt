-- ===== src/Controller/HttpRoute.antt =====
-- internal/controller/httproute_controller.go: Desired has the OIDC client that a route asks for,
-- and Reconcile the reconciler.
pub mod Desired
pub mod Reconcile
