-- ===== src/Controller/Instance.antt =====
-- internal/controller/pocketidinstance_controller.go and instance_workload.go: Workload has the
-- objects that an instance wants, Secrets and Initialize two steps of the reconciler.
pub mod Workload
pub mod Secrets
pub mod Initialize
pub mod Reconcile
pub mod Bootstrap
