-- ===== src/Controller/UserGroup.antt =====
-- internal/controller/pocketidusergroup_controller.go
pub mod Reconcile
