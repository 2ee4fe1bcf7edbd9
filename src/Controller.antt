-- ===== src/Controller.antt =====
-- internal/controller: what the reconcilers share (Status, References, Access) and a module for
-- each reconciler.
pub mod Outcome
pub mod Status
pub mod References
pub mod Access
pub mod User
pub mod UserGroup
pub mod OidcClient
pub mod Instance
pub mod HttpRoute
pub mod Steps
pub mod Footprint
pub mod Cost
pub mod Finalizers
pub mod Permission
pub mod Reports
pub mod Settled
pub mod Deletion
