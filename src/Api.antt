-- ===== src/Api.antt =====
-- The custom resources of api/v1alpha1, and the Kubernetes objects that the controllers read and
-- write, cut down to the fields that the operator touches.
pub mod Meta
pub mod Core
pub mod Workload
pub mod Instance
pub mod User
pub mod UserGroup
pub mod OidcClient
