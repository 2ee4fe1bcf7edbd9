-- ===== src/Controller/Deletion.antt =====
-- That deletion comes to its end: with Finalizers, which says what a deletion may not skip, this is
-- the contract of a finalizer. The children prove it of the reconcilers in
-- pocketiduser_controller.go, pocketidusergroup_controller.go and pocketidoidcclient_controller.go.
pub mod User
pub mod UserGroup
pub mod OidcClient
