-- ===== src/Controller/OidcClient.antt =====
-- internal/controller/pocketidoidcclient_controller.go and securitypolicy.go, in parts: Compare
-- (`needsOIDCClientUpdate`), Groups (`resolveAllowedUserGroups`), Remote (`resolveOrCreateClient`),
-- Credentials (`ensureCredentialsSecret`) and Policy (securitypolicy.go).
pub mod Compare
pub mod Groups
pub mod Remote
pub mod Credentials
pub mod Policy
pub mod Reconcile
