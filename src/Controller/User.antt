-- ===== src/Controller/User.antt =====
-- internal/controller/pocketiduser_controller.go. The parts are in the modules below: Account
-- (`resolveOrCreateUser`), Groups (`syncGroupMemberships`) and Onboarding (onboarding.go).
pub mod Account
pub mod Groups
pub mod Onboarding
pub mod Reconcile
