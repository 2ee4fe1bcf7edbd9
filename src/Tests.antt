-- ===== src/Tests.antt =====
-- The theorems at concrete inputs, on a small cluster (Sample).
pub mod Sample
mod Finalizers
mod Permission
mod Clients
mod Users
mod Reports
mod Instances
mod Routes
mod Deletion
mod Progress
mod Operator
mod Settled
mod InSync
mod Guarded
