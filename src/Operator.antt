-- ===== src/Operator.antt =====
-- The process: the five controllers that cmd/main.go registers, what they watch and what the role
-- of the operator lets them do, and runs of them one after another.
pub mod Setup
pub mod Role
pub mod Runs
pub mod Permitted
pub mod Reachable
pub mod Bounds
pub mod Settled
pub mod Reported
pub mod Guarded
pub mod Start
