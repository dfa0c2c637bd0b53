-- ===== src/Deployment.antt =====
-- internal/controller/deployment_controller.go: the pure parts in the first children, the reconciler
-- in the last.
pub mod Totals
pub mod Valid
pub mod Counts
pub mod Limits
pub mod Status
pub mod Naming
pub mod Fleet
pub mod Rolling
pub mod Plan
pub mod Moves
pub mod Surge
pub mod Descent
pub mod Rounds
pub mod Progress
pub mod Actions
pub mod Reconcile
pub mod Reads
pub mod Writes
pub mod OneWrite
pub mod Recreate
pub mod Paused
pub mod Conditions
pub mod Complete
pub mod Parallelism
