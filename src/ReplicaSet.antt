-- ===== src/ReplicaSet.antt =====
-- internal/controller/replicaset_controller.go.
pub mod Pods
pub mod Claim
pub mod Ownership
pub mod Replicas
pub mod Listed
pub mod Coverage
pub mod Disruption
pub mod Live
pub mod Reads
pub mod Scales
pub mod Converges
pub mod Settled
pub mod Valid
pub mod Reconcile
pub mod Handoff
pub mod DistinctKeys
pub mod Candidates
pub mod Burst
pub mod Ranks
pub mod Uids
pub mod Related
pub mod Deleted
pub mod Deletion
