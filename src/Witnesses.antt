-- ===== src/Witnesses.antt =====
-- The theorems of the library at concrete objects, where their hypotheses hold.
pub mod Rollouts
pub mod Pods
pub mod Rounds
pub mod Updates
pub mod Replicas
pub mod Reports
pub mod Recreation
pub mod Scaling
pub mod Admission
pub mod Manager
