-- ===== src/Workload.antt =====
-- internal/controller/workload.go: the template fields that change in place, the two revisions, and
-- the updates of Pods.
pub mod Template
pub mod Images
pub mod Metadata
pub mod Resources
pub mod Progress
pub mod Counted
pub mod Revisions
pub mod Alike
pub mod Structure
pub mod Update
