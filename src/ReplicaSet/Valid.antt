-- ===== src/ReplicaSet/Valid.antt =====
-- The status that updateReplicaSetStatus writes, as Kubernetes' validation of a ReplicaSetStatus
-- wants it.
use churnless.Base.{ℕ, ◌≤◌, ◌<◌, ◌≡◌, Option, none, some, ◌==◌, if◌then◌else◌}
use churnless.Int32.{pos, limit}
use churnless.Api.{InPlaceUpdateStatus, ReplicaSet, ReplicaSetStatus}
use churnless.Upstream.{Upstream}
use churnless.ReplicaSet.Pods.{fully_labeled_replicas, ready_replicas, available_replicas}

-- A report on updates, where there is one, counts Pods among the replicas.
abbrev pub IsValidProgress : ℕ → Option InPlaceUpdateStatus → Type 0
IsValidProgress replicas none = Unit
IsValidProgress replicas (some progress) =
    (updated : ℕ) × (ready : ℕ) × (progress.updated_replicas ≡ pos updated)
    × (progress.ready_updated_replicas ≡ pos ready)
    × (updated ≤ replicas)
    × (ready ≤ updated)

-- No count is negative, and none is more than the Pods that it is a part of.
pub record IsValidStatus (s : ReplicaSetStatus) : Type 0 where
  pub replicas : ℕ
  pub labeled : ℕ
  pub ready : ℕ
  pub available : ℕ
  pub terminating : ℕ
  pub replicas_eq : s.replicas ≡ pos replicas
  pub labeled_eq : s.fully_labeled_replicas ≡ pos labeled
  pub ready_eq : s.ready_replicas ≡ pos ready
  pub available_eq : s.available_replicas ≡ pos available
  pub terminating_eq :
      s.terminating_replicas ≡ (if terminating == 0 then none else some (pos terminating))
  pub in_place_valid : IsValidProgress replicas s.in_place
  pub replicas_small : replicas < limit
  pub labeled_le : labeled ≤ replicas
  pub ready_le : ready ≤ replicas
  pub available_le : available ≤ ready
