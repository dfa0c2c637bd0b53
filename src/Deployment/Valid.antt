-- ===== src/Deployment/Valid.antt =====
-- The status that updateDeploymentStatus builds, from the statuses of the ReplicaSets.
use churnless.Base.{ℕ, ◌+◌, ◌-◌, ◌≤◌, ◌≡◌, ◌==◌, if◌then◌else◌, none, some, List, [], ◌∷◌, All}
use churnless.Int32.{pos}
use churnless.Api.{ReplicaSet, Deployment, DeploymentStatus}
use churnless.Upstream.{Upstream}
use churnless.ReplicaSet.Valid.{IsValidStatus}

-- No count is negative, and none is more than the replicas that it is a part of.
pub record IsValidTotal (s : DeploymentStatus) : Type 0 where
  pub replicas : ℕ
  pub ready : ℕ
  pub available : ℕ
  pub updated : ℕ
  pub terminating : ℕ
  pub replicas_eq : s.replicas ≡ pos replicas
  pub ready_eq : s.ready_replicas ≡ pos ready
  pub available_eq : s.available_replicas ≡ pos available
  pub updated_eq : s.updated_replicas ≡ pos updated
  pub unavailable_eq : s.unavailable_replicas ≡ pos (replicas - available)
  pub terminating_eq :
      s.terminating_replicas ≡ (if terminating == 0 then none else some (pos terminating))
  pub ready_le : ready ≤ replicas
  pub available_le : available ≤ ready
  pub updated_le : updated ≤ replicas

-- The ReplicaSets have statuses that are valid.
abbrev pub ValidSet : ReplicaSet → Type 0
ValidSet rs = IsValidStatus rs.status

-- The sums over the ReplicaSets.
abbrev pub total :
    ((rs : ReplicaSet) → ValidSet rs → ℕ) → (rss : List ReplicaSet) → All ValidSet rss → ℕ
total f [] a = 0
total f (rs ∷ rss) a = f rs a.0 + total f rss a.1

abbrev pub replicas_of_valid : (rs : ReplicaSet) → ValidSet rs → ℕ
replicas_of_valid rs v = v.replicas

abbrev ready_of : (rs : ReplicaSet) → ValidSet rs → ℕ
ready_of rs v = v.ready

abbrev available_of : (rs : ReplicaSet) → ValidSet rs → ℕ
available_of rs v = v.available

abbrev pub terminating_of : (rs : ReplicaSet) → ValidSet rs → ℕ
terminating_of rs v = v.terminating

-- A status that counts so many.
abbrev counting : DeploymentStatus → ℕ → ℕ → ℕ → DeploymentStatus
counting s n r a = record s { replicas = pos n; ready_replicas = pos r; available_replicas = pos a }
