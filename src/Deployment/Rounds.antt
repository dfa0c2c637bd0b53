-- ===== src/Deployment/Rounds.antt =====
-- A rollout over many runs of the reconciler: what a run writes, and what the ReplicaSets report in
-- between, in any order.
pub mod Kept
pub mod Reached
pub mod Converges
pub mod Refines
use churnless.Base.{ℕ, ◌<◌, ◌≡◌, Option, none, some, Bool, List, map, All, if◌then◌else◌}
use churnless.Int32.{pos, limit}
use churnless.Api.{ReplicaSet, ReplicaSetStatus}
use churnless.Deployment.Totals.{is_same}
use churnless.Deployment.Counts.{spec_count, status_count, IsCounted, sum_spec, sum_old}
use churnless.Deployment.Fleet.{with_replicas}
use churnless.Deployment.Rolling.{rolling_target}
use churnless.Deployment.Plan.{InRange}

-- The ReplicaSets of a Deployment, and the one of its current revision.
pub record Fleet : Type 0 where
  pub current : ReplicaSet
  pub sets : List ReplicaSet

-- One change, made to each ReplicaSet.
abbrev pub changed : (ReplicaSet → ReplicaSet) → Fleet → Fleet
changed f fleet = record { current = f fleet.current; sets = map f fleet.sets }

-- The ReplicaSet is `t`, scaled to `n`, or another one.
abbrev pub scale_to : ReplicaSet → ℕ → ReplicaSet → ReplicaSet
scale_to t n rs = if is_same rs t then with_replicas rs n else rs

abbrev pub with_status : (ReplicaSet → ReplicaSetStatus) → ReplicaSet → ReplicaSet
with_status report rs = record rs { status = report rs }

-- A report in the range of int32, with no negative count.
abbrev pub IsReport : (ReplicaSet → ReplicaSetStatus) → Fleet → Type 0
IsReport report fleet =
    All (λ rs. IsCounted (with_status report rs) × (status_count (with_status report rs) < limit))
      fleet.sets

-- A run scales what rolling_target has chosen; or the ReplicaSets report something else.
pub data Step (d s u : ℕ) (fleet : Fleet) : Fleet → Type 0 where
  roll :
      (t : ReplicaSet) (k : ℕ)
      → rolling_target (pos d) (pos s) (pos u) fleet.current fleet.sets ≡ some (t, pos k)
      → Step d s u fleet (changed (scale_to t k) fleet)
  observe :
      (report : ReplicaSet → ReplicaSetStatus)
      → IsReport report fleet
      → Step d s u fleet (changed (with_status report) fleet)

pub data Reach (d s u : ℕ) (start : Fleet) : Fleet → Type 0 where
  here : Reach d s u start start
  next : {f g : Fleet} → Reach d s u start f → Step d s u f g → Reach d s u start g

-- How many runs of a history have scaled a ReplicaSet.
pub rolls : {d s u : ℕ} {start fleet : Fleet} → Reach d s u start fleet → ℕ
rolls here = 0
rolls (next r (roll t k e)) = ℕ.suc (rolls r)
rolls (next r (observe report h)) = rolls r
