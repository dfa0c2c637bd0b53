-- ===== src/Deployment/Surge.antt =====
-- The RollingUpdate fenceposts: no step of a rollout passes maxSurge, or gives up availability that
-- maxUnavailable does not allow.
use churnless.Base.{ℕ, ◌+◌, ◌-◌, ◌≤◌, ◌<◌, ◌≡◌, min, max, some, List, arith}
use churnless.Int32.{ℤ, pos}
use churnless.Api.{ReplicaSet}
use churnless.Deployment.Counts.{spec_count, status_count, sum_spec, sum_available, sum_old}
use churnless.Deployment.Fleet.{
  HasOnce, scaled, sum_spec-scaled, sum_available-scaled, sum_spec-split, sum_available-ge,
  sum_available-le-current,
}
use churnless.Deployment.Rolling.{rolling_target}
use churnless.Deployment.Plan.{numbers_of, InRange}
use churnless.Deployment.Moves.{Shrinks, decrease_bounds, rolling_target-cases}

-- What a step of the rollout does to the fleet.
pub record StaysWithin (desired surge unavailable : ℕ) (rss : List ReplicaSet) (t : ReplicaSet)
    (k : ℕ) : Type 0 where
  pub once : HasOnce t rss
  pub surge_kept : sum_spec (scaled t k rss) ≤ max (sum_spec rss) (desired + surge)
  pub available_kept :
      min (sum_available rss) (desired - unavailable) ≤ sum_available (scaled t k rss)

module _ {d s u : ℕ} {current : ReplicaSet} {rss : List ReplicaSet}
    (r : InRange d s u current rss) where
  grow-StaysWithin :
      spec_count current < d
      → sum_spec rss < d + s
      → StaysWithin d s u rss current
          (spec_count current + min (d - spec_count current) (d + s - sum_spec rss))
  grow-StaysWithin h k =
      let n = spec_count current + min (d - spec_count current) (d + s - sum_spec rss) in
      record {
        once = r.current_once;
        surge_kept = omega (arith, sum_spec-scaled current n rss r.current_once);
        available_kept = omega (arith, sum_available-scaled current n rss r.current_once);
      }

  shrink-StaysWithin :
      (t : ReplicaSet) (k : ℕ)
      → Shrinks (numbers_of d u current rss) current t rss k
      → StaysWithin d s u rss t k
  shrink-StaysWithin t k h =
      let b = decrease_bounds (numbers_of d u current rss) (spec_count t) (status_count t) in
      record {
        once = h.once;
        surge_kept = omega (arith, h.kept, sum_spec-scaled t k rss h.once);
        available_kept = omega (arith, h.kept, b, sum_available-scaled t k rss h.once);
      }

  settle-StaysWithin : sum_old current rss ≡ 0 → StaysWithin d s u rss current d
  settle-StaysWithin h = record {
    once = r.current_once;
    surge_kept = omega (
      arith,
      sum_spec-scaled current d rss r.current_once,
      sum_spec-split current rss r.current_once,
    );
    available_kept = omega (
      arith,
      sum_available-scaled current d rss r.current_once,
      sum_available-ge current rss r.current_once,
      sum_available-le-current current rss r.current_once,
    );
  }

  -- For ReplicaSets with counts in range (InRange), whatever the rolling update scales next, the total
  -- stays within desired + maxSurge (or does not grow), and the availability that is still asked for
  -- does not fall below desired - maxUnavailable (or does not fall at all).
  pub rolling_target-StaysWithin :
      (t : ReplicaSet) (k : ℤ)
      → rolling_target (pos d) (pos s) (pos u) current rss ≡ some (t, k)
      → (n : ℕ) × (k ≡ pos n) × StaysWithin d s u rss t n
  rolling_target-StaysWithin =
      rolling_target-cases r (StaysWithin d s u rss) grow-StaysWithin shrink-StaysWithin
        (λ _. settle-StaysWithin)
