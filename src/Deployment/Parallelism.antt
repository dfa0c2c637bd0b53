-- ===== src/Deployment/Parallelism.antt =====
-- The in-place budget of deploymentParallelism.
use churnless.Base.{
  ℕ, ◌+◌, ◌-◌, ◌≤◌, ◌<◌, ◌≡◌, refl, ◌⊎◌, max, false, ◌&&◌, List, All, arith, ◌==◌, if◌then◌else◌,
}
use churnless.Int32.{ℤ, pos, limit, max_ℤ, eqb_ℤ}
use churnless.Api.{Deployment, ReplicaSet}
use churnless.Action.{ok}
use churnless.Upstream.{Upstream}
use churnless.Deployment.Totals.{desired_replicas}
use churnless.Deployment.Counts.{IsCounted, sum_spec, sum_available, total_available_replicas-eq}
use churnless.Deployment.Limits.{
  is_recreate, deployment_fenceposts, parallelism_left, deployment_parallelism,
}

-- The Pods that are missing, and what the budget leaves of `maximum`.
unfoldable pub budget_left : ℕ → ℕ → ℕ → ℕ
budget_left desired maximum live =
    if maximum == 0 && desired - live == 0 then 1 else maximum - (desired - live)

parallelism_left-eq :
    (d m a : ℕ) → parallelism_left (pos d) (pos m) (pos a) ≡ pos (budget_left d m a)
unfolding parallelism_left budget_left max_ℤ
parallelism_left-eq d m a = ground arith

budget_left_bounds :
    (d m a : ℕ)
    → let p = budget_left d m a in (p ≡ 0 ⊎ (p + (d - a) ≤ max m 1)) × (0 < p ⊎ (m ≤ d - a))
unfolding budget_left
budget_left_bounds d m a = ground arith

module _ (up : Upstream) where
  -- Where a Deployment that is not Recreate wants `d` > 0 replicas, maxUnavailable resolves to `m`, and
  -- the counts are not negative and their sum fits int32, the in-place budget is a number. With the missing Pods it does not pass `m` (or 1, where `m` is
  -- 0), or it is 0; and it is 0 only where at least `m` Pods are missing.
  pub deployment_parallelism_bound :
      (deployment : Deployment) (rss : List ReplicaSet) (d m : ℕ) (surge : ℤ)
      → 0 < d
      → desired_replicas deployment.spec.replicas ≡ pos d
      → is_recreate deployment.spec.strategy.type ≡ false
      → up.resolve_fenceposts
          (deployment_fenceposts deployment).0
          (deployment_fenceposts deployment).1
          (pos d)
        ≡ ok (surge, pos m)
      → All IsCounted rss
      → sum_spec rss < limit
      → (p : ℕ) × (deployment_parallelism up deployment rss ≡ ok (pos p))
        × (p ≡ 0 ⊎ (p + (d - sum_available rss) ≤ max m 1))
        × (0 < p ⊎ (m ≤ d - sum_available rss))
  unfolding deployment_parallelism
  deployment_parallelism_bound deployment rss d m surge wants e rolling limits counted small =
      let value : deployment_parallelism up deployment rss
          ≡ ok (pos (budget_left d m (sum_available rss))) =
        rw
          (
            deployment_parallelism,
            e,
            nonzero d wants,
            rolling,
            limits,
            total_available_replicas-eq rss counted small,
            parallelism_left-eq,
          )
          refl in
      let (spent, left) = budget_left_bounds d m (sum_available rss) in
      (budget_left d m (sum_available rss), value, spent, left)
    where
      nonzero : (n : ℕ) → 0 < n → eqb_ℤ (pos n) (pos 0) ≡ false
      nonzero n h = ground arith
