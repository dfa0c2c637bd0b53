-- ===== src/Deployment/Limits.antt =====
-- deploymentFenceposts, rollingLimits and deploymentParallelism.
use churnless.Base.{Bool, Option, none, some, List, ◌&&◌, if◌then◌else◌}
use churnless.Int32.{ℤ, pos, ◌-ℤ◌, min_ℤ, max_ℤ, eqb_ℤ}
use churnless.Api.{
  IntOrString, from_string, StrategyType, recreate, RollingUpdate, Deployment, ReplicaSet,
}
use churnless.Action.{Result, ok, bind, wrap_error}
use churnless.Upstream.{Upstream}
use churnless.Deployment.Totals.{desired_replicas, total_available_replicas}

abbrev pub is_recreate : StrategyType → Bool
is_recreate recreate = Bool.true
is_recreate _ = Bool.false

abbrev pub or_default : Option IntOrString → IntOrString → IntOrString
or_default none d = d
or_default (some v) d = v

abbrev pub rolling_fenceposts : Option RollingUpdate → IntOrString × IntOrString
rolling_fenceposts none = (from_string "25%", from_string "25%")
rolling_fenceposts (some r) =
    (or_default r.max_surge (from_string "25%"), or_default r.max_unavailable (from_string "25%"))

-- maxSurge and maxUnavailable, each 25% where it is not given.
unfoldable pub deployment_fenceposts : Deployment → IntOrString × IntOrString
deployment_fenceposts deployment = rolling_fenceposts deployment.spec.strategy.rolling

-- How many more Pods may be down, given those that are already.
unfoldable pub parallelism_left : ℤ → ℤ → ℤ → ℤ
parallelism_left replicas maximum available =
    let unavailable = max_ℤ (replicas -ℤ available) (pos 0) in
    if eqb_ℤ maximum (pos 0) && eqb_ℤ unavailable (pos 0)
    then pos 1
    else max_ℤ (maximum -ℤ unavailable) (pos 0)

module _ (up : Upstream) where
  unfoldable pub rolling_limits : Deployment → ℤ → Result (ℤ × ℤ)
  unfolding deployment_fenceposts
  rolling_limits deployment replicas =
      let (surge, unavailable) = deployment_fenceposts deployment in
      bind
        (wrap_error "resolve rolling update fenceposts"
          (up.resolve_fenceposts surge unavailable replicas))
        λ (max_surge, max_unavailable). ok (max_surge, min_ℤ max_unavailable replicas)

  -- `int` is 64 bits wide, so these differences of int32 numbers do not wrap.
  unfoldable pub deployment_parallelism : Deployment → List ReplicaSet → Result ℤ
  unfolding parallelism_left deployment_fenceposts
  deployment_parallelism deployment rss =
      let replicas = desired_replicas deployment.spec.replicas in
      let (surge, unavailable) = deployment_fenceposts deployment in
      if eqb_ℤ replicas (pos 0)
      then ok (pos 0)
      else (if is_recreate deployment.spec.strategy.type
          then ok replicas
          else bind
              (wrap_error "calculate maxUnavailable"
                (up.resolve_fenceposts surge unavailable replicas))
              λ (_, maximum). ok (parallelism_left replicas maximum (total_available_replicas rss)))
