-- ===== src/Deployment/Status.antt =====
-- The status of a Deployment: observedInPlaceStatus, deploymentConditions, preserveConditionTime,
-- deploymentComplete, and the new status that updateDeploymentStatus builds.
use Prim.Native.String.{◌++◌ as str_append}
use churnless.Base.{
  Bool, true, false, ◌&&◌, not, none, some, String, List, [], ◌∷◌, ◌++◌, keep, str_eq,
  if◌then◌else◌,
}
use churnless.Int32.{ℤ, pos, add32, sub32, max_ℤ, ltb_ℤ, eqb_ℤ}
use churnless.Api.{
  Time, InPlaceUpdateStatus, ReplicaSet, Deployment, DeploymentStatus, DeploymentCondition,
  ConditionType, available, progressing, ConditionStatus, condition_true, condition_false,
  condition_unknown,
}
use churnless.Action.{Result, ok, err}
use churnless.Upstream.{Upstream}
use churnless.Workload.Template.{mutable_pod_policy_for, revision}
use churnless.Deployment.Totals.{
  desired_replicas, replicas_of, total_old_replicas, total_old_observed_pods, add_optional,
}
use churnless.Deployment.Limits.{is_recreate, rolling_limits}

pub ConditionType-discrete : Discrete ConditionType
ConditionType-discrete = hlevel

abbrev pub same_type : ConditionType → ConditionType → Bool
same_type available available = true
same_type progressing progressing = true
same_type ConditionType.replica_failure ConditionType.replica_failure = true
same_type _ _ = false

abbrev pub same_status : ConditionStatus → ConditionStatus → Bool
same_status condition_true condition_true = true
same_status condition_false condition_false = true
same_status condition_unknown condition_unknown = true
same_status _ _ = false

-- The times of the first condition of the same type, where nothing that they date has changed.
unfoldable pub keep_times : DeploymentCondition → DeploymentCondition → DeploymentCondition
keep_times old new =
    let transition =
      (if same_status old.status new.status
        then old.last_transition_time
        else new.last_transition_time) in
    let update =
      (if same_status old.status new.status
          && str_eq old.reason new.reason
          && str_eq old.message new.message
        then old.last_update_time
        else new.last_update_time) in
    record new { last_update_time = update; last_transition_time = transition }

unfoldable pub preserve_loop : List DeploymentCondition → DeploymentCondition → DeploymentCondition
preserve_loop [] new = new
preserve_loop (old ∷ existing) new =
    if same_type old.type new.type then keep_times old new else preserve_loop existing new

unfoldable pub preserve_condition_time :
    Time → List DeploymentCondition → DeploymentCondition → DeploymentCondition
unfolding preserve_loop keep_times
preserve_condition_time now existing condition =
    preserve_loop existing (record condition { last_update_time = now; last_transition_time = now })

abbrev min_available_or : ℤ → Result (ℤ × ℤ) → ℤ
min_available_or desired (ok (_, max_unavailable)) = max_ℤ (sub32 desired max_unavailable) (pos 0)
min_available_or desired (err e) = desired

abbrev pub is_other : DeploymentCondition → Bool
is_other c = not (same_type c.type available) && not (same_type c.type progressing)

module _ (up : Upstream) where
  unfoldable pub observed_in_place_status : ReplicaSet → InPlaceUpdateStatus
  observed_in_place_status rs =
      let wanted = revision up (mutable_pod_policy_for rs.metadata.annotations) rs.spec.template in
      let none_yet : InPlaceUpdateStatus = record {
        revision = wanted;
        updated_replicas = pos 0;
        ready_updated_replicas = pos 0;
      } in
      if ltb_ℤ rs.status.observed_generation rs.metadata.generation
      then none_yet
      else elim rs.status.in_place [
        | none ↦ none_yet
        | some s ↦ if str_eq s.revision wanted then s else none_yet
      ]

  unfoldable pub min_available : Deployment → ℤ
  min_available workload =
      let desired = desired_replicas workload.spec.replicas in
      if is_recreate workload.spec.strategy.type
      then desired
      else min_available_or desired (rolling_limits up workload desired)

  -- The time stamps are set by preserve_condition_time.
  unfoldable pub available_condition : ℤ → ℤ → DeploymentCondition
  available_condition count minimum =
      if ltb_ℤ count minimum
      then record {
        type = available;
        status = condition_false;
        reason = "MinimumReplicasUnavailable";
        message = str_append "Deployment has " (
            str_append (up.itoa count)
              (str_append " available replicas, requires at least " (up.itoa minimum)));
        last_update_time = 0;
        last_transition_time = 0;
      }
      else record {
        type = available;
        status = condition_true;
        reason = "MinimumReplicasAvailable";
        message = "Deployment has minimum availability";
        last_update_time = 0;
        last_transition_time = 0;
      }

  unfoldable pub progressing_condition : Bool → ℤ → ℤ → ℤ → DeploymentCondition
  progressing_condition paused updated count desired =
      let base : DeploymentCondition = record {
        type = progressing;
        status = condition_true;
        reason = "ReplicaSetUpdated";
        message = str_append "Deployment is updating " (
            str_append (up.itoa updated)
              (str_append " of " (str_append (up.itoa desired) " replicas")));
        last_update_time = 0;
        last_transition_time = 0;
      } in
      if paused
      then record base {
        status = condition_unknown;
        reason = "DeploymentPaused";
        message = "Deployment is paused";
      }
      else (if eqb_ℤ updated desired && eqb_ℤ count desired
          then record base {
            reason = "NewReplicaSetAvailable";
            message = "Deployment rollout is complete";
          }
          else base)

  unfoldable pub deployment_conditions :
      Time → Time → Deployment → DeploymentStatus → List DeploymentCondition
  unfolding min_available available_condition progressing_condition
  deployment_conditions now later workload status =
      let desired = desired_replicas workload.spec.replicas in
      let existing = workload.status.conditions in
      keep is_other existing
      ++ (preserve_condition_time now existing
            (available_condition status.available_replicas (min_available workload))
          ∷ preserve_condition_time later existing (
              progressing_condition workload.spec.paused status.updated_replicas
                status.available_replicas desired)
          ∷ [])

  -- The loop of updateDeploymentStatus over the ReplicaSets.
  unfoldable pub sum_status : DeploymentStatus → ℤ → List ReplicaSet → DeploymentStatus × ℤ
  sum_status status terminating [] = (status, terminating)
  sum_status status terminating (rs ∷ rss) =
      sum_status
        (record status {
          replicas = add32 status.replicas rs.status.replicas;
          ready_replicas = add32 status.ready_replicas rs.status.ready_replicas;
          available_replicas = add32 status.available_replicas rs.status.available_replicas;
        })
        (add_optional terminating rs.status.terminating_replicas) rss

  unfoldable pub deployment_complete : Deployment → ReplicaSet → List ReplicaSet → Bool
  deployment_complete workload current rss =
      let desired = desired_replicas workload.spec.replicas in
      let progress = observed_in_place_status current in
      eqb_ℤ (total_old_replicas current rss) (pos 0)
      && eqb_ℤ (total_old_observed_pods current rss) (pos 0)
      && eqb_ℤ (replicas_of current) desired
      && eqb_ℤ progress.updated_replicas desired
      && eqb_ℤ progress.ready_updated_replicas desired
      && eqb_ℤ current.status.available_replicas desired

  -- The status that updateDeploymentStatus compares with the one that is stored.
  unfoldable pub new_deployment_status :
      Time → Time → Deployment → ReplicaSet → List ReplicaSet → String → DeploymentStatus
  unfolding sum_status deployment_conditions
  new_deployment_status now later workload current rss selector =
      let progress = observed_in_place_status current in
      let start : DeploymentStatus = record {
        observed_generation = workload.metadata.generation;
        replicas = pos 0;
        updated_replicas = pos 0;
        ready_replicas = pos 0;
        available_replicas = pos 0;
        unavailable_replicas = pos 0;
        terminating_replicas = none;
        conditions = [];
        collision_count = workload.status.collision_count;
        selector = "";
        in_place = none;
      } in
      let (sums, terminating) = sum_status start (pos 0) rss in
      let status : DeploymentStatus = record sums {
        terminating_replicas = if ltb_ℤ (pos 0) terminating then some terminating else none;
        updated_replicas = progress.updated_replicas;
        unavailable_replicas = max_ℤ (sub32 sums.replicas sums.available_replicas) (pos 0);
      } in
      record status {
        conditions = deployment_conditions now later workload status;
        selector = selector;
        in_place = some progress;
      }
