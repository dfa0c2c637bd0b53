-- ===== src/Witnesses/Updates.antt =====
-- The theorems on in-place updates at concrete Pods.
use churnless.Base.{
  ℕ, ◌+◌, ◌-◌, ◌≤◌, ◌≡◌, ◌⊎◌, max, inr, refl, true, List, [], ◌∷◌, length, arith, codes, All,
}
use churnless.Int32.{ℤ, pos}
use churnless.Api.{pod_running, PodStatus, Pod, ReplicaSet}
use churnless.Action.{Result, ok, err}
use churnless.Examples.{
  Cluster, example_upstream, example_api, example_template, example_deployment, old_set,
}
use churnless.Workload.Progress.{
  ready_and_observed, resize_infeasible, spec_matches, all_pods, requeue_while_updating,
  calculate_progress,
}
use churnless.Workload.Update.{update_pod, update_pods}
use churnless.Workload.Update.Accepted.{Accepts, HasContainers, IsUpdated, update_pod-IsUpdated}
use churnless.Base.{◌+◌, ◌-◌}
use churnless.Witnesses.Pods.{second_pod}
use churnless.Workload.Update.History.{flight, started, updated, changed, Reached-flight}
use churnless.Workload.Update.Outdated.{IsUpdatable}
use churnless.Workload.Update.Rollout.{Nodes, ready_pods, rounds, rounds_ready}
use churnless.Workload.Resources.Laws.{EqualByEntries}
use churnless.Deployment.Actions.{synced}
use churnless.Deployment.Counts.{sum_available}
use churnless.ReplicaSet.Disruption.{updates, flying, in_place_disruption}
use churnless.Witnesses.Rollouts.{fleet, fleet-InRange}
use churnless.Witnesses.Pods.{web_pod, two_pods, in_cluster, images_only, example_template-IsPlain}

example_accepts : Accepts example_upstream example_api
example_accepts = record { patched = λ a b w. (_, refl); resized = λ p w. (_, refl) }

example_semantics : EqualByEntries example_upstream
example_semantics = record { equal = λ a b r l c. refl }

has_containers : HasContainers example_template web_pod
unfolding churnless.Workload.Images.has_container
has_containers = record { inits = tt; containers = (refl, tt) }

update_pod-IsUpdated_example :
    (after : Pod) × (w' : Cluster) × (update_pod example_upstream example_api images_only
        example_template web_pod
        (in_cluster two_pods)
      ≡ (ok after, w'))
    × IsUpdated example_upstream images_only example_template example_template-IsPlain web_pod after
update_pod-IsUpdated_example =
    update_pod-IsUpdated example_upstream images_only example_template example_template-IsPlain
      example_semantics example_api example_accepts web_pod (in_cluster two_pods) has_containers

-- What the first run makes of two Pods.
abbrev run : Result (List Pod) × Cluster
run =
    update_pods example_upstream example_api images_only example_template all_pods (pos 1) two_pods
      (in_cluster two_pods)

abbrev pods_of : Result (List Pod) → List Pod
pods_of (ok pods) = pods
pods_of (err e) = []

first_run : run ≡ (ok (pods_of run.0), run.1)
unfolding update_pods churnless.Base.sort_stable churnless.Workload.Progress.resize_infeasible
    churnless.Workload.Progress.spec_matches churnless.Workload.Metadata.pod_metadata_matches
    churnless.StringMap.lookup churnless.StringMap.has_key churnless.Workload.Images.set_pod_images
first_run = refl

-- Another Pod comes after the run.
abbrev with_another : List Pod
with_another = second_pod ∷ pods_of run.0

Reached-flight_example :
    flight example_upstream example_api images_only example_template all_pods with_another
    ≤ max (flight example_upstream example_api images_only example_template all_pods two_pods) 1
      + (0
          + (flight example_upstream example_api images_only example_template all_pods with_another
              - flight example_upstream example_api images_only example_template all_pods
                  (pods_of run.0)))
Reached-flight_example =
    Reached-flight example_upstream example_api images_only example_template all_pods
      (changed with_another (updated 1 (in_cluster two_pods) run.1 started (omega arith) first_run))

-- The nodes run the containers of the template.
abbrev running : PodStatus
running = record {
  phase = pod_running;
  resize = "";
  init_container_statuses = [];
  container_statuses = record { name = "main"; image = "web:1" } ∷ [];
  rest = "";
}

still_matches :
    (pod : Pod)
    → spec_matches example_upstream images_only pod example_template ≡ true
    → spec_matches example_upstream images_only (record pod { status = running }) example_template
      ≡ true
unfolding spec_matches churnless.Workload.Metadata.pod_metadata_matches
    churnless.Workload.Images.pod_spec_has_images
still_matches pod h = h

example_nodes : Nodes example_upstream images_only example_template
unfolding ready_and_observed resize_infeasible churnless.Workload.Images.statuses_have_images
example_nodes = record {
  status_of = λ pod. running;
  observed = λ pod h. rw (ready_and_observed, still_matches pod h) refl;
  feasible = λ pod. refl;
}

updatable : All (IsUpdatable example_upstream images_only example_template) two_pods
unfolding churnless.Workload.Images.has_container resize_infeasible
updatable = (
  record { has = has_containers; feasible = refl },
  (record { has = record { inits = tt; containers = (refl, tt) }; feasible = refl }, tt),
)

rounds_ready_example :
    (after : List Pod) × (w' : Cluster) × (rounds example_upstream images_only example_template
        example_template-IsPlain example_semantics example_api example_accepts example_nodes 1 3
        two_pods
        (in_cluster two_pods)
      ≡ (ok after, w'))
    × (length after ≡ 2)
    × (ready_pods example_upstream images_only example_template after ≡ 2)
    × (requeue_while_updating
          (calculate_progress example_upstream example_template all_pods images_only after)
        ≡ 0)
unfolding spec_matches churnless.Workload.Metadata.pod_metadata_matches churnless.StringMap.lookup
    churnless.StringMap.has_key
rounds_ready_example =
    rounds_ready example_upstream images_only example_template example_template-IsPlain
      example_semantics example_api example_accepts example_nodes 0 2 two_pods (in_cluster two_pods)
      updatable (omega arith) (omega arith)

-- The Deployment lets one Pod be updated at a time.
abbrev written : ReplicaSet
written = synced example_upstream example_deployment old_set "0123456789" (pos 1)

abbrev update : Result (List Pod) × Cluster
update = updates example_upstream example_api written two_pods (in_cluster two_pods)

update_succeeds : update ≡ (ok (pods_of update.0), update.1)
unfolding update_pods churnless.ReplicaSet.Pods.replica_set_parallelism churnless.StringMap.lookup
    synced churnless.Workload.Template.apply_resource_policy
    churnless.Workload.Template.mutable_pod_policy_for churnless.StringMap.delete
    churnless.StringMap.put churnless.Base.sort_stable churnless.Workload.Progress.resize_infeasible
    spec_matches churnless.Workload.Metadata.pod_metadata_matches
    churnless.Workload.Images.set_pod_images
update_succeeds = refl

in_place_disruption_example :
    (flying example_upstream example_api written (pods_of update.0)
      ≤ flying example_upstream example_api written two_pods)
    ⊎ (flying example_upstream example_api written (pods_of update.0) + (3 - sum_available fleet)
        ≤ max 1 1)
unfolding churnless.Deployment.Totals.desired_replicas
    churnless.Deployment.Limits.deployment_fenceposts
    churnless.Deployment.Limits.deployment_parallelism churnless.Int32.max_ℤ
    churnless.Deployment.Totals.total_available_replicas churnless.Int32.add32 churnless.Int32.wrap
    churnless.Int32.min_ℤ
in_place_disruption_example =
    in_place_disruption example_upstream example_api example_deployment fleet old_set "0123456789" 3
      1 (pos 1) (pos 1) two_pods (pods_of update.0) (in_cluster two_pods) update.1 (omega arith)
      refl refl refl fleet-InRange.counted (omega (arith, fleet-InRange.total_small)) refl refl refl
      update_succeeds
