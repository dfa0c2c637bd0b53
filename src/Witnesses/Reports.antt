-- ===== src/Witnesses/Reports.antt =====
-- The theorems on what the controllers report, at concrete ReplicaSets.
use churnless.Base.{◌≡◌, refl, false, List, [], ◌∷◌, arith, codes}
use churnless.Api.{Pod, ReplicaSet}
use churnless.Action.{not_found}
use churnless.Client.{ObjectKey}
use churnless.Examples.{
  Cluster, example_upstream, example_api, example_template, example_set, app_labels, old_set,
  new_set, cluster,
}
use churnless.Workload.Update.{with_metadata}
use churnless.Deployment.Valid.{ValidSet}
use churnless.ReplicaSet.Pods.{active_replica_set_pods}
use churnless.ReplicaSet.Reconcile.{reconcile}
use churnless.ReplicaSet.Settled.{IsAtRest, active, owned, in_order, reports, reconcile_at_rest}
use churnless.Witnesses.Pods.{web_pod, second_pod, images_only}

abbrev old_valid : ValidSet old_set
old_valid = record {
  replicas = 3;
  labeled = 3;
  ready = 3;
  available = 3;
  terminating = 0;
  replicas_eq = refl;
  labeled_eq = refl;
  ready_eq = refl;
  available_eq = refl;
  terminating_eq = refl;
  in_place_valid = (3, 3, refl, refl, omega arith, omega arith);
  replicas_small = omega arith;
  labeled_le = omega arith;
  ready_le = omega arith;
  available_le = omega arith;
}

abbrev new_valid : ValidSet new_set
new_valid = record {
  replicas = 0;
  labeled = 0;
  ready = 0;
  available = 0;
  terminating = 0;
  replicas_eq = refl;
  labeled_eq = refl;
  ready_eq = refl;
  available_eq = refl;
  terminating_eq = refl;
  in_place_valid = (0, 0, refl, refl, omega arith, omega arith);
  replicas_small = omega arith;
  labeled_le = omega arith;
  ready_le = omega arith;
  available_le = omega arith;
}

-- Two Pods that the ReplicaSet has updated.
abbrev updated_pods : List Pod
updated_pods =
    with_metadata example_upstream images_only example_template web_pod
    ∷ with_metadata example_upstream images_only example_template second_pod
    ∷ []

abbrev two_replicas : ReplicaSet
two_replicas = example_set "old" 2 2

abbrev resting : Cluster
resting = record cluster { replica_sets = two_replicas ∷ []; pods = updated_pods }

abbrev old_key : ObjectKey
old_key = record { namespace = codes "default"; name = codes "old" }

at_rest : IsAtRest example_upstream example_api two_replicas updated_pods app_labels
unfolding with_metadata churnless.Workload.Metadata.set_pod_metadata
    churnless.Workload.Metadata.has_values churnless.StringMap.lookup churnless.StringMap.copy
    churnless.StringMap.put churnless.StringMap.has_key churnless.StringMap.delete
    active_replica_set_pods churnless.Workload.Progress.spec_matches
    churnless.Workload.Metadata.pod_metadata_matches churnless.Workload.Images.pod_spec_has_images
    churnless.Workload.Template.mutable_pod_policy_for churnless.Workload.Progress.resize_infeasible
at_rest = record {
  claimed = (refl, (refl, tt));
  counted = refl;
  updated = (
    record { matches = refl; feasible = refl },
    (record { matches = refl; feasible = refl }, tt),
  );
}

reconcile_at_rest_example :
    reconcile example_upstream example_api 1 false old_key resting
    ≡ reports example_upstream example_api two_replicas
        (in_order example_upstream example_api two_replicas
          (active example_upstream example_api two_replicas app_labels updated_pods))
        (active_replica_set_pods
          (owned example_upstream example_api two_replicas app_labels updated_pods)).1
        app_labels
        resting
unfolding churnless.ReplicaSet.Claim.pod_candidates
reconcile_at_rest_example =
    reconcile_at_rest example_upstream example_api two_replicas 1 false old_key resting resting
      resting resting (record { reason = not_found; context = [] }) updated_pods app_labels refl
      refl refl refl refl at_rest
