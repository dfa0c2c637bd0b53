-- ===== src/Witnesses/Rollouts.antt =====
-- The theorems on Deployments at concrete objects.
use churnless.Base.{
  ℕ, ◌+◌, ◌-◌, ◌≤◌, ◌<◌, ◌≡◌, ◌↔◌, ◌⊎◌, max, refl, true, none, some, List, [], ◌∷◌, keep, codes,
  count_if, arith, eq_iff, Option,
}
use churnless.Int32.{ℤ, pos, negsuc, eqb_ℤ, ltb_ℤ, ◌-ℤ◌}
use churnless.Api.{available, progressing, ReplicaSet, InPlaceUpdateStatus, Deployment}
use churnless.Action.{ok}
use churnless.Client.{ObjectKey}
use churnless.Examples.{
  Cluster, example_upstream, example_api, example_set, example_deployment, old_set, new_set,
  cluster,
}
use churnless.Deployment.Totals.{is_same}
use churnless.Deployment.Plan.{InRange}
use churnless.Deployment.Surge.{StaysWithin, rolling_target-StaysWithin}
use churnless.Deployment.Descent.{Descends, rolling_target-Descends}
use churnless.Workload.Structure.{SameStructure, structural_revision-SameStructure}
use churnless.Workload.Template.{redeploy_annotation, structural_key, structural_revision}
use churnless.Upstream.{Upstream}
use churnless.Deployment.Progress.{rolling_target-none_done}
use churnless.Deployment.Counts.{spec_count, sum_old}
use churnless.Deployment.Rolling.{rolling_target}
use churnless.Deployment.Reads.{CountsReads}
use churnless.Deployment.Writes.{CountsWrites}
use churnless.Deployment.OneWrite.{reconcile_one_write}
use churnless.Deployment.Reconcile.{reconcile}
use churnless.Deployment.Totals.{desired_replicas, total_old_replicas, total_old_observed_pods}
use churnless.Deployment.Complete.{IsCurrent, deployment_complete-IsCurrent}
use churnless.Deployment.Status.{
  deployment_complete, deployment_conditions, is_other, preserve_condition_time,
}
use churnless.Deployment.Parallelism.{deployment_parallelism_bound}
use churnless.Deployment.Limits.{deployment_parallelism}
use churnless.Deployment.Conditions.{deployment_conditions-once, preserve_condition_time-transition}

abbrev pub fleet : List ReplicaSet
fleet = old_set ∷ new_set ∷ []

pub fleet-InRange : InRange 3 1 1 new_set fleet
unfolding churnless.Deployment.Counts.sum_spec is_same churnless.Deployment.Totals.desired_replicas
fleet-InRange = ground arith

pub first_step : rolling_target (pos 3) (pos 1) (pos 1) new_set fleet ≡ some (new_set, pos 1)
unfolding rolling_target churnless.Deployment.Totals.total_replica_spec churnless.Int32.add32
    churnless.Int32.wrap churnless.Int32.min_ℤ churnless.Int32.sub32
first_step = refl

rolling_target-StaysWithin_example : (n : ℕ) × (pos 1 ≡ pos n) × StaysWithin 3 1 1 fleet new_set n
rolling_target-StaysWithin_example =
    rolling_target-StaysWithin fleet-InRange new_set (pos 1) first_step

rolling_target-Descends_example : (n : ℕ) × (pos 1 ≡ pos n) × Descends 3 new_set fleet new_set n
rolling_target-Descends_example = rolling_target-Descends fleet-InRange new_set (pos 1) first_step

-- The rollout has finished: the new ReplicaSet has all the replicas.
abbrev finished : List ReplicaSet
finished = example_set "old" 0 0 ∷ example_set "new" 3 3 ∷ []

finished-InRange : InRange 3 1 1 (example_set "new" 3 3) finished
unfolding churnless.Deployment.Counts.sum_spec is_same churnless.Deployment.Totals.desired_replicas
finished-InRange = ground arith

no_step : rolling_target (pos 3) (pos 1) (pos 1) (example_set "new" 3 3) finished ≡ none
unfolding rolling_target
no_step = refl

rolling_target-none_done_example :
    (spec_count (example_set "new" 3 3) ≡ 3) × (sum_old (example_set "new" 3 3) finished ≡ 0)
unfolding desired_replicas
rolling_target-none_done_example =
    rolling_target-none_done finished-InRange (λ h. omega arith) (omega arith, (omega arith, tt))
      no_step

pub cluster-CountsReads :
    (measure : Cluster → ℕ)
    → ((c : Cluster) (d : Option Deployment) → measure (record c { deployment = d }) ≤ measure c)
    → CountsReads example_api measure
cluster-CountsReads measure status = record {
  clock = λ w. omega arith;
  get = λ k. record { at = λ w. omega arith };
  get_native = λ k. record { at = λ w. omega arith };
  list = λ n. record { at = λ w. omega arith };
  list_pods = λ n s. record { at = λ w. omega arith };
  patch_status = λ a b. record { at = λ w. omega (arith, status w (some b)) };
}

cluster-CountsWrites : CountsWrites example_api (λ w. w.changes)
cluster-CountsWrites = record {
  reads = cluster-CountsReads (λ w. w.changes) (λ w d. omega arith);
  patch = λ a b. record { at = λ w. omega arith };
  delete_native = λ m. record { at = λ w. omega arith };
  create = λ rs. record { at = λ w. omega arith };
  patch_rs = λ a b. record { at = λ w. omega arith };
}

abbrev pub web_key : ObjectKey
web_key = record { namespace = codes "default"; name = codes "web" }

reconcile_one_write_example :
    (reconcile example_upstream example_api web_key cluster).1.changes ≤ cluster.changes + 1
reconcile_one_write_example =
    reconcile_one_write example_upstream example_api (λ w. w.changes) cluster-CountsWrites web_key
      cluster

is_complete :
    deployment_complete example_upstream example_deployment (example_set "new" 3 3) finished ≡ true
unfolding deployment_complete total_old_replicas churnless.Int32.add32 churnless.Int32.wrap
    desired_replicas total_old_observed_pods churnless.Deployment.Status.observed_in_place_status
    churnless.Workload.Template.revision
is_complete = refl

deployment_complete-IsCurrent_example :
    (eqb_ℤ (total_old_replicas (example_set "new" 3 3) finished) (pos 0) ≡ true)
    × (eqb_ℤ (total_old_observed_pods (example_set "new" 3 3) finished) (pos 0) ≡ true)
    × (true ≡ true)
    × (true ≡ true)
    × (status : InPlaceUpdateStatus) × IsCurrent example_upstream (example_set "new" 3 3) status
    × (eqb_ℤ status.updated_replicas (pos 3) ≡ true)
    × (eqb_ℤ status.ready_updated_replicas (pos 3) ≡ true)
unfolding desired_replicas
deployment_complete-IsCurrent_example =
    deployment_complete-IsCurrent example_upstream example_deployment (example_set "new" 3 3)
      finished refl is_complete

deployment_parallelism_bound_example :
    (p : ℕ) × (deployment_parallelism example_upstream example_deployment fleet ≡ ok (pos p))
    × (p ≡ 0 ⊎ (p + (3 - churnless.Deployment.Counts.sum_available fleet) ≤ max 1 1))
    × (0 < p ⊎ (1 ≤ 3 - churnless.Deployment.Counts.sum_available fleet))
unfolding desired_replicas churnless.Deployment.Limits.deployment_fenceposts
deployment_parallelism_bound_example =
    deployment_parallelism_bound example_upstream example_deployment fleet 3 1 (pos 1) (omega arith)
      refl refl refl fleet-InRange.counted (omega (arith, fleet-InRange.total_small))

deployment_conditions-once_example :
    let result =
      deployment_conditions example_upstream 7 8 example_deployment example_deployment.status in
    (count_if (churnless.Deployment.Conditions.has_type available) result ≡ 1)
    × (count_if (churnless.Deployment.Conditions.has_type progressing) result ≡ 1)
    × (keep is_other result ≡ keep is_other example_deployment.status.conditions)
deployment_conditions-once_example =
    deployment_conditions-once example_upstream 7 8 example_deployment example_deployment.status

-- A digest that tells requests to redeploy apart.
abbrev telling : Upstream
telling = record example_upstream { structural_digest = λ k. k.redeploy }

abbrev redeployed : Deployment
redeployed = record example_deployment {
  metadata = record example_deployment.metadata {
    annotations = (redeploy_annotation, "again") ∷ [];
  };
}

structural_revision-SameStructure_example :
    (structural_revision telling example_deployment ≡ structural_revision telling redeployed)
    ↔ SameStructure example_deployment redeployed
unfolding structural_key churnless.StringMap.lookup
structural_revision-SameStructure_example =
    structural_revision-SameStructure telling example_deployment redeployed
      (λ h. absurd (ground (arith, h, eq_iff "" "again")))
