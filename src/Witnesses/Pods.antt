-- ===== src/Witnesses/Pods.antt =====
-- The theorems on Pods and ReplicaSets at concrete objects.
use churnless.Base.{
  ℕ, suc, ◌+◌, ◌-◌, ◌*◌, ◌≤◌, ◌<◌, ◌≡◌, ◌&&◌, min, refl, Bool, true, false, not, Option, none, some,
  String, List, [], ◌∷◌, ◌++◌, keep, map, codes, length, count_if, str_eq, arith, if◌then◌else◌,
}
use churnless.Int32.{pos, ◌-ℤ◌}
use churnless.StringMap.{lookup}
use churnless.Api.{Pod}
use churnless.Action.{ok, err, Action, new_error}
use churnless.Examples.{
  Cluster, example_upstream, example_api, owned_by, app_labels, example_template, example_pod,
  old_set, cluster,
}
use churnless.SlowStart.{slow_start_batch}
use churnless.SlowStart.Attempts.{slow_start_attempts}
use churnless.Workload.Template.{MutablePodPolicy}
use churnless.Workload.Metadata.{
  decode_managed_keys, managed_template_label_keys, managed_template_annotation_keys,
  pod_metadata_matches, set_labels,
}
use churnless.Workload.Metadata.Laws.{KeyCodec}
use churnless.Workload.Update.{is_in_flight, update_pods}
use churnless.Workload.Update.Budget.{update_pods_budget}
use churnless.ReplicaSet.Claim.{claim_loop}
use churnless.Workload.Update.Converges.{IsPlain}
use churnless.Base.{inl, inr, ◌⊎◌}
use churnless.ReplicaSet.Ownership.{is_claimed, claim_loop_unchanged}
use churnless.ReplicaSet.Replicas.{reconcile_replicas}
use churnless.ReplicaSet.Burst.{distance, reconcile_replicas_burst}
use churnless.Deployment.Totals.{desired_replicas}

-- A call that succeeds five times and then fails; the state counts the calls.
abbrev five_times : Action ℕ (Unit {0})
five_times n = (if churnless.Base.ltb n 5 then ok tt else err (new_error "quota"), suc n)

slow_start_attempts_example :
    let r = slow_start_batch five_times 10 1 0 in (r.1 ≤ 0 + 10) × (r.1 ≤ 0 + 2 * r.0.successes + 1)
slow_start_attempts_example =
    slow_start_attempts five_times (λ n. n) (λ w. refl) 10 1 0 (omega arith)

label_codec : KeyCodec example_upstream (managed_template_label_keys app_labels)
unfolding managed_template_label_keys
label_codec = record { unmarshal-marshal = refl; has_key-sorted = λ k. refl }

annotation_codec : KeyCodec example_upstream (managed_template_annotation_keys [])
unfolding managed_template_annotation_keys
annotation_codec = record { unmarshal-marshal = refl; has_key-sorted = λ k. refl }

abbrev pub web_pod : Pod
web_pod = example_pod (codes "web-1") (owned_by "old")

abbrev pub in_cluster : List Pod → Cluster
in_cluster pods = record cluster { pods = pods }

abbrev pub second_pod : Pod
second_pod = example_pod (codes "web-2") (owned_by "old")

abbrev pub two_pods : List Pod
two_pods = web_pod ∷ second_pod ∷ []

abbrev pub images_only : MutablePodPolicy
images_only = record { resize_resources = false }

abbrev patched_pods : Cluster → ℕ
patched_pods w = w.pod_patches

update_pods_budget_example :
    patched_pods
      (update_pods example_upstream example_api images_only example_template
        (λ p. true)
        (pos 1)
        two_pods
        (in_cluster two_pods)).1
    ≤ patched_pods (in_cluster two_pods)
      + (1
          - count_if
              (λ pod. true && is_in_flight example_upstream images_only example_template pod)
              two_pods)
update_pods_budget_example =
    update_pods_budget example_upstream example_api patched_pods
      (λ a b. record { at = λ w. omega arith }) (λ p. record { at = λ w. omega arith })
      (λ p. record { at = λ w. omega arith }) images_only example_template (λ p. true) 1 two_pods
      (in_cluster two_pods)

-- The last Pod belongs to another ReplicaSet.
abbrev three_pods : List Pod
three_pods = two_pods ++ example_pod (codes "db-1") (owned_by "db") ∷ []

all_stay :
    claim_loop example_upstream example_api old_set app_labels [] three_pods cluster
    ≡ (ok (two_pods, false), cluster)
unfolding claim_loop churnless.Workload.Metadata.has_values lookup
all_stay = refl

claim_loop_unchanged_example :
    (two_pods ≡ [] ++ keep (is_claimed example_upstream example_api old_set app_labels) three_pods)
    × (cluster ≡ cluster)
claim_loop_unchanged_example =
    claim_loop_unchanged example_upstream example_api old_set app_labels [] three_pods two_pods
      cluster cluster all_stay

reconcile_replicas_burst_example :
    let off = desired_replicas old_set.spec.replicas -ℤ pos (length two_pods) in
    (reconcile_replicas example_upstream example_api 1 true old_set two_pods
      (in_cluster two_pods)).1.changes
    ≤ 0 + min (distance off) 500
reconcile_replicas_burst_example =
    reconcile_replicas_burst example_upstream example_api (λ w. w.changes)
      (λ p. record { at = λ w. omega arith }) (λ p. record { at = λ w. omega arith })
      (λ w. omega arith) (λ n. record { at = λ w. omega arith })
      (λ n. record { at = λ w. omega arith }) (λ n uid. record { at = λ w. omega arith }) 1 true
      old_set two_pods (in_cluster two_pods)

pub example_template-IsPlain : IsPlain example_upstream example_template
example_template-IsPlain = record {
  inits = tt;
  containers = (tt, tt);
  labels = (tt, tt);
  annotations = tt;
  own_free = tt;
  label_codec = label_codec;
  annotation_codec = annotation_codec;
}
