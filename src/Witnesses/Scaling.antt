-- ===== src/Witnesses/Scaling.antt =====
-- The theorems on the Pods that are counted and deleted, at concrete Pods.
use churnless.Base.{◌≤◌, ◌≡◌, min, refl, true, false, [], ◌∷◌, codes, count_if, arith}
use churnless.Examples.{
  example_upstream, example_api, example_template, example_pod, container_of, old_set,
}
use churnless.Workload.Template.{MutablePodPolicy}
use churnless.Workload.Progress.{all_pods, calculate_progress}
use churnless.Workload.Counted.{is_updated, is_ready, counts, calculate_progress-counts}
use churnless.ReplicaSet.Replicas.{scale_down}
use churnless.ReplicaSet.Deleted.{OrdersPods, LogsDeletions}
use churnless.ReplicaSet.Deletion.{ScalesDown, scale_down-ScalesDown}
use churnless.Workload.Resources.{set_pod_resizable_resources, pod_has_resizable_resources}
use churnless.Workload.Resources.Laws.{set_pod_resizable_resources-has}
use churnless.Api.{ResourceRequirements, PodSpec, PodTemplateSpec, Pod}
use churnless.Action.{Result, ok, err}
use churnless.Action.Returns.{Holds}
use churnless.ReplicaSet.Claim.{pod_candidates}
use churnless.ReplicaSet.Candidates.{IsAscending, pod_candidates-IsAscending}
use churnless.ReplicaSet.Coverage.{Covered, pod_candidates-Covers}
use churnless.Examples.{Cluster, app_labels, owned_by, metadata_of, first_pod, or_missing}
use churnless.Client.{ObjectKey}
use churnless.Base.{Bool-cases, inl, inr, ◌&&◌, List}
use churnless.Deployment.Actions.{key_of}
use churnless.ReplicaSet.Pods.{same_bytes}
use churnless.ReplicaSet.DistinctKeys.{same_bytes-eq}
use churnless.Base.{String}
use churnless.StringMap.{StringMap}
use churnless.Client.{Client}
use churnless.ReplicaSet.Replicas.{related_replica_sets, related_pods}
use churnless.ReplicaSet.Related.{controlled, SameOrder, related_pods-SameOrder}
use churnless.Witnesses.Replicas.{two_distinct}
use churnless.Witnesses.Pods.{two_pods, in_cluster}

abbrev policy : MutablePodPolicy
policy = record { resize_resources = false }

example_orders : OrdersPods example_upstream
example_orders = record {
  asym = λ a b m n now h. ground (arith, h);
  trans = λ a b c l m n now h k. ground (arith, h, k);
}

example_log : LogsDeletions example_api (λ w. w.removed)
example_log = record {
  delete = λ p w. refl;
  clock = λ w. refl;
  list_sets = λ n. record { at = λ w. refl };
  list_pods = λ n. record { at = λ w. refl };
  list_controlled = λ n uid. record { at = λ w. refl };
}

scale_down-ScalesDown_example :
    let (answer, w) =
      scale_down example_upstream example_api true old_set two_pods 1 (in_cluster two_pods) in
    ScalesDown example_upstream example_api
      (λ w. w.removed)
      example_log
      true
      old_set
      two_pods
      (min 1 500)
      (in_cluster two_pods)
      answer
      w.removed
scale_down-ScalesDown_example =
    scale_down-ScalesDown example_upstream example_api (λ w. w.removed) example_log example_orders
      true old_set two_pods 1 (in_cluster two_pods) (omega arith)

calculate_progress-counts_example :
    let updated =
      count_if (is_updated example_upstream example_template all_pods policy) two_pods in
    let ready = count_if (is_ready example_upstream example_template all_pods policy) two_pods in
    let total = count_if all_pods two_pods in
    (calculate_progress example_upstream example_template all_pods policy two_pods
      ≡ counts example_upstream example_template all_pods policy updated ready total)
    × (ready ≤ updated)
    × (updated ≤ total)
calculate_progress-counts_example =
    calculate_progress-counts example_upstream example_template all_pods policy two_pods
      (omega arith)

abbrev two_cpus : ResourceRequirements
two_cpus = record { requests = ("cpu", "2") ∷ []; limits = []; claims = [] }

abbrev sized : PodSpec → PodSpec
sized spec = record spec {
  containers = record (container_of "main" "web:1") { resources = two_cpus } ∷ [];
}

abbrev larger : PodTemplateSpec
larger = record example_template { spec = sized example_template.spec }

abbrev small : Pod
small = example_pod (codes "web-1") []

abbrev resized : Pod
resized = record small { spec = sized small.spec }

resized_now : set_pod_resizable_resources small larger ≡ ok resized
unfolding set_pod_resizable_resources churnless.Workload.Resources.set_container_resources
    churnless.Workload.Resources.set_resources churnless.Workload.Resources.resize
    churnless.Workload.Images.has_container churnless.Workload.Template.clear_resizable
    churnless.Workload.Template.resizable_resources churnless.StringMap.keep_keys
    churnless.StringMap.copy churnless.StringMap.put churnless.StringMap.delete
resized_now = refl

set_pod_resizable_resources-has_example :
    pod_has_resizable_resources example_upstream resized larger ≡ true
set_pod_resizable_resources-has_example =
    set_pod_resizable_resources-has example_upstream (record { equal = λ a b m n k. refl }) small
      resized larger (tt, tt) resized_now

found_key :
    (key : ObjectKey) (ps : List Pod)
    → Holds (λ pod. key_of pod.metadata ≡ key) (or_missing (first_pod key ps))
found_key key [] = tt
found_key key (p ∷ ps) =
    elim (Bool-cases
      (same_bytes p.metadata.namespace key.namespace && same_bytes p.metadata.name key.name)) [
        | inl e ↦
            let namespace = same_bytes-eq p.metadata.namespace key.namespace (ground (arith, e)) in
            let name = same_bytes-eq p.metadata.name key.name (ground (arith, e)) in
            rw e (λ i. record { namespace = namespace i; name = name i })
        | inr e ↦ rw e (found_key key ps)
      ]

-- A Pod that matches, and one that is controlled and does not match.
abbrev renamed : Pod
renamed = record (example_pod (codes "web-0") (owned_by "old")) {
  metadata = metadata_of (codes "web-0") "pod-uid" [] (owned_by "old");
}

pod_candidates-IsAscending_example :
    Holds IsAscending
      (pod_candidates example_upstream example_api true old_set app_labels
        (in_cluster (small ∷ renamed ∷ []))).0
pod_candidates-IsAscending_example =
    pod_candidates-IsAscending example_upstream example_api
      (record { live = λ key. record { at = λ w. found_key key w.pods } }) old_set app_labels
      (in_cluster (small ∷ renamed ∷ []))

-- What podCandidates makes of the Pod that matches and of the other one.
abbrev candidates : Result (List Pod) × Cluster
candidates =
    pod_candidates example_upstream example_api true old_set app_labels
      (in_cluster (small ∷ renamed ∷ []))

abbrev listed : Result (List Pod) → List Pod
listed (ok pods) = pods
listed (err e) = []

candidates_found : candidates ≡ (ok (listed candidates.0), candidates.1)
unfolding pod_candidates churnless.Workload.Metadata.has_values churnless.StringMap.lookup
candidates_found = refl

pod_candidates-Covers_example :
    Covered example_api
      (small ∷ [])
      (renamed ∷ [])
      (in_cluster (small ∷ renamed ∷ []))
      candidates.1
      (listed candidates.0)
unfolding churnless.Workload.Metadata.has_values churnless.StringMap.lookup
pod_candidates-Covers_example =
    pod_candidates-Covers example_upstream example_api
      (record { live = λ key. record { at = λ w. found_key key w.pods } }) old_set app_labels
      (small ∷ []) (renamed ∷ []) (listed candidates.0) (in_cluster (small ∷ renamed ∷ []))
      (in_cluster (small ∷ renamed ∷ [])) (in_cluster (small ∷ renamed ∷ [])) candidates.1 refl refl
      candidates_found

-- An index that knows of every Pod.
abbrev indexed_api : Client StringMap
indexed_api = record example_api {
  cached_list_controlled_pods = λ n uid w. (ok (controlled example_upstream uid w.pods), w);
}

abbrev uids_read : Result (List String) × Cluster
uids_read = related_replica_sets example_upstream indexed_api old_set (in_cluster two_pods)

uids_found : uids_read ≡ (ok ("old" ∷ "new" ∷ []), in_cluster two_pods)
unfolding related_replica_sets churnless.ReplicaSet.Replicas.siblings churnless.StringMap.has_key
uids_found = refl

related_pods-SameOrder_example :
    (listed : List Pod) × (indexed : List Pod) × (w2 : Cluster) × (w3 : Cluster) × (related_pods
        example_upstream indexed_api false old_set
        (in_cluster two_pods)
      ≡ (ok listed, w2))
    × (related_pods example_upstream indexed_api true old_set (in_cluster two_pods)
        ≡ (ok indexed, w3))
    × SameOrder example_upstream indexed_api old_set listed indexed
related_pods-SameOrder_example =
    related_pods-SameOrder example_upstream indexed_api old_set (λ w. w.pods) ("old" ∷ "new" ∷ [])
      (in_cluster two_pods) (in_cluster two_pods)
      (record { listed = λ w. (w, refl); indexed = λ uid w. (w, refl, refl) }) two_distinct
      uids_found
