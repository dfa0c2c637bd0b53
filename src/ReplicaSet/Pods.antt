-- ===== src/ReplicaSet/Pods.antt =====
-- What the ReplicaSet reconciler computes from Pods: activeReplicaSetPods, podRanks, podKey, the
-- counts of its status, replicaSetParallelism, and compatibility's ComparePodsForDeletion.
use churnless.Base.{
  ℕ, suc, Bool, true, false, ◌&&◌, not, Option, none, some, String, List, [], ◌∷◌, ◌++◌, count_if,
  str_eq, ltb, ◌==◌, if◌then◌else◌,
}
use churnless.Int32.{ℤ, pos, negsuc, wrap, ltb_ℤ}
use churnless.StringMap.{get}
use churnless.Api.{
  Time, ObjectMeta, PodPhase, pod_failed, pod_succeeded, Pod, PodTemplateSpec, ReplicaSet,
}
use churnless.Upstream.{Upstream}
use churnless.Deployment.Actions.{in_place_parallelism_annotation}

abbrev pub has_finished : PodPhase → Bool
has_finished pod_succeeded = true
has_finished pod_failed = true
has_finished _ = false

abbrev pub is_deleted : ObjectMeta → Bool
is_deleted m = elim m.deletion_timestamp [ none ↦ false | some _ ↦ true ]

abbrev pub is_active : Pod → Bool
is_active pod = not (has_finished pod.status.phase) && not (is_deleted pod.metadata)

-- The active Pods, and how many Pods are terminating.
unfoldable pub active_replica_set_pods : List Pod → List Pod × ℕ
active_replica_set_pods [] = ([], 0)
active_replica_set_pods (pod ∷ pods) =
    let (active, terminating) = active_replica_set_pods pods in
    if has_finished pod.status.phase
    then (active, terminating)
    else (if is_deleted pod.metadata
        then (active, suc terminating)
        else (pod ∷ active, terminating))

-- `pod.Namespace + "/" + pod.Name`
abbrev pub pod_key : Pod → List ℕ
pod_key pod = pod.metadata.namespace ++ b'/' ∷ pod.metadata.name

unfoldable pub same_bytes : List ℕ → List ℕ → Bool
same_bytes [] [] = true
same_bytes (x ∷ xs) (y ∷ ys) = x == y && same_bytes xs ys
same_bytes _ _ = false

-- strings.Compare(...) < 0
unfoldable pub bytes_less : List ℕ → List ℕ → Bool
bytes_less [] [] = false
bytes_less [] (y ∷ ys) = true
bytes_less (x ∷ xs) [] = false
bytes_less (x ∷ xs) (y ∷ ys) =
    let rest = bytes_less xs ys in if ltb x y then true else x == y && rest

abbrev later : Option ℕ → Option ℕ → Option ℕ
later none d = d
later (some n) d = some n

-- `onNode[node]`
abbrev pub on_node : List Pod → String → ℕ
on_node related node = count_if (λ pod. str_eq pod.spec.node_name node) related

unfoldable pub rank_loop : List Pod → List Pod → List ℕ → Option ℕ
rank_loop related [] key = none
rank_loop related (pod ∷ pods) key =
    later (rank_loop related pods key)
      (if same_bytes (pod_key pod) key then some (on_node related pod.spec.node_name) else none)

abbrev pub or_zero : Option ℕ → ℕ
or_zero none = 0
or_zero (some n) = n

-- `podRanks(related)[key]`: how many related Pods share the node; 0 for a Pod that is not related.
unfoldable pub pod_rank : List Pod → List ℕ → ℕ
unfolding rank_loop same_bytes
pod_rank related key = or_zero (rank_loop related related key)

abbrev or_one : Option ℤ → ℤ
or_one none = pos 1
or_one (some n) = if ltb_ℤ n (pos 0) then pos 1 else n

module _ (up : Upstream) where
  -- Negative where `left` is to be deleted first.
  unfoldable pub compare_pods_for_deletion : Pod → Pod → ℕ → ℕ → Time → ℤ
  compare_pods_for_deletion left right left_rank right_rank now =
      if up.active_pods_less left right left_rank right_rank now
      then negsuc 0
      else (if up.active_pods_less right left right_rank left_rank now then pos 1 else pos 0)

  -- The budget that the Deployment controller has left in the annotation; 1 where it is not given,
  -- no number, or negative.
  unfoldable pub replica_set_parallelism : ReplicaSet → ℤ
  replica_set_parallelism workload =
      let value = get workload.metadata.annotations in_place_parallelism_annotation in
      if str_eq value "" then pos 1 else or_one (up.atoi value)

  -- The counts are int32.
  unfoldable pub fully_labeled_replicas : List Pod → PodTemplateSpec → ℤ
  fully_labeled_replicas pods template =
      let selector = up.selector_from_set template.labels in
      wrap (pos (count_if (λ pod. up.selector_matches selector pod.metadata.labels) pods))

  unfoldable pub ready_replicas : List Pod → ℤ
  ready_replicas pods = wrap (pos (count_if up.is_pod_ready pods))

  unfoldable pub available_replicas : List Pod → ℤ → Time → ℤ
  available_replicas pods min_ready_seconds now =
      wrap (pos (count_if (λ pod. up.is_pod_available pod min_ready_seconds now) pods))
