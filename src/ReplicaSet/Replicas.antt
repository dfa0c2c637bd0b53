-- ===== src/ReplicaSet/Replicas.antt =====
-- reconcileReplicas, relatedPods and createPod: creates and deletes Pods towards the wanted count.
use churnless.Base.{
  ℕ, zero, suc, Bool, true, false, ◌&&◌, Option, none, some, String, List, [], ◌∷◌, ◌++◌, keep,
  length, min, str_eq, sort_stable, if◌then◌else◌,
}
use churnless.Int32.{ℤ, pos, negsuc, ◌-ℤ◌, ltb_ℤ}
use churnless.StringMap.{put, has_key}
use churnless.Api.{Time, OwnerReference, Pod, PodStatus, pod_pending, ReplicaSet}
use churnless.Action.{
  Result, ok, err, Action, pure, fail, lift, ◌>>=◌, ◌>>◌, infallible, wrapping, ignoring_not_found,
  new_error,
}
use churnless.Upstream.{Upstream}
use churnless.Client.{Client}
use churnless.SlowStart.{Batch, slow_start_batch, burst_replicas}
use churnless.Workload.Template.{mutable_pod_policy_for, revision, revision_annotation}
use churnless.Workload.Metadata.{set_pod_metadata}
use churnless.Deployment.Totals.{desired_replicas}
use churnless.ReplicaSet.Pods.{pod_key, pod_rank, compare_pods_for_deletion, is_active}

-- appsv1alpha1.GroupVersion.String()
abbrev pub group_version : String
group_version = "churnless.io/v1alpha1"

abbrev pub is_deployment_ref : OwnerReference → Bool
is_deployment_ref owner = str_eq owner.api_version group_version && str_eq owner.kind "Deployment"

abbrev no_status : PodStatus
no_status = record {
  phase = pod_pending;
  resize = "";
  init_container_statuses = [];
  container_statuses = [];
  rest = "";
}

-- `relatedReplicaSets[uid] = struct{}{}` for each UID. Go visits the keys of a map in any order; here
-- they keep the order in which they came.
unfoldable pub with_uids : List String → List String → List String
with_uids set [] = set
with_uids set (uid ∷ uids) = with_uids (if has_key uid set then set else set ++ uid ∷ []) uids

abbrev pub controlled_by_uid : String → Option OwnerReference → Bool
controlled_by_uid uid none = false
controlled_by_uid uid (some owner) = str_eq owner.uid uid

abbrev pub owned_by_one_of : List String → Option OwnerReference → Bool
owned_by_one_of uids none = false
owned_by_one_of uids (some owner) = has_key owner.uid uids

module _ (up : Upstream) where
  -- The Pod that createPod sends, before its controller reference is set.
  unfoldable pub new_pod : ReplicaSet → Pod
  new_pod workload =
      let template = workload.spec.template in
      let bare : Pod = record {
        metadata = record {
          name = [];
          generate_name = workload.metadata.name ++ b'-' ∷ [];
          namespace = workload.metadata.namespace;
          uid = "";
          generation = pos 0;
          creation_timestamp = 0;
          deletion_timestamp = none;
          labels = template.labels;
          annotations = template.annotations;
          finalizers = template.finalizers;
          owner_references = [];
        };
        spec = template.spec;
        status = no_status;
      } in
      let pod = set_pod_metadata up bare template in
      record pod {
        metadata = record pod.metadata {
          annotations =
              put revision_annotation
                (revision up (mutable_pod_policy_for workload.metadata.annotations) template)
                pod.metadata.annotations;
        };
      }

  -- The UIDs of the ReplicaSets that have the controller with the UID.
  unfoldable pub siblings : String → List ReplicaSet → List String
  siblings uid [] = []
  siblings uid (rs ∷ rss) =
      let rest = siblings uid rss in
      if controlled_by_uid uid (up.get_controller_of rs.metadata)
      then rs.metadata.uid ∷ rest
      else rest

  unfoldable pub is_related : List String → Pod → Bool
  is_related uids pod = owned_by_one_of uids (up.get_controller_of pod.metadata) && is_active pod

  -- Whether `left` goes before `right` in the order of deletion.
  unfoldable pub deleted_before : List Pod → Time → Pod → Pod → Bool
  unfolding compare_pods_for_deletion pod_rank
  deleted_before related now left right =
      ltb_ℤ
        (compare_pods_for_deletion up left right (pod_rank related (pod_key left))
          (pod_rank related (pod_key right)) now)
        (pos 0)

module _ (up : Upstream) (api : Client up.Selector) where
  unfoldable pub create_pod : ReplicaSet → Action api.World (Unit {0})
  create_pod workload = do
    let pod = new_pod up workload
    owned ← lift (up.set_controller_reference workload.metadata pod.metadata)
    wrapping "create Pod for ReplicaSet" (api.create_pod (record pod { metadata = owned }))

  -- The set of the UIDs of the ReplicaSets of the same Deployment, each once.
  unfoldable pub related_replica_sets : ReplicaSet → Action api.World (List String)
  unfolding with_uids
  related_replica_sets workload = elim (up.get_controller_of workload.metadata) [
    | none ↦ pure (workload.metadata.uid ∷ [])
    | some owner ↦ elim (is_deployment_ref owner) [
      | false ↦ pure (workload.metadata.uid ∷ [])
      | true ↦ do
        rss ← api.reader_list_replica_sets workload.metadata.namespace
        pure (with_uids (workload.metadata.uid ∷ []) (siblings up owner.uid rss))
    ]
  ]

  unfoldable pub list_all_cached : List ℕ → List String → Action api.World (List Pod)
  list_all_cached namespace [] = pure []
  list_all_cached namespace (uid ∷ uids) = do
    pods ← api.cached_list_controlled_pods namespace uid
    rest ← list_all_cached namespace uids
    pure (pods ++ rest)

  -- The active Pods of the ReplicaSets of the same Deployment.
  unfoldable pub related_pods : Bool → ReplicaSet → Action api.World (List Pod)
  unfolding related_replica_sets list_all_cached
  related_pods pod_owner_indexed workload = do
    uids ← related_replica_sets workload
    candidates ← elim pod_owner_indexed [
      | false ↦ api.reader_list_pods workload.metadata.namespace
      | true ↦ list_all_cached workload.metadata.namespace uids
    ]
    pure (keep (is_related up uids) candidates)

  -- Deletes the first Pods of the list; past its end the Go code panics.
  unfoldable pub delete_first : ℕ → List Pod → Action api.World (Unit {0})
  delete_first zero pods = pure tt
  delete_first (suc n) [] = fail (new_error "index out of range")
  delete_first (suc n) (pod ∷ pods) = do
    wrapping "delete Pod" (ignoring_not_found (api.delete_pod pod))
    delete_first n pods

  abbrev pub created : Batch × api.World → Result Bool × api.World
  created (b, w) = elim b.error [ some e ↦ (err e, w) | none ↦ (ok true, w) ]

  -- `initial` is SlowStartInitialBatchSize.
  unfoldable pub scale_up : ℕ → ReplicaSet → ℕ → Action api.World Bool
  unfolding create_pod
  scale_up initial workload diff w =
      created (slow_start_batch (create_pod workload) (min diff burst_replicas) initial w)

  unfoldable pub scale_down : Bool → ReplicaSet → List Pod → ℕ → Action api.World Bool
  unfolding related_pods delete_first deleted_before
  scale_down pod_owner_indexed workload pods diff = do
    related ← related_pods pod_owner_indexed workload
    now ← infallible api.now
    delete_first (min diff burst_replicas) (sort_stable (deleted_before up related now) pods)
    pure true

  abbrev pub by_difference : ℕ → Bool → ReplicaSet → List Pod → ℤ → Action api.World Bool
  by_difference initial indexed workload pods (pos zero) = pure false
  by_difference initial indexed workload pods (pos (suc n)) = scale_up initial workload (suc n)
  by_difference initial indexed workload pods (negsuc n) = scale_down indexed workload pods (suc n)

  -- Whether Pods were created or deleted.
  unfoldable pub reconcile_replicas : ℕ → Bool → ReplicaSet → List Pod → Action api.World Bool
  unfolding scale_up scale_down
  reconcile_replicas initial pod_owner_indexed workload pods =
      by_difference initial pod_owner_indexed workload pods
        (desired_replicas workload.spec.replicas -ℤ pos (length pods))
