-- ===== src/ReplicaSet/Claim.antt =====
-- claimPods, podCandidates, cachedControlledPods and canAdopt: which Pods a ReplicaSet owns.
use churnless.Base.{
  Bool, true, false, ◌&&◌, ◌||◌, not, Option, none, some, String, List, [], ◌∷◌, ◌++◌, keep, any,
  str_eq, sort_stable, if◌then◌else◌,
}
use churnless.Api.{OwnerReference, Pod, ReplicaSet}
use churnless.Action.{
  ok, err, Action, pure, fail, lift, ◌>>=◌, ◌>>◌, attempt, wrapping, new_error, is_not_found,
}
use churnless.Upstream.{Upstream}
use churnless.Client.{Client}
use churnless.Deployment.Actions.{key_of}
use churnless.ReplicaSet.Pods.{pod_key, same_bytes, bytes_less, is_deleted}

-- A reference that makes the ReplicaSet with the UID the controller.
abbrev pub is_controller_ref : String → OwnerReference → Bool
is_controller_ref uid ref = elim ref.controller [ none ↦ false | some c ↦ c && str_eq ref.uid uid ]

-- The Pod without the references that make `uid` its controller.
unfoldable pub released : String → Pod → Pod
released uid pod = record pod {
  metadata = record pod.metadata {
    owner_references = keep (λ ref. not (is_controller_ref uid ref)) pod.metadata.owner_references;
  };
}

abbrev pub has_controller : Option OwnerReference → Bool
has_controller none = false
has_controller (some _) = true

-- `candidates[podKey(pod)] = pod`
unfoldable pub put_candidate : Pod → List Pod → List Pod
unfolding same_bytes
put_candidate pod [] = pod ∷ []
put_candidate pod (p ∷ ps) =
    if same_bytes (pod_key p) (pod_key pod) then pod ∷ ps else p ∷ put_candidate pod ps

unfoldable pub put_candidates : List Pod → List Pod → List Pod
unfolding put_candidate
put_candidates [] candidates = candidates
put_candidates (pod ∷ pods) candidates = put_candidates pods (put_candidate pod candidates)

abbrev pub is_candidate : Pod → List Pod → Bool
is_candidate pod = any (λ p. same_bytes (pod_key p) (pod_key pod))

module _ (up : Upstream) (api : Client up.Selector) where
  unfoldable pub can_adopt : ReplicaSet → Action api.World (Unit {0})
  can_adopt workload = do
    fresh ←
        wrapping "recheck ReplicaSet before adoption"
          (api.reader_get_replica_set (key_of workload.metadata))
    elim (str_eq fresh.metadata.uid workload.metadata.uid) [
      | false ↦ fail (new_error "ReplicaSet was replaced")
      | true ↦ elim (is_deleted fresh.metadata) [
        | true ↦ fail (new_error "ReplicaSet is being deleted")
        | false ↦ pure tt
      ]
    ]

  -- The cached Pods that are not among the candidates, read live.
  unfoldable pub refresh_loop : List Pod → List Pod → Action api.World (List Pod)
  unfolding put_candidate
  refresh_loop candidates [] = pure candidates
  refresh_loop candidates (pod ∷ pods) = elim (is_candidate pod candidates) [
    | true ↦ refresh_loop candidates pods
    | false ↦ do
      found ← attempt (api.live_get_pod (key_of pod.metadata))
      elim found [
        | ok fresh ↦ refresh_loop (candidates ++ fresh ∷ []) pods
        | err e ↦ elim (is_not_found e) [ true ↦ refresh_loop candidates pods | false ↦ fail e ]
      ]
  ]

  unfoldable pub pod_candidates : Bool → ReplicaSet → up.Selector → Action api.World (List Pod)
  unfolding refresh_loop put_candidates bytes_less
  pod_candidates pod_owner_indexed workload selector = elim pod_owner_indexed [
    | false ↦ api.reader_list_pods workload.metadata.namespace
    | true ↦ do
      matching ← api.live_list_matching_pods workload.metadata.namespace selector
      controlled ← api.cached_list_controlled_pods workload.metadata.namespace workload.metadata.uid
      candidates ← refresh_loop (put_candidates matching []) controlled
      pure (sort_stable (λ left right. bytes_less (pod_key left) (pod_key right)) candidates)
  ]

  unfoldable pub release_pod : ReplicaSet → Pod → Action api.World (List Pod × Bool)
  unfolding released
  release_pod workload pod = do
    wrapping "release Pod" (api.patch_pod_locked pod (released workload.metadata.uid pod))
    pure ([], true)

  unfoldable pub adopt_pod : ReplicaSet → Pod → Action api.World (List Pod × Bool)
  unfolding can_adopt
  adopt_pod workload pod = do
    can_adopt workload
    owned ← lift (up.set_controller_reference workload.metadata pod.metadata)
    wrapping "adopt Pod" (api.patch_pod_locked pod (record pod { metadata = owned }))
    pure ([], true)

  -- The claimed Pods, or `true` after the first Pod that was released or adopted.
  unfoldable pub claim_loop :
      ReplicaSet → up.Selector → List Pod → List Pod → Action api.World (List Pod × Bool)
  unfolding release_pod adopt_pod
  claim_loop workload selector claimed [] = pure (claimed, false)
  claim_loop workload selector claimed (pod ∷ pods) =
      elim (up.is_controlled_by pod.metadata workload.metadata) [
        | true ↦ elim (up.selector_matches selector pod.metadata.labels) [
          | false ↦ release_pod workload pod
          | true ↦ claim_loop workload selector (claimed ++ pod ∷ []) pods
        ]
        | false ↦
            elim (not (up.selector_matches selector pod.metadata.labels)
              || has_controller (up.get_controller_of pod.metadata)
              || is_deleted workload.metadata) [
                | true ↦ claim_loop workload selector claimed pods
                | false ↦ adopt_pod workload pod
              ]
      ]

  unfoldable pub claim_pods : Bool → ReplicaSet → up.Selector → Action api.World (List Pod × Bool)
  unfolding pod_candidates claim_loop
  claim_pods pod_owner_indexed workload selector = do
    pods ← pod_candidates pod_owner_indexed workload selector
    claim_loop workload selector [] pods
