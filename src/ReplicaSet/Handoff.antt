-- ===== src/ReplicaSet/Handoff.antt =====
-- The in-place budget travels from the Deployment to its ReplicaSet in an annotation.
use churnless.Base.{ℕ, ◌≡◌, refl, false, Bool-cases, some, String, str_eq, arith, inl, inr}
use churnless.Int32.{pos}
use churnless.StringMap.{StringMap, lookup, lookup-put, lookup-delete}
use churnless.Api.{Deployment, ReplicaSet}
use churnless.Upstream.{Upstream}
use churnless.Workload.Template.{
  MutablePodPolicy, apply_resource_policy, in_place_resources_annotation,
}
use churnless.Deployment.Actions.{in_place_parallelism_annotation, synced}
use churnless.ReplicaSet.Pods.{replica_set_parallelism}

-- The annotation of the resource policy is another one.
lookup-apply_resource_policy :
    (p : MutablePodPolicy) (m : StringMap) (k : String)
    → str_eq in_place_resources_annotation k ≡ false
    → lookup k (apply_resource_policy p m) ≡ lookup k m
unfolding apply_resource_policy
lookup-apply_resource_policy p m k apart = elim (Bool-cases p.resize_resources) [
  | inl on ↦ rw (on, lookup-put, apart) refl
  | inr off ↦ rw (off, lookup-delete, apart) refl
]

-- The ReplicaSet controller reads back the budget that syncReplicaSet writes, whatever else the
-- annotations hold, where strconv.Atoi reads what strconv.Itoa wrote.
pub replica_set_parallelism-synced :
    (up : Upstream) (workload : Deployment) (rs : ReplicaSet) (revision : String) (n : ℕ)
    → up.atoi (up.itoa (pos n)) ≡ some (pos n)
    → str_eq (up.itoa (pos n)) "" ≡ false
    → replica_set_parallelism up (synced up workload rs revision (pos n)) ≡ pos n
unfolding replica_set_parallelism synced
replica_set_parallelism-synced up workload rs revision n reads some_text =
    rw
      (
        replica_set_parallelism,
        lookup-apply_resource_policy _ _ in_place_parallelism_annotation refl,
        lookup-put,
        some_text,
        reads,
      )
      (ground arith)
