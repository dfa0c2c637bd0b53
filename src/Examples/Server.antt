-- ===== src/Examples/Server.antt =====
-- An API server in memory.
use churnless.Base.{
  ℕ, suc, Bool, true, false, not, ◌&&◌, Option, none, some, String, List, [], ◌∷◌, ◌++◌, map, keep,
  str_eq, if◌then◌else◌,
}
use churnless.Int32.{ℤ, pos, eqb_ℤ}
use churnless.StringMap.{StringMap}
use churnless.Api.{Pod, ReplicaSet, Deployment}
use churnless.Action.{Result, ok, err, not_found}
use churnless.Client.{ObjectKey, Client}
use churnless.Workload.Metadata.{has_values}
use churnless.ReplicaSet.Pods.{same_bytes}
use churnless.Examples.Packages.{controller_of, has_uid}

-- The objects of one namespace; `changes` counts the writes, `patched` has the UIDs of the ReplicaSets
-- that were patched, and `rescaled` counts the patches that change how many replicas are wanted, and
-- the ReplicaSets that are created with some. `removed` has the Pods that were to be deleted.
pub record Cluster : Type 0 where
  pub deployment : Option Deployment
  pub replica_sets : List ReplicaSet
  pub pods : List Pod
  pub changes : ℕ
  pub patched : List String
  pub pod_patches : ℕ
  pub rescaled : ℕ
  pub removed : List Pod

abbrev missing : {A : Type 0} → Result A
missing = err (record { reason = not_found; context = [] })

abbrev pub or_missing : {A : Type 0} → Option A → Result A
or_missing none = missing
or_missing (some a) = ok a

abbrev first_named : List ℕ → List ReplicaSet → Option ReplicaSet
first_named name [] = none
first_named name (rs ∷ rss) =
    if same_bytes rs.metadata.name name then some rs else first_named name rss

abbrev has_key_of : ObjectKey → Pod → Bool
has_key_of key pod =
    same_bytes pod.metadata.namespace key.namespace && same_bytes pod.metadata.name key.name

abbrev pub first_pod : ObjectKey → List Pod → Option Pod
first_pod key [] = none
first_pod key (p ∷ ps) = if has_key_of key p then some p else first_pod key ps

abbrev without : Pod → List Pod → List Pod
without pod = keep (λ p. not (same_bytes p.metadata.name pod.metadata.name))

abbrev written : Cluster → Cluster
written w = record w { changes = suc w.changes }

abbrev stored : Pod → Cluster → Cluster
stored pod w = written (record w { pods = without pod w.pods ++ pod ∷ [] })

abbrev pub same_replicas : Option ℤ → Option ℤ → Bool
same_replicas none none = true
same_replicas none (some n) = false
same_replicas (some m) none = false
same_replicas (some m) (some n) = eqb_ℤ m n

abbrev rescaling : Option ℤ → Option ℤ → ℕ → ℕ
rescaling m n k = if same_replicas m n then k else suc k

abbrev stored_set : ReplicaSet → ReplicaSet → Cluster → Cluster
stored_set before after w = written (record w {
  replica_sets =
      map (λ r. if str_eq r.metadata.uid before.metadata.uid then after else r) w.replica_sets;
  patched = before.metadata.uid ∷ w.patched;
  rescaled = rescaling before.spec.replicas after.spec.replicas w.rescaled;
})

abbrev pub example_api : Client StringMap
example_api = record {
  World = Cluster;
  now = λ w. (7, w);
  get_deployment = λ k w. (or_missing w.deployment, w);
  patch_deployment = λ a b w. (ok tt, written (record w { deployment = some b }));
  patch_deployment_status = λ a b w. (ok b, record w { deployment = some b });
  reader_get_native_deployment = λ k w. (missing, w);
  delete_native_deployment = λ m w. (ok tt, written w);
  get_replica_set = λ k w. (or_missing (first_named k.name w.replica_sets), w);
  reader_get_replica_set = λ k w. (or_missing (first_named k.name w.replica_sets), w);
  reader_list_replica_sets = λ n w. (ok w.replica_sets, w);
  create_replica_set = λ rs w. (
    ok tt,
    written (record w {
      replica_sets = w.replica_sets ++ rs ∷ [];
      rescaled = rescaling (some (pos 0)) rs.spec.replicas w.rescaled;
    }),
  );
  patch_replica_set = λ a b w. (ok tt, stored_set a b w);
  patch_replica_set_status = λ a b w. (ok b, stored_set a b w);
  reader_get_native_replica_set = λ k w. (missing, w);
  delete_native_replica_set = λ m w. (ok tt, written w);
  reader_list_pods = λ n w. (ok w.pods, w);
  reader_list_matching_pods = λ n s w. (ok (keep (λ p. has_values p.metadata.labels s) w.pods), w);
  live_list_matching_pods = λ n s w. (ok (keep (λ p. has_values p.metadata.labels s) w.pods), w);
  live_get_pod = λ k w. (or_missing (first_pod k w.pods), w);
  cached_list_controlled_pods = λ n uid w.
      (ok (keep (λ p. has_uid uid (controller_of p.metadata.owner_references)) w.pods), w);
  create_pod = λ p w. (ok tt, stored p w);
  patch_pod = λ a b w. (ok b, record (stored b w) { pod_patches = suc w.pod_patches });
  patch_pod_locked = λ a b w. (ok tt, stored b w);
  resize_pod = λ p w. (ok p, w);
  delete_pod =
      λ p w. (ok tt, written (record w { pods = without p w.pods; removed = w.removed ++ p ∷ [] }));
}
