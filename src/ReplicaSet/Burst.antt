-- ===== src/ReplicaSet/Burst.antt =====
-- How many Pods one run of reconcileReplicas creates or deletes.
use churnless.Base.{
  ℕ, zero, suc, ◌+◌, ◌-◌, ◌*◌, ◌≤◌, min, Bool, true, false, Option-cases, Bool-cases, inl, inr,
  List, [], ◌∷◌, length, arith, ◌==◌, String, sort_stable,
}
use churnless.Int32.{ℤ, pos, negsuc, ◌-ℤ◌}
use churnless.Api.{Pod, ReplicaSet}
use churnless.Action.{Action}
use churnless.Action.Costs.{
  Costs, Costs-pure, Costs-fail, Costs-lift, Costs-infallible, Costs-wrapping, Costs-ignoring,
  Costs-after, Costs-then, Costs-suc, Costs-Bool, Costs-Option,
}
use churnless.Upstream.{Upstream}
use churnless.Client.{Client}
use churnless.SlowStart.{Batch, run_batch, batches, slow_start_batch, burst_replicas}
use churnless.Deployment.Totals.{desired_replicas}
use churnless.ReplicaSet.Replicas.{
  create_pod, is_deployment_ref, related_replica_sets, list_all_cached, related_pods, delete_first,
  scale_up, scale_down, reconcile_replicas, by_difference, created, deleted_before,
}

module _ {W : Type 0} (call : Action W (Unit {0})) (measure : W → ℕ)
    (cost : Costs measure 1 call) where
  run_batch_cost : (n : ℕ) (w : W) → measure (run_batch call n w).1 ≤ measure w + n
  unfolding run_batch
  run_batch_cost zero w = omega arith
  run_batch_cost (suc n) w = omega (arith, cost.at w, run_batch_cost n (call w).1)

  batches_cost :
      (fuel remaining size successes : ℕ) (w : W)
      → size ≤ remaining
      → measure (batches call fuel remaining size successes w).1 ≤ measure w + remaining
  unfolding batches
  batches_cost zero remaining size successes w le = omega arith
  batches_cost (suc fuel) remaining size successes w le = elim (Bool-cases (size == 0)) [
    | inl empty ↦ rw (batches, empty) (omega arith)
    | inr full ↦ elim (Option-cases (run_batch call size w).0.error) [
      | inr (e, failed) ↦ rw (batches, full, failed) (omega (arith, run_batch_cost size w))
      | inl clean ↦
          let next =
            batches_cost fuel (remaining - size) (min (2 * size) (remaining - size))
              (successes + (run_batch call size w).0.successes) (run_batch call size w).1
              (omega arith) in
          rw (batches, full, clean) (omega (arith, next, run_batch_cost size w))
    ]
  ]

  pub slow_start_cost :
      (count initial : ℕ) (w : W)
      → measure (slow_start_batch call count initial w).1 ≤ measure w + count
  unfolding slow_start_batch
  slow_start_cost count initial w =
      batches_cost (count + 1) count (min count initial) 0 w (omega arith)

-- The absolute value.
abbrev pub distance : ℤ → ℕ
distance (pos n) = n
distance (negsuc n) = suc n

-- `changes` counts the Pods that are created or deleted.
module _ (up : Upstream) (api : Client up.Selector) (changes : api.World → ℕ)
    (create : (p : Pod) → Costs changes 1 (api.create_pod p))
    (delete : (p : Pod) → Costs changes 1 (api.delete_pod p))
    (clock : (w : api.World) → changes (api.now w).1 ≤ changes w)
    (list_sets : (n : List ℕ) → Costs changes 0 (api.reader_list_replica_sets n))
    (list_pods : (n : List ℕ) → Costs changes 0 (api.reader_list_pods n))
    (list_controlled : (n : List ℕ) (uid : String)
      → Costs changes 0 (api.cached_list_controlled_pods n uid)) where
  create_pod_cost : (rs : ReplicaSet) → Costs changes 1 (create_pod up api rs)
  unfolding create_pod
  create_pod_cost rs =
      Costs-after changes 1 _ _ (Costs-lift changes 0 _)
        λ m. Costs-wrapping changes 1 "create Pod for ReplicaSet" _ (create _)

  related_replica_sets_cost : (rs : ReplicaSet) → Costs changes 0 (related_replica_sets up api rs)
  unfolding related_replica_sets
  related_replica_sets_cost rs =
      Costs-Option changes 0 (up.get_controller_of rs.metadata) _ _
        (Costs-pure changes 0 (rs.metadata.uid ∷ []))
        λ owner.
          Costs-Bool changes 0 (is_deployment_ref owner) _ _
            (Costs-then changes 0 _ _ (list_sets _) (λ rss. Costs-pure changes 0 _))
            (Costs-pure changes 0 _)

  list_all_cached_cost :
      (n : List ℕ) (uids : List String) → Costs changes 0 (list_all_cached up api n uids)
  unfolding list_all_cached
  list_all_cached_cost n [] = Costs-pure changes 0 []
  list_all_cached_cost n (uid ∷ uids) = Costs-after changes 0 _ _ (list_controlled n uid) λ pods.
      Costs-after changes 0 _ _ (list_all_cached_cost n uids) (λ rest. Costs-pure changes 0 _)

  related_pods_cost :
      (indexed : Bool) (rs : ReplicaSet) → Costs changes 0 (related_pods up api indexed rs)
  unfolding related_pods
  related_pods_cost indexed rs =
      Costs-after changes 0 _ _ (related_replica_sets_cost rs) λ uids.
        Costs-after changes 0 _ _ (by_index indexed uids) λ candidates. Costs-pure changes 0 _
    where
      by_index :
          (b : Bool) (uids : List String)
          → Costs changes 0 (elim b [
            | false ↦ api.reader_list_pods rs.metadata.namespace
            | true ↦ list_all_cached up api rs.metadata.namespace uids
          ])
      by_index false uids = list_pods _
      by_index true uids = list_all_cached_cost _ uids

  delete_first_cost : (n : ℕ) (pods : List Pod) → Costs changes n (delete_first up api n pods)
  unfolding delete_first
  delete_first_cost zero pods = Costs-pure changes 0 tt
  delete_first_cost (suc n) [] = Costs-fail changes (suc n) _
  delete_first_cost (suc n) (pod ∷ pods) =
      Costs-suc changes n _ _
        (Costs-wrapping changes 1 "delete Pod" _ (Costs-ignoring changes 1 _ (delete pod)))
        (λ _. delete_first_cost n pods)

  scale_up_cost :
      (initial : ℕ) (rs : ReplicaSet) (n : ℕ)
      → Costs changes (min n burst_replicas) (scale_up up api initial rs n)
  unfolding scale_up
  scale_up_cost initial rs n = record {
    at = λ w. ends w (slow_start_batch (create_pod up api rs) (min n burst_replicas) initial w) (
        slow_start_cost (create_pod up api rs) changes (create_pod_cost rs) (min n burst_replicas)
          initial w);
  }
    where
      ends :
          (w : api.World) (r : Batch × api.World)
          → changes r.1 ≤ changes w + min n burst_replicas
          → changes (created up api r).1 ≤ changes w + min n burst_replicas
      ends w (b, w') h = elim (Option-cases b.error) [ inl e ↦ rw e h | inr (x, e) ↦ rw e h ]

  scale_down_cost :
      (indexed : Bool) (rs : ReplicaSet) (pods : List Pod) (n : ℕ)
      → Costs changes (min n burst_replicas) (scale_down up api indexed rs pods n)
  unfolding scale_down
  scale_down_cost indexed rs pods n =
      Costs-after changes _ _ _ (related_pods_cost indexed rs) λ related.
        Costs-after changes _ _ _ (Costs-infallible changes api.now clock) λ now.
          Costs-then changes _ _ _
            (delete_first_cost (min n burst_replicas)
              (sort_stable (deleted_before up related now) pods))
            (λ _. Costs-pure changes 0 true)

  -- For a measure that creating or deleting a Pod raises by at most one, and no read raises: one run of
  -- reconcileReplicas raises it by at most as many as the count of Pods is off, and by at most 500.
  pub reconcile_replicas_burst :
      (initial : ℕ) (indexed : Bool) (rs : ReplicaSet) (pods : List Pod) (w : api.World)
      → let off = desired_replicas rs.spec.replicas -ℤ pos (length pods) in
        changes (reconcile_replicas up api initial indexed rs pods w).1
        ≤ changes w + min (distance off) burst_replicas
  unfolding reconcile_replicas
  reconcile_replicas_burst initial indexed rs pods w =
      towards (desired_replicas rs.spec.replicas -ℤ pos (length pods))
    where
      towards :
          (off : ℤ)
          → changes (by_difference up api initial indexed rs pods off w).1
            ≤ changes w + min (distance off) burst_replicas
      towards (pos zero) = omega arith
      towards (pos (suc n)) = (scale_up_cost initial rs (suc n)).at w
      towards (negsuc n) = (scale_down_cost indexed rs pods (suc n)).at w
