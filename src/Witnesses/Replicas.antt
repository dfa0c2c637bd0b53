-- ===== src/Witnesses/Replicas.antt =====
-- A server on which a ReplicaSet comes to the wanted number of Pods.
use churnless.Base.{
  ℕ, suc, ◌+◌, ◌≤◌, ◌≡◌, refl, ap, inl, inr, true, false, Bool-cases, List, [], ◌∷◌, ◌++◌, All,
  length, arith,
}
use churnless.StringMap.{StringMap}
use churnless.Api.{Pod, ReplicaSet}
use churnless.Action.{ok}
use churnless.Client.{Client}
use churnless.Examples.{idle_client, example_upstream, example_set}
use churnless.ReplicaSet.Pods.{pod_key}
use churnless.ReplicaSet.DistinctKeys.{same_bytes-eq, HasOtherKey, DistinctKeys, DistinctKeys-keep}
use churnless.ReplicaSet.Live.{without, Serves}
use churnless.ReplicaSet.Replicas.{reconcile_replicas}
use churnless.ReplicaSet.Scales.{SetsController}
use churnless.ReplicaSet.Converges.{Runs, reconcile_replicas-Converges}
use churnless.Witnesses.Pods.{web_pod, second_pod}

record Stock : Type 0 where
  pods : List Pod
  distinct : DistinctKeys pods

abbrev sum : List ℕ → ℕ
sum [] = 0
sum (x ∷ xs) = x + sum xs

sum-append : (xs ys : List ℕ) → sum (xs ++ ys) ≡ sum xs + sum ys
sum-append [] ys = omega arith
sum-append (x ∷ xs) ys = omega (arith, sum-append xs ys)

-- More than the bytes of any key.
abbrev bound : List Pod → ℕ
bound [] = 0
bound (p ∷ ps) = sum (pod_key p) + bound ps

-- The name that the server gives a new Pod.
abbrev named : ℕ → Pod → Pod
named n p = record p { metadata = record p.metadata { name = suc n ∷ [] } }

named_apart : (n : ℕ) (p q : Pod) → sum (pod_key q) ≤ n → HasOtherKey (named n p) q
named_apart n p q h =
    elim (Bool-cases (churnless.ReplicaSet.Pods.same_bytes (pod_key q) (pod_key (named n p)))) [
      | inr other ↦ other
      | inl same ↦
          let e : sum (pod_key q) ≡ sum (pod_key (named n p)) =
            ap sum (same_bytes-eq (pod_key q) (pod_key (named n p)) same) in
          absurd (omega (arith, e, h, sum-append p.metadata.namespace (b'/' ∷ suc n ∷ [])))
    ]

bound_apart : (n : ℕ) (p : Pod) (ps : List Pod) → bound ps ≤ n → All (HasOtherKey (named n p)) ps
bound_apart n p [] h = tt
bound_apart n p (q ∷ qs) h = (named_apart n p q (omega arith), bound_apart n p qs (omega arith))

abbrev with_pod : Pod → Stock → Stock
with_pod p w = record {
  pods = named (bound w.pods) p ∷ w.pods;
  distinct = (bound_apart (bound w.pods) p w.pods (omega arith), w.distinct);
}

abbrev without_pod : Pod → Stock → Stock
without_pod p w = record {
  pods = without p w.pods;
  distinct = DistinctKeys-keep _ w.pods w.distinct;
}

abbrev stock_api : Client StringMap
stock_api = record (idle_client Stock) {
  reader_list_replica_sets = λ n w. (ok [], w);
  reader_list_pods = λ n w. (ok w.pods, w);
  cached_list_controlled_pods = λ n uid w. (ok w.pods, w);
  create_pod = λ p w. (ok tt, with_pod p w);
  delete_pod = λ p w. (ok tt, without_pod p w);
}

abbrev view : Stock → List Pod
view w = w.pods

-- Four Pods are wanted, and two are there.
abbrev four : ReplicaSet
four = example_set "old" 4 2

serves : Serves example_upstream stock_api four.metadata view
serves = record {
  distinct = λ w. w.distinct;
  created = λ p w h. (with_pod p w, refl, refl);
  deleted = λ p w. (without_pod p w, refl, refl);
  clock = λ w. refl;
  list_sets = λ n w. ([], w, refl, refl);
  list_pods = λ n w. (w.pods, w, refl, refl);
  list_controlled = λ n uid w. (w.pods, w, refl, refl);
}

sets : SetsController example_upstream four.metadata
sets = record { referenced = λ m. (_, refl, refl) }

pub two_distinct : DistinctKeys (web_pod ∷ second_pod ∷ [])
unfolding churnless.ReplicaSet.Pods.same_bytes
two_distinct = ((refl, tt), (tt, tt))

abbrev two : Stock
two = record { pods = web_pod ∷ second_pod ∷ []; distinct = two_distinct }

reconcile_replicas-Converges_example :
    (w' : Stock) × Runs example_upstream stock_api four view 1 true 1 two w'
    × (length (view w') ≡ 4)
    × (reconcile_replicas example_upstream stock_api 1 true four (view w') w' ≡ (ok false, w'))
unfolding churnless.Deployment.Totals.desired_replicas
reconcile_replicas-Converges_example =
    reconcile_replicas-Converges example_upstream stock_api four view 1 true serves sets 1 4 two
      (omega arith) refl (omega arith) (omega arith)
