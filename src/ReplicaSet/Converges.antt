-- ===== src/ReplicaSet/Converges.antt =====
-- Enough runs of reconcileReplicas bring a ReplicaSet to the wanted number of Pods.
use churnless.Base.{ℕ, zero, suc, ◌+◌, ◌*◌, ◌≤◌, ◌<◌, ◌≡◌, refl, Bool, false, List, length, arith}
use churnless.Int32.{pos, ◌-ℤ◌}
use churnless.Api.{Pod, ReplicaSet}
use churnless.Action.{ok}
use churnless.Upstream.{Upstream}
use churnless.Client.{Client}
use churnless.Deployment.Totals.{desired_replicas}
use churnless.ReplicaSet.Live.{Serves}
use churnless.ReplicaSet.Replicas.{reconcile_replicas}
use churnless.ReplicaSet.Scales.{SetsController, moved, reconcile_replicas-Scaled}

nothing_off : (n : ℕ) → pos n -ℤ pos n ≡ pos zero
nothing_off n = ground arith

nearer_below : (d n k : ℕ) → d ≤ n + (suc k) * 500 → d ≤ moved d n + k * 500
nearer_below d n k h = ground (arith, h)

nearer_above : (d n k : ℕ) → n ≤ d + (suc k) * 500 → moved d n ≤ d + k * 500
nearer_above d n k h = ground (arith, h)

module _ (up : Upstream) (api : Client up.Selector) (workload : ReplicaSet)
    (view : api.World → List Pod) (initial : ℕ) (indexed : Bool) where
  -- Runs that succeed, each with the Pods that are there.
  pub data Runs : ℕ → api.World → api.World → Type 0 where
    no_run : {w : api.World} → Runs zero w w
    one_run :
        {k : ℕ} {w w' w'' : api.World} (answer : Bool)
        → reconcile_replicas up api initial indexed workload (view w) w ≡ (ok answer, w')
        → Runs k w' w''
        → Runs (suc k) w w''

  module _ (serves : Serves up api workload.metadata view)
      (sets : SetsController up workload.metadata) where
    at_rest :
        (w : api.World)
        → desired_replicas workload.spec.replicas ≡ pos (length (view w))
        → reconcile_replicas up api initial indexed workload (view w) w ≡ (ok false, w)
    unfolding reconcile_replicas
    at_rest w wants = rw (reconcile_replicas, wants, nothing_off (length (view w))) refl

    -- For a ReplicaSet that wants `wanted` Pods, an API server that grants every request, owner
    -- references that can be set, and an initial batch that is not empty: where the count of Pods is off
    -- by at most 500 for each of `k` runs of reconcileReplicas, these runs succeed and leave as many Pods
    -- as are wanted, and another run changes nothing.
    pub reconcile_replicas-Converges :
        (k wanted : ℕ) (w : api.World)
        → 0 < initial
        → desired_replicas workload.spec.replicas ≡ pos wanted
        → wanted ≤ length (view w) + k * 500
        → length (view w) ≤ wanted + k * 500
        → (w' : api.World) × Runs k w w'
          × (length (view w') ≡ wanted)
          × (reconcile_replicas up api initial indexed workload (view w') w' ≡ (ok false, w'))
    reconcile_replicas-Converges zero wanted w some_first wants below above =
        let there : length (view w) ≡ wanted = omega arith in
        (w, no_run, there, at_rest w (rw there wants))
    reconcile_replicas-Converges (suc k) wanted w some_first wants below above =
        let (answer, r) =
          reconcile_replicas-Scaled up api workload view serves sets initial indexed wanted w
            some_first wants in
        let (w', runs, there, rest) =
          reconcile_replicas-Converges k wanted r.after some_first wants
            (rw r.counted (nearer_below wanted (length (view w)) k below))
            (rw r.counted (nearer_above wanted (length (view w)) k above)) in
        (w', one_run answer r.answered runs, there, rest)
