-- ===== src/ReplicaSet/Scales.antt =====
-- reconcileReplicas brings a ReplicaSet to the wanted number of Pods.
use churnless.Base.{
  ℕ, zero, suc, ◌+◌, ◌-◌, ◌≤◌, ◌<◌, ◌≡◌, refl, ap, ◌∙◌, min, Bool, true, false, List, length, arith,
  sort_stable, ltb, if◌then◌else◌,
}
use churnless.Int32.{ℤ, pos, negsuc, ◌-ℤ◌}
use churnless.Sorted.{length-sort_stable, sort_stable-All}
use churnless.Api.{ObjectMeta, Pod, ReplicaSet}
use churnless.Action.{ok, Action, continue}
use churnless.Upstream.{Upstream}
use churnless.Client.{Client}
use churnless.SlowStart.{slow_start_batch}
use churnless.SlowStart.Attempts.{slow_start_complete, slow_start_clean}
use churnless.Deployment.Totals.{desired_replicas}
use churnless.ReplicaSet.DistinctKeys.{sort_stable-DistinctKeys}
use churnless.ReplicaSet.Live.{Serves, DistinctKeys-Once, delete_first-length}
use churnless.ReplicaSet.Reads.{related_pods-Reads}
use churnless.ReplicaSet.Replicas.{
  new_pod, create_pod, deleted_before, scale_up, scale_down, by_difference, reconcile_replicas,
}

-- controllerutil.SetControllerReference succeeds, and makes the owner the controller.
pub record SetsController (up : Upstream) (owner : ObjectMeta) : Type 0 where
  pub referenced :
      (m : ObjectMeta)
      → (owned : ObjectMeta) × (up.set_controller_reference owner m ≡ ok owned)
        × (up.is_controlled_by owned owner ≡ true)

-- One run changes the count of Pods by at most 500, up or down.
abbrev pub moved : ℕ → ℕ → ℕ
moved wanted n = if ltb n wanted then n + min (wanted - n) 500 else n - min (n - wanted) 500

no_move : (d n : ℕ) → pos d -ℤ pos n ≡ pos zero → n ≡ moved d n
no_move d n e = ground (arith, e)

up_move : (d n k : ℕ) → pos d -ℤ pos n ≡ pos (suc k) → n + min (suc k) 500 ≡ moved d n
up_move d n k e = ground (arith, e)

down_move :
    (d n k : ℕ) → pos d -ℤ pos n ≡ negsuc k → (suc k ≤ n) × (n - min (suc k) 500 ≡ moved d n)
down_move d n k e = ground (arith, e)

module _ (up : Upstream) (api : Client up.Selector) (workload : ReplicaSet)
    (view : api.World → List Pod) (serves : Serves up api workload.metadata view)
    (sets : SetsController up workload.metadata) where
  abbrev pub live : api.World → ℕ
  live w = length (view w)

  create_pod_shows :
      (w : api.World)
      → (w' : api.World) × (create_pod up api workload w ≡ (ok tt, w')) × (live w' ≡ suc (live w))
  unfolding create_pod
  create_pod_shows w =
      let pod = new_pod up workload in
      let (owned, e, controlled) = sets.referenced pod.metadata in
      let (w', sent, count) = serves.created (record pod { metadata = owned }) w controlled in
      (w', rw (create_pod, e, sent) refl, count)

  create_pod_ok : (w : api.World) → (create_pod up api workload w).0 ≡ ok tt
  create_pod_ok w = let (w', e, _) = create_pod_shows w in rw e refl

  create_pod_counts : (w : api.World) → live (create_pod up api workload w).1 ≡ suc (live w)
  create_pod_counts w = let (w', e, count) = create_pod_shows w in rw e count

  -- A run that has changed so many Pods.
  pub record Scaled (act : Action api.World Bool) (w : api.World) (target : ℕ) (answer : Bool)
      : Type 0 where
    pub after : api.World
    pub answered : act w ≡ (ok answer, after)
    pub counted : live after ≡ target

  scale_up-Scaled :
      (initial diff : ℕ) (w : api.World)
      → 0 < initial
      → Scaled (scale_up up api initial workload diff) w (live w + min diff 500) true
  unfolding scale_up
  scale_up-Scaled initial diff w some_first =
      let call = create_pod up api workload in
      let clean = slow_start_clean call create_pod_ok (min diff 500) initial w in
      let (_, count) =
        slow_start_complete call live create_pod_counts (min diff 500) initial w some_first clean in
      record {
        after = (slow_start_batch call (min diff 500) initial w).1;
        answered = rw (scale_up, clean) refl;
        counted = count;
      }

  scale_down-Scaled :
      (indexed : Bool) (diff : ℕ) (w : api.World)
      → diff ≤ live w
      → Scaled (scale_down up api indexed workload (view w) diff) w (live w - min diff 500) true
  unfolding scale_down
  scale_down-Scaled indexed diff w le =
      let r = related_pods-Reads up api workload view serves indexed w in
      let (now, w1) = api.now r.after in
      let less = deleted_before up r.value now in
      let order = sort_stable less (view w) in
      let same : view w1 ≡ view w = serves.clock r.after ∙ r.kept in
      let once = sort_stable-All less _ (view w) (DistinctKeys-Once (view w) (serves.distinct w)) in
      let (w2, e2, count) =
        delete_first-length up api workload.metadata view serves (min diff 500) order w1
          (omega (arith, length-sort_stable less (view w), le))
          (sort_stable-DistinctKeys less (view w) (serves.distinct w)) (rw same once) in
      record {
        after = w2;
        answered = rw (scale_down, r.answered, continue, continue, e2, continue) refl;
        counted = omega (arith, count, ap length same);
      }

  retarget :
      {act : Action api.World Bool} {w : api.World} {m n : ℕ} {answer : Bool}
      → m ≡ n
      → Scaled act w m answer
      → Scaled act w n answer
  retarget e r = record { after = r.after; answered = r.answered; counted = r.counted ∙ e }

  pub reconcile_replicas-Scaled :
      (initial : ℕ) (indexed : Bool) (wanted : ℕ) (w : api.World)
      → 0 < initial
      → desired_replicas workload.spec.replicas ≡ pos wanted
      → (answer : Bool) × Scaled
          (reconcile_replicas up api initial indexed workload (view w))
          w
          (moved wanted (live w))
          answer
  unfolding reconcile_replicas
  reconcile_replicas-Scaled initial indexed wanted w some_first wants =
      let (answer, r) = by_off (pos wanted -ℤ pos (live w)) refl in
      (answer, rw (reconcile_replicas, wants) r)
    where
      by_off :
          (off : ℤ)
          → pos wanted -ℤ pos (live w) ≡ off
          → (answer : Bool) × Scaled
              (by_difference up api initial indexed workload (view w) off)
              w
              (moved wanted (live w))
              answer
      by_off (pos zero) e =
          (false, record { after = w; answered = refl; counted = no_move wanted (live w) e })
      by_off (pos (suc n)) e = (
        true,
        retarget (up_move wanted (live w) n e) (scale_up-Scaled initial (suc n) w some_first),
      )
      by_off (negsuc n) e =
          let (le, same) = down_move wanted (live w) n e in
          (true, retarget same (scale_down-Scaled indexed (suc n) w le))
