-- ===== src/ReplicaSet/Deletion.antt =====
-- Which Pods reconcileReplicas deletes, and in which order.
use mathlib.Core.List.{Perm}
use churnless.Base.{
  ℕ, ◌≤◌, ◌≡◌, refl, ◌∙◌, min, Bool, true, false, List, [], ◌++◌, length, All, sort_stable, arith,
}
use churnless.Api.{Pod, ReplicaSet}
use churnless.Action.{Error, Result, ok, err, Action, pure, ◌>>=◌, ◌>>◌, continue, infallible}
use churnless.Upstream.{Upstream}
use churnless.Client.{Client}
use churnless.Sorted.{length-sort_stable, IsSorted-append, sort_stable-Perm}
use churnless.SlowStart.{burst_replicas}
use churnless.ReplicaSet.Replicas.{related_pods, deleted_before, delete_first, scale_down}
use churnless.ReplicaSet.Deleted.{
  OrdersPods, LogsDeletions, deletions-IsSorted, split_at, related_pods-Silent, delete_first_log,
}

module _ (up : Upstream) (api : Client up.Selector) (deleted : api.World → List Pod)
    (logs : LogsDeletions api deleted) where
  -- What a scale down has done, where `n` Pods are to go: nothing where the related Pods could not be
  -- read; else it has tried to delete the victims in turn.
  pub data ScalesDown (indexed : Bool) (workload : ReplicaSet) (pods : List Pod) (n : ℕ)
      (w : api.World) (answer : Result Bool) (after : List Pod) : Type 0 where
    unread :
        (e : Error)
        → answer ≡ err e
        → after ≡ deleted w
        → ScalesDown indexed workload pods n w answer after
    tried_all :
        (related : List Pod) (read : api.World)
        → related_pods up api indexed workload w ≡ (ok related, read)
        → (victims kept tried rest : List Pod) → Perm (victims ++ kept) pods
        → length victims ≡ n
        → All (λ v. All (λ k. deleted_before up related (api.now read).0 k v ≡ false) kept) victims
        → tried ++ rest ≡ victims
        → after ≡ deleted w ++ tried
        → (answer ≡ ok true → rest ≡ [])
        → ScalesDown indexed workload pods n w answer after

  module _ (orders : OrdersPods up) (indexed : Bool) (workload : ReplicaSet) (pods : List Pod)
      (n : ℕ) (le : n ≤ length pods) (w : api.World) where
    abbrev deleting : List Pod → Action api.World Bool
    deleting related = do
      now ← infallible api.now
      delete_first up api n (sort_stable (deleted_before up related now) pods)
      pure true

    victims-ScalesDown :
        (related : List Pod) (read : api.World)
        → related_pods up api indexed workload w ≡ (ok related, read)
        → deleted read ≡ deleted w
        → (victims kept : List Pod)
        → victims ++ kept ≡ sort_stable (deleted_before up related (api.now read).0) pods
        → length victims ≡ n
        → let (answer, w') = deleting related read in
          ScalesDown indexed workload pods n w answer (deleted w')
    victims-ScalesDown related read e quiet victims kept same count =
        rw (← same, ← count)
          (answered (delete_first up api (length victims) (victims ++ kept) (api.now read).1)
            (delete_first_log up api deleted logs victims kept (api.now read).1))
      where
        before : Pod → Pod → Bool
        before = deleted_before up related (api.now read).0

        permuted : Perm (victims ++ kept) pods
        permuted = rw same (sort_stable-Perm before pods)

        separated : All (λ v. All (λ k. before k v ≡ false) kept) victims
        separated =
            IsSorted-append before victims kept
              (rw same (deletions-IsSorted up orders related (api.now read).0 pods))

        answered :
            (p : Result (Unit {0}) × api.World)
            → (tried rest : List Pod) × (tried ++ rest ≡ victims)
              × (deleted p.1 ≡ deleted (api.now read).1 ++ tried)
              × (p.0 ≡ ok tt → rest ≡ [])
            → let q = continue (λ _. pure {A = Bool} true) p.0 p.1 in
              ScalesDown indexed workload pods (length victims) w q.0 (deleted q.1)
        answered (ok x, w') (tried, rest, parts, log, all) =
            tried_all related read e victims kept tried rest permuted refl separated parts
              (log ∙ rw (logs.clock read, quiet) refl) (λ h. all refl)
        answered (err x, w') (tried, rest, parts, log, all) =
            tried_all related read e victims kept tried rest permuted refl separated parts
              (log ∙ rw (logs.clock read, quiet) refl) (λ h. absurd (cc h))

  -- Where ActivePodsWithRanks orders the Pods, and `diff` is at most how many Pods there are: a scale
  -- down that reads the related Pods picks `diff` Pods, or 500 where that is less, none of which is to
  -- be kept longer than one of the others by the order of deletion. It tries to delete them in turn,
  -- deletes no other, and has tried all where it answers without an error. A scale down that cannot
  -- read the related Pods deletes none and answers with an error.
  pub scale_down-ScalesDown :
      OrdersPods up
      → (indexed : Bool) (workload : ReplicaSet) (pods : List Pod) (diff : ℕ) (w : api.World)
      → diff ≤ length pods
      → let (answer, w') = scale_down up api indexed workload pods diff w in
        ScalesDown indexed workload pods (min diff burst_replicas) w answer (deleted w')
  unfolding scale_down
  scale_down-ScalesDown orders indexed workload pods diff w le =
      after (related_pods up api indexed workload w) refl
        ((related_pods-Silent up api deleted logs indexed workload).at w)
    where
      n : ℕ
      n = min diff burst_replicas

      after :
          (p : Result (List Pod) × api.World)
          → related_pods up api indexed workload w ≡ p
          → deleted p.1 ≡ deleted w
          → let (answer, w') =
              continue (deleting orders indexed workload pods n (omega arith) w) p.0 p.1 in
            ScalesDown indexed workload pods n w answer (deleted w')
      after (ok related, read) e quiet =
          let before = deleted_before up related (api.now read).0 in
          let (victims, kept, same, count) =
            split_at n (sort_stable before pods)
              (omega (arith, le, length-sort_stable before pods)) in
          victims-ScalesDown orders indexed workload pods n (omega arith) w related read e quiet
            victims kept same count
      after (err x, read) e quiet = unread x refl quiet
