-- ===== src/ReplicaSet/Settled.antt =====
-- A ReplicaSet for which nothing is left to do.
use churnless.Base.{
  ℕ, ◌≡◌, refl, ap, ◌∙◌, Bool, true, false, ◌&&◌, Option, none, some, List, [], keep, All, length,
  arith, ◌==◌, if◌then◌else◌,
}
use churnless.Int32.{ℤ, pos, wrap, ltb_ℤ, ◌-ℤ◌}
use churnless.Api.{Pod, ReplicaSet}
use churnless.Action.{Error, ok, err, Action, pure, ◌>>=◌, continue, infallible, is_not_found}
use churnless.Upstream.{Upstream}
use churnless.Client.{Client, ObjectKey}
use churnless.Workload.Template.{MutablePodPolicy, mutable_pod_policy_for}
use churnless.Workload.Progress.{all_pods, calculate_progress, requeue_while_updating}
use churnless.Workload.Update.Idle.{IsUpToDate, ordered, update_pods_idle}
use churnless.Deployment.Totals.{desired_replicas}
use churnless.Deployment.Actions.{key_of}
use churnless.Deployment.Reconcile.{CtrlResult, requeue_in}
use churnless.ReplicaSet.Pods.{
  active_replica_set_pods, replica_set_parallelism, ready_replicas, available_replicas,
}
use churnless.ReplicaSet.Claim.{pod_candidates, claim_pods}
use churnless.ReplicaSet.Ownership.{is_claimed, is_settled, claim_loop_settled}
use churnless.ReplicaSet.Replicas.{reconcile_replicas}
use churnless.ReplicaSet.Reconcile.{
  remove_legacy_shadow, update_replica_set_status, converge, reconcile_pods, reconcile_found,
  reconcile,
}

module _ (up : Upstream) (api : Client up.Selector) (workload : ReplicaSet) where
  abbrev policy_of : MutablePodPolicy
  policy_of = mutable_pod_policy_for workload.metadata.annotations

  -- Reports the status for the Pods, and says when to look again.
  abbrev pub reports : List Pod → ℕ → up.Selector → Action api.World CtrlResult
  reports pods terminating selector = do
    let progress = calculate_progress up workload.spec.template all_pods policy_of pods
    reported ←
        update_replica_set_status up api workload pods (wrap (pos terminating))
          (up.selector_to_string selector) progress
    now ← infallible api.now
    let delay = requeue_while_updating progress
    pure (
        requeue_in (
          if delay == 0
            && ltb_ℤ (available_replicas up pods reported.spec.min_ready_seconds now)
                (ready_replicas up pods)
          then 1
          else delay))

  -- The Pods that the ReplicaSet owns, and the active ones among them as updatePods orders them.
  abbrev pub owned : up.Selector → List Pod → List Pod
  owned selector = keep (is_claimed up api workload selector)

  abbrev pub active : up.Selector → List Pod → List Pod
  active selector pods = (active_replica_set_pods (owned selector pods)).0

  abbrev pub in_order : List Pod → List Pod
  in_order = ordered up api policy_of workload.spec.template (replica_set_parallelism up workload)

  converge_settled :
      (pods : List Pod) (terminating : ℕ) (selector used : up.Selector) (w : api.World)
      → up.label_selector_as_selector workload.spec.selector ≡ ok selector
      → All (IsUpToDate up api policy_of workload.spec.template) pods
      → converge up api workload pods (wrap (pos terminating)) used w
        ≡ reports (in_order pods) terminating selector w
  unfolding converge
  converge_settled pods terminating selector used w parsed a =
      rw
        (
          converge,
          update_pods_idle up api policy_of workload.spec.template all_pods
              (replica_set_parallelism up workload) pods w a,
          continue,
          parsed,
        )
        refl

  -- The Pods are as many as are wanted.
  counts_off : (n : ℕ) → pos n -ℤ pos n ≡ pos 0
  counts_off n = ground arith

  pods_settled :
      (initial : ℕ) (indexed : Bool) (pods : List Pod) (selector : up.Selector) (w : api.World)
      → up.label_selector_as_selector workload.spec.selector ≡ ok selector
      → let (live, terminating) = active_replica_set_pods pods in
        desired_replicas workload.spec.replicas ≡ pos (length live)
        → All (IsUpToDate up api policy_of workload.spec.template) live
        → reconcile_pods up api initial indexed workload selector pods w
          ≡ reports (in_order live) terminating selector w
  unfolding reconcile_pods reconcile_replicas
  pods_settled initial indexed pods selector w parsed wanted a =
      let (live, terminating) = active_replica_set_pods pods in
      rw (reconcile_pods, reconcile_replicas, wanted, counts_off (length live), continue)
        (converge_settled live terminating selector selector w parsed a)

  -- What is done depends on whether the count is there.
  abbrev when_given :
      Option ℤ
      → Action api.World CtrlResult
      → Action api.World CtrlResult
      → Action api.World CtrlResult
  when_given o x y = elim o [ none ↦ x | some _ ↦ y ]

  where_given :
      (o : Option ℤ) (n : ℤ) (x y : Action api.World CtrlResult) (w : api.World)
      → o ≡ some n
      → when_given o x y w ≡ y w
  where_given none n x y w e = absurd (cc e)
  where_given (some m) n x y w e = refl

  shadow_kept :
      (w w' : api.World) (e : Error)
      → api.reader_get_native_replica_set (key_of workload.metadata) w ≡ (err e, w')
      → is_not_found e ≡ true
      → remove_legacy_shadow up api workload w ≡ (ok false, w')
  unfolding remove_legacy_shadow
  shadow_kept w w' e native missing = rw (remove_legacy_shadow, native, missing) refl

  claim_settled :
      (indexed : Bool) (selector : up.Selector) (pods : List Pod) (w w' : api.World)
      → pod_candidates up api indexed workload selector w ≡ (ok pods, w')
      → All (λ pod. is_settled up api workload selector pod ≡ true) pods
      → claim_pods up api indexed workload selector w ≡ (ok (owned selector pods, false), w')
  unfolding claim_pods
  claim_settled indexed selector pods w w' listed settled =
      rw (claim_pods, listed, continue)
        (claim_loop_settled up api workload selector [] pods w' settled)

  -- No Pod is to be released or adopted, the active Pods are as many as are wanted, and each of them
  -- is up to date.
  pub record IsAtRest (pods : List Pod) (selector : up.Selector) : Type 0 where
    pub claimed : All (λ pod. is_settled up api workload selector pod ≡ true) pods
    pub counted : workload.spec.replicas ≡ some (pos (length (active selector pods)))
    pub updated : All (IsUpToDate up api policy_of workload.spec.template) (active selector pods)

  found_settled :
      (initial : ℕ) (indexed : Bool) (w1 w2 w3 : api.World) (e : Error) (pods : List Pod)
      (selector : up.Selector)
      → api.reader_get_native_replica_set (key_of workload.metadata) w1 ≡ (err e, w2)
      → is_not_found e ≡ true
      → up.label_selector_as_selector workload.spec.selector ≡ ok selector
      → pod_candidates up api indexed workload selector w2 ≡ (ok pods, w3)
      → IsAtRest pods selector
      → reconcile_found up api initial indexed workload w1
        ≡ reports
            (in_order (active selector pods))
            (active_replica_set_pods (owned selector pods)).1
            selector
            w3
  unfolding reconcile_found desired_replicas
  found_settled initial indexed w1 w2 w3 e pods selector native missing parsed listed rest =
      where_given workload.spec.replicas (pos (length (active selector pods))) _ _ w1 rest.counted
      ∙ rw
          (
            shadow_kept w1 w2 e native missing,
            continue,
            parsed,
            continue,
            claim_settled indexed selector pods w2 w3 listed rest.claimed,
            continue,
          )
          (pods_settled initial indexed (owned selector pods) selector w3 parsed
            (ap desired_replicas rest.counted) rest.updated)

  -- For a ReplicaSet that is read beside no native ReplicaSet of its name, whose selector parses: where
  -- no Pod is to be released or adopted, and the active Pods are as many as are wanted and up to date
  -- with the template, a run of Reconcile reports the status for those Pods and does nothing else.
  pub reconcile_at_rest :
      (initial : ℕ) (indexed : Bool) (key : ObjectKey) (w w1 w2 w3 : api.World) (e : Error)
      (pods : List Pod) (selector : up.Selector)
      → api.get_replica_set key w ≡ (ok workload, w1)
      → api.reader_get_native_replica_set (key_of workload.metadata) w1 ≡ (err e, w2)
      → is_not_found e ≡ true
      → up.label_selector_as_selector workload.spec.selector ≡ ok selector
      → pod_candidates up api indexed workload selector w2 ≡ (ok pods, w3)
      → IsAtRest pods selector
      → reconcile up api initial indexed key w
        ≡ reports
            (in_order (active selector pods))
            (active_replica_set_pods (owned selector pods)).1
            selector
            w3
  unfolding reconcile
  reconcile_at_rest initial indexed key w w1 w2 w3 e pods selector found native missing parsed
        listed rest =
      rw (reconcile, found)
        (found_settled initial indexed w1 w2 w3 e pods selector native missing parsed listed rest)
