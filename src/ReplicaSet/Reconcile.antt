-- ===== src/ReplicaSet/Reconcile.antt =====
-- ReplicaSetReconciler.Reconcile, removeLegacyShadow and updateReplicaSetStatus.
use churnless.Base.{
  ℕ, Bool, true, false, ◌&&◌, none, some, String, List, length, ◌==◌, if◌then◌else◌,
}
use churnless.Int32.{ℤ, pos, wrap, ltb_ℤ}
use churnless.Api.{Time, Pod, ReplicaSet, ReplicaSetStatus}
use churnless.Action.{
  ok, err, Action, pure, fail, lift, ◌>>=◌, ◌>>◌, infallible, attempt, wrapping, wrap_error,
  ignoring_not_found, is_not_found,
}
use churnless.Upstream.{Upstream}
use churnless.Client.{Client, ObjectKey}
use churnless.Workload.Template.{mutable_pod_policy_for}
use churnless.Workload.Progress.{
  PodProgress, all_pods, calculate_progress, in_place_status, requeue_while_updating,
}
use churnless.Workload.Update.{update_pods}
use churnless.Deployment.Actions.{key_of}
use churnless.Deployment.Reconcile.{CtrlResult, done, requeue_now, requeue_in}
use churnless.ReplicaSet.Pods.{
  active_replica_set_pods, replica_set_parallelism, fully_labeled_replicas, ready_replicas,
  available_replicas,
}
use churnless.ReplicaSet.Claim.{claim_pods}
use churnless.ReplicaSet.Replicas.{reconcile_replicas}

module _ (up : Upstream) where
  unfoldable pub new_replica_set_status :
      Time → ReplicaSet → List Pod → ℤ → String → PodProgress → ReplicaSetStatus
  new_replica_set_status now workload pods terminating selector progress = record {
    observed_generation = workload.metadata.generation;
    replicas = wrap (pos (length pods));
    fully_labeled_replicas = fully_labeled_replicas up pods workload.spec.template;
    ready_replicas = ready_replicas up pods;
    available_replicas = available_replicas up pods workload.spec.min_ready_seconds now;
    terminating_replicas = elim terminating [ pos ℕ.zero ↦ none | n ↦ some n ];
    selector = selector;
    in_place = some (in_place_status progress);
  }

module _ (up : Upstream) (api : Client up.Selector) where
  unfoldable pub remove_legacy_shadow : ReplicaSet → Action api.World Bool
  remove_legacy_shadow workload = do
    found ← attempt (api.reader_get_native_replica_set (key_of workload.metadata))
    elim found [
      | err e ↦ elim (is_not_found e) [ true ↦ pure false | false ↦ fail e ]
      | ok shadow ↦ elim (up.is_controlled_by shadow workload.metadata) [
        | false ↦ pure false
        | true ↦ do
          wrapping "delete legacy native ReplicaSet"
              (ignoring_not_found (api.delete_native_replica_set shadow))
          pure true
      ]
    ]

  -- The ReplicaSet in memory afterwards: after a patch, what the API server has answered.
  unfoldable pub update_replica_set_status :
      ReplicaSet → List Pod → ℤ → String → PodProgress → Action api.World ReplicaSet
  unfolding new_replica_set_status
  update_replica_set_status workload pods terminating selector progress = do
    now ← infallible api.now
    let status = new_replica_set_status up now workload pods terminating selector progress
    elim (up.replica_set_status_equal workload.status status) [
      | true ↦ pure workload
      | false ↦ api.patch_replica_set_status workload (record workload { status = status })
    ]

  -- Updates the active Pods, reports, and says when to look again.
  unfoldable pub converge : ReplicaSet → List Pod → ℤ → up.Selector → Action api.World CtrlResult
  unfolding update_pods update_replica_set_status
  converge workload active terminating selector = do
    let policy = mutable_pod_policy_for workload.metadata.annotations
    let template = workload.spec.template
    updated ←
        update_pods up api policy template all_pods (replica_set_parallelism up workload) active
    let progress = calculate_progress up template all_pods policy updated
    selector_text ←
        lift (wrap_error "format selector" (up.label_selector_as_selector workload.spec.selector))
    reported ←
        update_replica_set_status workload updated terminating (up.selector_to_string selector_text)
          progress
    now ← infallible api.now
    let delay = requeue_while_updating progress
    pure (
        requeue_in (
          if delay == 0
            && ltb_ℤ (available_replicas up updated reported.spec.min_ready_seconds now)
                (ready_replicas up updated)
          then 1
          else delay))

  unfoldable pub reconcile_pods :
      ℕ → Bool → ReplicaSet → up.Selector → List Pod → Action api.World CtrlResult
  unfolding converge reconcile_replicas active_replica_set_pods
  reconcile_pods initial pod_owner_indexed workload selector pods = do
    let (active, terminating) = active_replica_set_pods pods
    changed ← reconcile_replicas up api initial pod_owner_indexed workload active
    elim changed [
      | true ↦ pure requeue_now
      | false ↦ converge workload active (wrap (pos terminating)) selector
    ]

  unfoldable pub reconcile_found : ℕ → Bool → ReplicaSet → Action api.World CtrlResult
  unfolding reconcile_pods remove_legacy_shadow claim_pods
  reconcile_found initial pod_owner_indexed workload = elim workload.spec.replicas [
    | none ↦ do
      api.patch_replica_set workload
          (record workload { spec = record workload.spec { replicas = some (pos 1) } })
      pure requeue_now
    | some _ ↦ do
      removed ← remove_legacy_shadow workload
      elim removed [
        | true ↦ pure requeue_now
        | false ↦ do
          selector ←
              lift
                (wrap_error "parse selector" (up.label_selector_as_selector workload.spec.selector))
          (pods, changed) ← claim_pods up api pod_owner_indexed workload selector
          elim changed [
            | true ↦ pure requeue_now
            | false ↦ reconcile_pods initial pod_owner_indexed workload selector pods
          ]
      ]
  ]

  unfoldable pub reconcile : ℕ → Bool → ObjectKey → Action api.World CtrlResult
  unfolding reconcile_found
  reconcile initial pod_owner_indexed key = do
    found ← attempt (api.get_replica_set key)
    elim found [
      | err e ↦ elim (is_not_found e) [ true ↦ pure done | false ↦ fail e ]
      | ok workload ↦ reconcile_found initial pod_owner_indexed workload
    ]
