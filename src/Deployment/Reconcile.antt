-- ===== src/Deployment/Reconcile.antt =====
-- DeploymentReconciler.Reconcile. A result that comes with an error is not kept: controller-runtime
-- disregards it.
use churnless.Base.{ℕ, Bool, true, false, Option, none, some, String, List, map, if◌then◌else◌}
use churnless.Int32.{pos}
use churnless.Api.{ReplicaSet, Deployment}
use churnless.Action.{ok, err, Action, pure, fail, lift, ◌>>=◌, ◌>>◌, attempt, is_not_found}
use churnless.Upstream.{Upstream}
use churnless.Client.{Client, ObjectKey}
use churnless.Workload.Template.{structural_revision}
use churnless.Deployment.Totals.{is_same}
use churnless.Deployment.Limits.{deployment_parallelism}
use churnless.Deployment.Status.{deployment_complete}
use churnless.Deployment.Actions.{
  replica_set_for_revision, newest_replica_set, synced, remove_legacy_shadow, list_replica_sets,
  create_replica_set, sync_replica_set, update_deployment_status, rollout,
}

-- ctrl.Result; the delay is in seconds, and 0 stands for none.
pub record CtrlResult : Type 0 where
  pub requeue : Bool
  pub requeue_after : ℕ

abbrev pub done : CtrlResult
done = record { requeue = false; requeue_after = 0 }

abbrev pub requeue_now : CtrlResult
requeue_now = record { requeue = true; requeue_after = 0 }

abbrev pub requeue_in : ℕ → CtrlResult
requeue_in n = record { requeue = false; requeue_after = n }

abbrev or_newest : Option ReplicaSet → Bool → List ReplicaSet → Option ReplicaSet
or_newest (some rs) paused rss = some rs
or_newest none true rss = newest_replica_set rss
or_newest none false rss = none

-- The ReplicaSet of the revision, or the newest one while the Deployment is paused.
unfoldable pub choose_current : Deployment → String → List ReplicaSet → Option ReplicaSet
unfolding replica_set_for_revision newest_replica_set
choose_current workload revision rss =
    or_newest (replica_set_for_revision rss revision) workload.spec.paused rss

-- `current` points into the list, so what syncReplicaSet writes to it shows there too.
unfoldable pub replace_current : ReplicaSet → List ReplicaSet → List ReplicaSet
replace_current current = map (λ rs. if is_same rs current then current else rs)

module _ (up : Upstream) (api : Client up.Selector) where
  -- What follows once nothing is left to synchronise.
  unfoldable pub finish : Deployment → ReplicaSet → List ReplicaSet → Action api.World CtrlResult
  finish workload current rss = do
    reported ← update_deployment_status up api workload current rss
    elim reported.spec.paused [
      | true ↦ pure done
      | false ↦ do
        changed ← rollout up api reported current rss
        elim changed [
          | true ↦ pure requeue_now
          | false ↦
              pure (if deployment_complete up reported current rss then done else requeue_in 2)
        ]
    ]

  unfoldable pub advance :
      Deployment → String → ReplicaSet → List ReplicaSet → Action api.World CtrlResult
  unfolding finish replace_current
  advance workload revision current rss = do
    allowed ← lift (deployment_parallelism up workload rss)
    let parallelism = if workload.spec.paused then pos 0 else allowed
    changed ← sync_replica_set up api workload current revision parallelism
    let current' = synced up workload current revision parallelism
    elim changed [
      | true ↦ pure requeue_now
      | false ↦ finish workload current' (replace_current current' rss)
    ]

  unfoldable pub reconcile_found : Deployment → Action api.World CtrlResult
  unfolding advance choose_current
  reconcile_found workload = elim workload.spec.replicas [
    | none ↦ do
      api.patch_deployment workload
          (record workload { spec = record workload.spec { replicas = some (pos 1) } })
      pure requeue_now
    | some _ ↦ do
      removed ← remove_legacy_shadow up api workload
      elim removed [
        | true ↦ pure requeue_now
        | false ↦ do
          rss ← list_replica_sets up api workload
          let revision = structural_revision up workload
          elim (choose_current workload revision rss) [
            | none ↦ do create_replica_set up api workload revision; pure requeue_now
            | some current ↦ advance workload revision current rss
          ]
      ]
  ]

  unfoldable pub reconcile : ObjectKey → Action api.World CtrlResult
  unfolding reconcile_found
  reconcile key = do
    found ← attempt (api.get_deployment key)
    elim found [
      | err e ↦ elim (is_not_found e) [ true ↦ pure done | false ↦ fail e ]
      | ok workload ↦ reconcile_found workload
    ]
