-- ===== src/Deployment/Reads.antt =====
-- The steps of the Deployment reconciler that write no more than a status.
use churnless.Base.{ℕ, ◌≤◌, true, false, String, List, [], ◌∷◌}
use churnless.Int32.{pos, ltb_ℤ}
use churnless.Api.{ReplicaSet, Deployment}
use churnless.Action.{infallible}
use churnless.Action.Costs.{
  Costs, Costs-pure, Costs-lift, Costs-infallible, Costs-wrapping, Costs-after, Costs-Bool,
}
use churnless.Upstream.{Upstream}
use churnless.Client.{Client, ObjectKey}
use churnless.Deployment.Totals.{total_old_observed_pods}
use churnless.Deployment.Status.{new_deployment_status}
use churnless.Deployment.Actions.{
  list_replica_sets, list_old_running, old_pods_running, update_deployment_status,
}

-- A measure that no read and no status patch raises.
pub record CountsReads {S : Type 0} (api : Client S) (changes : api.World → ℕ) : Type 0 where
  pub clock : (w : api.World) → changes (api.now w).1 ≤ changes w
  pub get : (k : ObjectKey) → Costs changes 0 (api.get_deployment k)
  pub get_native : (k : ObjectKey) → Costs changes 0 (api.reader_get_native_deployment k)
  pub list : (n : List ℕ) → Costs changes 0 (api.reader_list_replica_sets n)
  pub list_pods : (n : List ℕ) (s : S) → Costs changes 0 (api.reader_list_matching_pods n s)
  pub patch_status : (a b : Deployment) → Costs changes 0 (api.patch_deployment_status a b)

module _ (up : Upstream) (api : Client up.Selector) (changes : api.World → ℕ)
    (list_pods : (n : List ℕ) (s : up.Selector)
      → Costs changes 0 (api.reader_list_matching_pods n s)) where
  list_old_running_cost :
      (d : Deployment) (uids : List String) → Costs changes 0 (list_old_running up api d uids)
  unfolding list_old_running
  list_old_running_cost d [] = Costs-pure changes 0 false
  list_old_running_cost d (uid ∷ uids) =
      Costs-after changes 0 _ _ (Costs-lift changes 0 _) λ selector.
        Costs-after changes 0 _ _
          (Costs-wrapping changes 0 "list Pods for Recreate rollout" _ (list_pods _ _))
          λ pods. Costs-pure changes 0 _

  pub old_pods_running_cost :
      (d : Deployment) (rs : ReplicaSet) (rss : List ReplicaSet)
      → Costs changes 0 (old_pods_running up api d rs rss)
  unfolding old_pods_running
  old_pods_running_cost d rs rss =
      Costs-Bool changes 0 (ltb_ℤ (pos 0) (total_old_observed_pods rs rss)) _ _
        (Costs-pure changes 0 true) (list_old_running_cost d _)

module _ (up : Upstream) (api : Client up.Selector) (changes : api.World → ℕ)
    (reads : CountsReads api changes) where
  pub update_deployment_status_cost :
      (d : Deployment) (rs : ReplicaSet) (rss : List ReplicaSet)
      → Costs changes 0 (update_deployment_status up api d rs rss)
  unfolding update_deployment_status
  update_deployment_status_cost d rs rss =
      Costs-after changes 0 _ _ (Costs-lift changes 0 _) λ selector.
        Costs-after changes 0 _ _ clock_cost λ now. Costs-after changes 0 _ _ clock_cost λ later.
          let status =
            new_deployment_status up now later d rs rss (up.selector_to_string selector) in
          Costs-Bool changes 0 (up.deployment_status_equal d.status status) _ _
            (Costs-pure changes 0 d) (reads.patch_status d (record d { status = status }))
    where
      clock_cost : Costs changes 0 (infallible api.now)
      clock_cost = Costs-infallible changes api.now reads.clock

  pub list_replica_sets_cost : (d : Deployment) → Costs changes 0 (list_replica_sets up api d)
  unfolding list_replica_sets
  list_replica_sets_cost d =
      Costs-after changes 0 _ _ (reads.list _) (λ items. Costs-pure changes 0 _)
