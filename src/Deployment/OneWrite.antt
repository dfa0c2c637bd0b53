-- ===== src/Deployment/OneWrite.antt =====
-- A run of the Deployment reconciler makes at most one change to the objects that it manages, so
-- the next decision rests on what the API server holds then.
use churnless.Base.{ℕ, ◌+◌, ◌≤◌, String, List, if◌then◌else◌}
use churnless.Api.{ReplicaSet, Deployment}
use churnless.Action.{is_not_found}
use churnless.Action.Costs.{
  Costs, Costs-pure, Costs-fail, Costs-lift, Costs-attempt, Costs-after, Costs-then, Costs-Bool,
  Costs-Option, Costs-Result,
}
use churnless.Action.Flags.{Costs-flag}
use churnless.Upstream.{Upstream}
use churnless.Client.{Client, ObjectKey}
use churnless.Workload.Template.{structural_revision}
use churnless.Deployment.Limits.{deployment_parallelism}
use churnless.Deployment.Status.{deployment_complete}
use churnless.Deployment.Reconcile.{
  finish, advance, reconcile_found, reconcile, choose_current, done, requeue_now, requeue_in,
}
use churnless.Deployment.Writes.{
  CountsWrites, remove_legacy_shadow-Flags, create_replica_set_cost, sync_replica_set-Flags,
  rollout_cost,
}
use churnless.Deployment.Reads.{update_deployment_status_cost, list_replica_sets_cost}

module _ (up : Upstream) (api : Client up.Selector) (changes : api.World → ℕ)
    (counts : CountsWrites api changes) where
  finish_cost :
      (d : Deployment) (rs : ReplicaSet) (rss : List ReplicaSet)
      → Costs changes 1 (finish up api d rs rss)
  unfolding finish
  finish_cost d rs rss =
      Costs-after changes 1 _ _ (update_deployment_status_cost up api changes counts.reads d rs rss)
        λ after. Costs-Bool changes 1 after.spec.paused _ _ (Costs-pure changes 1 done) (
          Costs-then changes 1 _ _ (rollout_cost up api changes counts after rs rss) λ changed.
            Costs-Bool changes 0 changed _ _ (Costs-pure changes 0 requeue_now) (
              Costs-pure changes 0
                (if deployment_complete up after rs rss then done else requeue_in 2)))

  advance_cost :
      (d : Deployment) (revision : String) (rs : ReplicaSet) (rss : List ReplicaSet)
      → Costs changes 1 (advance up api d revision rs rss)
  unfolding advance
  advance_cost d revision rs rss =
      Costs-after changes 1 _ _ (Costs-lift changes 0 (deployment_parallelism up d rss)) λ allowed.
        Costs-flag changes _ _ (sync_replica_set-Flags up api changes counts d rs revision _)
          (Costs-pure changes 0 requeue_now) (finish_cost d _ _)

  reconcile_found_cost : (d : Deployment) → Costs changes 1 (reconcile_found up api d)
  unfolding reconcile_found
  reconcile_found_cost d =
      Costs-Option changes 1 d.spec.replicas _ _
        (Costs-then changes 1 _ _ (counts.patch _ _) (λ _. Costs-pure changes 0 requeue_now))
        λ n.
          Costs-flag changes _ _ (remove_legacy_shadow-Flags up api changes counts d)
            (Costs-pure changes 0 requeue_now)
            (Costs-after changes 1 _ _ (list_replica_sets_cost up api changes counts.reads d) λ rss.
              Costs-Option changes 1 (choose_current d (structural_revision up d) rss) _ _
                (Costs-then changes 1 _ _ (create_replica_set_cost up api changes counts d _)
                  (λ _. Costs-pure changes 0 requeue_now))
                (λ current. advance_cost d _ current rss))

  -- For a measure of the world that no read and no status patch raises, and each write of a
  -- specification, a creation or a deletion raises by at most one: one run of Reconcile, whatever it
  -- finds and whatever fails, raises it by at most one.
  pub reconcile_one_write :
      (key : ObjectKey) (w : api.World) → changes (reconcile up api key w).1 ≤ changes w + 1
  unfolding reconcile
  reconcile_one_write key =
      (Costs-after changes 1 _ _ (Costs-attempt changes 0 _ (counts.reads.get key)) λ found.
        Costs-Result changes 1 found _ _ reconcile_found_cost (λ e.
          Costs-Bool changes 1 (is_not_found e) _ _ (Costs-pure changes 1 done)
            (Costs-fail changes 1 e))).at
