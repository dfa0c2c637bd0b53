-- ===== src/Deployment/Writes.antt =====
-- How many changes each step of the Deployment reconciler makes.
use churnless.Base.{ℕ, Bool, true, false, ◌&&◌, not, String, List, if◌then◌else◌}
use churnless.Int32.{ℤ, pos, eqb_ℤ}
use churnless.StringMap.{equal}
use churnless.Api.{ObjectMeta, ReplicaSet, Deployment}
use churnless.Action.{Action, is_not_found}
use churnless.Action.Costs.{
  Costs, Costs-pure, Costs-fail, Costs-lift, Costs-attempt, Costs-wrapping, Costs-ignoring,
  Costs-after, Costs-then, Costs-Bool, Costs-Option,
}
use churnless.Action.Flags.{
  Flags, Flags-pure, Flags-fail, Flags-after, Flags-write, Flags-Bool, Flags-Result,
}
use churnless.Upstream.{Upstream}
use churnless.Client.{Client}
use churnless.Deployment.Totals.{replicas_of, desired_replicas, total_old_replicas}
use churnless.Deployment.Limits.{is_recreate}
use churnless.Deployment.Rolling.{rolling_target}
use churnless.Deployment.Actions.{
  remove_legacy_shadow, create_replica_set, sync_replica_set, synced, scale_replica_set,
  first_old_with_replicas, recreate_rollout, rolling_rollout, rollout,
}
use churnless.Deployment.Reads.{CountsReads, old_pods_running_cost}

-- A measure that no read and no status patch raises, and each write of a specification, a creation
-- or a deletion raises by at most one.
pub record CountsWrites {S : Type 0} (api : Client S) (changes : api.World → ℕ) : Type 0 where
  pub reads : CountsReads api changes
  pub patch : (a b : Deployment) → Costs changes 1 (api.patch_deployment a b)
  pub delete_native : (m : ObjectMeta) → Costs changes 1 (api.delete_native_deployment m)
  pub create : (rs : ReplicaSet) → Costs changes 1 (api.create_replica_set rs)
  pub patch_rs : (a b : ReplicaSet) → Costs changes 1 (api.patch_replica_set a b)

module _ (up : Upstream) (api : Client up.Selector) (changes : api.World → ℕ)
    (counts : CountsWrites api changes) where
  abbrev pub C : {A : Type 0} → ℕ → Action api.World A → Type 0
  C = Costs changes

  pub remove_legacy_shadow-Flags : (d : Deployment) → Flags changes (remove_legacy_shadow up api d)
  unfolding remove_legacy_shadow
  remove_legacy_shadow-Flags d =
      Flags-after changes _ _ (Costs-attempt changes 0 _ (counts.reads.get_native _)) λ found.
        Flags-Result changes found _ _
          (λ shadow.
            Flags-Bool changes (up.is_controlled_by shadow d.metadata) _ _
              (Flags-write changes _ (
                Costs-wrapping changes 1 "delete legacy native Deployment" _
                  (Costs-ignoring changes 1 _ (counts.delete_native shadow))))
              (Flags-pure changes false))
          (λ e.
            Flags-Bool changes (is_not_found e) _ _ (Flags-pure changes false)
              (Flags-fail changes e))

  pub create_replica_set_cost :
      (d : Deployment) (revision : String) → C 1 (create_replica_set up api d revision)
  unfolding create_replica_set
  create_replica_set_cost d revision =
      Costs-Option changes 1 d.spec.selector _ _ (Costs-fail changes 1 _) λ selector.
        Costs-after changes 1 _ _ (Costs-lift changes 0 _)
          λ m. Costs-wrapping changes 1 _ _ (counts.create _)

  pub sync_replica_set-Flags :
      (d : Deployment) (rs : ReplicaSet) (revision : String) (p : ℤ)
      → Flags changes (sync_replica_set up api d rs revision p)
  unfolding sync_replica_set
  sync_replica_set-Flags d rs revision p =
      Flags-Bool changes
        (up.spec_equal rs.spec (synced up d rs revision p).spec
          && equal rs.metadata.annotations (synced up d rs revision p).metadata.annotations)
        _ _ (Flags-pure changes false)
        (Flags-write changes _
          (Costs-wrapping changes 1 "update Churnless ReplicaSet" _ (counts.patch_rs _ _)))

  pub scale_replica_set_cost : (rs : ReplicaSet) (n : ℤ) → C 1 (scale_replica_set up api rs n)
  unfolding scale_replica_set
  scale_replica_set_cost rs n =
      Costs-Bool changes 1 (eqb_ℤ (replicas_of rs) n) _ _ (Costs-pure changes 1 false) (
        Costs-then changes 1 _ _
          (Costs-wrapping changes 1 "scale Churnless ReplicaSet" _ (counts.patch_rs _ _))
          (λ _. Costs-pure changes 0 true))

  recreate_rollout_cost :
      (d : Deployment) (rs : ReplicaSet) (rss : List ReplicaSet)
      → C 1 (recreate_rollout up api d rs rss)
  unfolding recreate_rollout
  recreate_rollout_cost d rs rss =
      Costs-Option changes 1 (first_old_with_replicas rs rss) _ _
        (Costs-after changes 1 _ _
          (old_pods_running_cost up api changes counts.reads.list_pods d rs rss)
          λ running.
            Costs-Bool changes 1 (eqb_ℤ (total_old_replicas rs rss) (pos 0) && not running) _ _
              (scale_replica_set_cost rs (desired_replicas d.spec.replicas))
              (Costs-pure changes 1 false))
        (λ old. scale_replica_set_cost old (pos 0))

  rolling_rollout_cost :
      (d : Deployment) (rs : ReplicaSet) (rss : List ReplicaSet)
      → C 1 (rolling_rollout up api d rs rss)
  unfolding rolling_rollout
  rolling_rollout_cost d rs rss =
      Costs-after changes 1 _ _ (Costs-lift changes 0 _) λ (surge, unavailable).
        Costs-Option changes 1
          (rolling_target (desired_replicas d.spec.replicas) surge unavailable rs rss) _ _
          (Costs-pure changes 1 false) (λ (target, n). scale_replica_set_cost target n)

  pub rollout_cost :
      (d : Deployment) (rs : ReplicaSet) (rss : List ReplicaSet) → C 1 (rollout up api d rs rss)
  unfolding rollout
  rollout_cost d rs rss = by_strategy (is_recreate d.spec.strategy.type)
    where
      by_strategy :
          (b : Bool)
          → C 1 (if b then recreate_rollout up api d rs rss else rolling_rollout up api d rs rss)
      by_strategy true = recreate_rollout_cost d rs rss
      by_strategy false = rolling_rollout_cost d rs rss
