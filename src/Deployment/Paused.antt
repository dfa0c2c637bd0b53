-- ===== src/Deployment/Paused.antt =====
-- A Deployment that is paused.
use churnless.Base.{ℕ, ◌≤◌, ◌≡◌, refl, subst, ◌+◌, true, false, ◌&&◌, some, String, List, arith}
use churnless.Int32.{ℤ, pos}
use churnless.StringMap.{equal}
use churnless.Api.{ObjectMeta, LabelSelector, ReplicaSet, Deployment}
use churnless.Action.{Result, ok, pure, lift, infallible, wrap_error, is_not_found}
use churnless.Action.Costs.{
  Costs, Costs-pure, Costs-fail, Costs-lift, Costs-attempt, Costs-wrapping, Costs-ignoring,
  Costs-after, Costs-then, Costs-Bool, Costs-Option, Costs-Result,
}
use churnless.Action.Returns.{Returns, Returns-pure, Returns-after, Returns-test, Costs-told}
use churnless.Upstream.{Upstream}
use churnless.Client.{Client, ObjectKey}
use churnless.Workload.Template.{structural_revision}
use churnless.Deployment.Status.{new_deployment_status}
use churnless.Deployment.Limits.{deployment_parallelism}
use churnless.Deployment.Actions.{
  remove_legacy_shadow, create_replica_set, create_with, new_replica_set, sync_replica_set, synced,
  update_deployment_status,
}
use churnless.Deployment.Reads.{CountsReads, update_deployment_status_cost, list_replica_sets_cost}
use churnless.Deployment.Reconcile.{
  finish, advance, reconcile_found, reconcile, choose_current, done, requeue_now,
}

-- A measure that is raised only by a ReplicaSet that is created with replicas, or that gets another
-- count or another template.
pub record CountsRollouts {S : Type 0} (api : Client S) (moved : api.World → ℕ) : Type 0 where
  pub reads : CountsReads api moved
  pub patch : (a b : Deployment) → Costs moved 0 (api.patch_deployment a b)
  pub delete_native : (m : ObjectMeta) → Costs moved 0 (api.delete_native_deployment m)
  pub create :
      (rs : ReplicaSet)
      → rs.spec.replicas ≡ some (pos 0)
      → Costs moved 0 (api.create_replica_set rs)
  pub patch_rs :
      (a b : ReplicaSet)
      → b.spec.replicas ≡ a.spec.replicas
      → b.spec.template ≡ a.spec.template
      → Costs moved 0 (api.patch_replica_set a b)

-- Nobody unpauses the Deployment while it is reconciled: the answer to the patch of its status, which
-- the reconciler goes on with, is paused too.
pub record StaysPaused {S : Type 0} (api : Client S) : Type 0 where
  pub answered :
      (a b : Deployment)
      → b.spec.paused ≡ true
      → Returns (λ d. d.spec.paused ≡ true) (api.patch_deployment_status a b)

module _ (up : Upstream) (api : Client up.Selector) (moved : api.World → ℕ)
    (counts : CountsRollouts api moved) (stays : StaysPaused api) (d : Deployment)
    (paused : d.spec.paused ≡ true) where
  shadow_cost : Costs moved 0 (remove_legacy_shadow up api d)
  unfolding remove_legacy_shadow
  shadow_cost =
      Costs-after moved 0 _ _ (Costs-attempt moved 0 _ (counts.reads.get_native _)) λ found.
        Costs-Result moved 0 found _ _
          (λ shadow.
            Costs-Bool moved 0 (up.is_controlled_by shadow d.metadata) _ _
              (Costs-then moved 0 _ _
                (Costs-wrapping moved 0 "delete legacy native Deployment" _
                  (Costs-ignoring moved 0 _ (counts.delete_native shadow)))
                (λ _. Costs-pure moved 0 true))
              (Costs-pure moved 0 false))
          (λ e.
            Costs-Bool moved 0 (is_not_found e) _ _ (Costs-pure moved 0 false)
              (Costs-fail moved 0 e))

  create_with_cost :
      (revision : String) (selector : LabelSelector)
      → Costs moved 0 (create_with up api d revision selector)
  unfolding create_with new_replica_set
  create_with_cost revision selector = Costs-after moved 0 _ _ (Costs-lift moved 0 _) λ m.
      Costs-wrapping moved 0 "create Churnless ReplicaSet" _
        (counts.create (record (new_replica_set d revision selector) { metadata = m }) refl)

  create_cost : (revision : String) → Costs moved 0 (create_replica_set up api d revision)
  unfolding create_replica_set
  create_cost revision =
      Costs-Option moved 0 d.spec.selector _ _ (Costs-fail moved 0 _) (create_with_cost revision)

  sync_cost :
      (rs : ReplicaSet) (revision : String) (p : ℤ)
      → Costs moved 0 (sync_replica_set up api d rs revision p)
  unfolding sync_replica_set
  sync_cost rs revision p =
      Costs-Bool moved 0
        (up.spec_equal rs.spec (synced up d rs revision p).spec
          && equal rs.metadata.annotations (synced up d rs revision p).metadata.annotations)
        _ _ (Costs-pure moved 0 false)
        (Costs-then moved 0 _ _
          (Costs-wrapping moved 0 "update Churnless ReplicaSet" _
            (counts.patch_rs _ _ refl (rw paused refl)))
          (λ _. Costs-pure moved 0 true))

  status-Returns :
      (rs : ReplicaSet) (rss : List ReplicaSet)
      → Returns (λ after. after.spec.paused ≡ true) (update_deployment_status up api d rs rss)
  unfolding update_deployment_status
  status-Returns rs rss =
      let P : Deployment → Type 0 = λ after. after.spec.paused ≡ true in
      let parsed = wrap_error "format selector" (up.label_selector_as_selector d.spec.selector) in
      Returns-after P (lift parsed) _ λ selector. Returns-after P (infallible api.now) _ λ now.
        Returns-after P (infallible api.now) _ λ later.
          let status =
            new_deployment_status up now later d rs rss (up.selector_to_string selector) in
          Returns-test P (up.deployment_status_equal d.status status) (pure d)
            (api.patch_deployment_status d (record d { status = status }))
            (λ _. Returns-pure P d paused) (λ _. stays.answered d _ paused)

  finish_cost : (rs : ReplicaSet) (rss : List ReplicaSet) → Costs moved 0 (finish up api d rs rss)
  unfolding finish
  finish_cost rs rss =
      Costs-told moved 0 (λ after. after.spec.paused ≡ true) _ _
        (update_deployment_status_cost up api moved counts.reads d rs rss) (status-Returns rs rss)
        λ after still. rw still (Costs-pure moved 0 done)

  advance_cost :
      (revision : String) (rs : ReplicaSet) (rss : List ReplicaSet)
      → Costs moved 0 (advance up api d revision rs rss)
  unfolding advance
  advance_cost revision rs rss =
      Costs-after moved 0 _ _ (Costs-lift moved 0 (deployment_parallelism up d rss)) λ allowed.
        Costs-after moved 0 _ _ (sync_cost rs revision _) λ changed.
          Costs-Bool moved 0 changed _ _ (Costs-pure moved 0 requeue_now) (finish_cost _ _)

  found_cost : Costs moved 0 (reconcile_found up api d)
  unfolding reconcile_found
  found_cost =
      Costs-Option moved 0 d.spec.replicas _ _
        (Costs-then moved 0 _ _ (counts.patch _ _) (λ _. Costs-pure moved 0 requeue_now))
        λ n. Costs-after moved 0 _ _ shadow_cost λ removed.
          Costs-Bool moved 0 removed _ _ (Costs-pure moved 0 requeue_now) (
            Costs-after moved 0 _ _ (list_replica_sets_cost up api moved counts.reads d) λ rss.
              Costs-Option moved 0 (choose_current d (structural_revision up d) rss) _ _
                (Costs-then moved 0 _ _ (create_cost _) (λ _. Costs-pure moved 0 requeue_now))
                (λ current. advance_cost _ current rss))

-- For a measure that is raised only by a ReplicaSet that is created with replicas, or that gets
-- another count or another template, and where the answer to the patch of the status of a paused
-- Deployment is paused too: a run of Reconcile that finds the Deployment paused does not raise it,
-- whatever else it finds and whatever fails.
pub reconcile-paused :
    (up : Upstream) (api : Client up.Selector) (moved : api.World → ℕ)
    → CountsRollouts api moved
    → StaysPaused api
    → (key : ObjectKey) (w w' : api.World) (d : Deployment) → api.get_deployment key w ≡ (ok d, w')
    → d.spec.paused ≡ true
    → moved (reconcile up api key w).1 ≤ moved w
unfolding reconcile
reconcile-paused up api moved counts stays key w w' d found paused =
    let after = (found_cost up api moved counts stays d paused).at w' in
    let read : moved w' ≤ moved w + 0 =
      subst (λ (p : Result Deployment × api.World). moved p.1 ≤ moved w + 0) found
        ((counts.reads.get key).at w) in
    rw (reconcile, found) (omega (arith, after, read))
