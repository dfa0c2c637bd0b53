-- ===== src/Deployment/Recreate.antt =====
-- The Recreate strategy: what has to be gone before the current ReplicaSet is scaled.
pub mod Scene
pub mod Turns
pub mod Apart
pub mod Waiting
pub mod Finishes
use churnless.Base.{
  ℕ, ◌≤◌, ◌≡◌, ◌⊎◌, inl, inr, Bool, true, false, ◌&&◌, not, Bool-cases, some, Option-cases, List,
  [], ◌∷◌, arith,
}
use churnless.Int32.{ℤ, pos, eqb_ℤ, ltb_ℤ}
use churnless.Api.{ReplicaSet, Deployment}
use churnless.Action.{Result, ok, err, Action, pure, continue}
use churnless.Action.Costs.{Costs, Costs-pure, Costs-wrapping, Costs-then, Costs-Bool}
use churnless.Upstream.{Upstream}
use churnless.Client.{Client}
use churnless.Deployment.Totals.{replicas_of, is_same, desired_replicas, total_old_replicas}
use churnless.Deployment.Reads.{old_pods_running_cost}
use churnless.Deployment.Actions.{
  scale_replica_set, old_pods_running, first_old_with_replicas, recreate_rollout,
}

pub first_old_is_old :
    (current : ReplicaSet) (rss : List ReplicaSet) (old : ReplicaSet)
    → first_old_with_replicas current rss ≡ some old
    → is_same old current ≡ false
unfolding first_old_with_replicas
first_old_is_old current [] old e = cc
first_old_is_old current (rs ∷ rss) old e =
    elim (Bool-cases (not (is_same rs current) && ltb_ℤ (pos 0) (replicas_of rs))) [
      | inl this ↦
          let found = rw this at e in let same : rs ≡ old = cc found in rw (← same) (ground arith)
      | inr other ↦ first_old_is_old current rss old (rw other at e)
    ]

-- `touched` counts what is done to the current ReplicaSet.
module _ (up : Upstream) (api : Client up.Selector) (touched : api.World → ℕ) (current : ReplicaSet)
    (list_cost : (n : List ℕ) (s : up.Selector)
      → Costs touched 0 (api.reader_list_matching_pods n s))
    (other_cost : (a b : ReplicaSet)
      → is_same a current ≡ false
      → Costs touched 0 (api.patch_replica_set a b)) where
  scale_other_cost :
      (rs : ReplicaSet) (n : ℤ)
      → is_same rs current ≡ false
      → Costs touched 0 (scale_replica_set up api rs n)
  unfolding scale_replica_set
  scale_other_cost rs n h =
      Costs-Bool touched 0 (eqb_ℤ (replicas_of rs) n) _ _ (Costs-pure touched 0 false) (
        Costs-then touched 0 _ _
          (Costs-wrapping touched 0 "scale Churnless ReplicaSet" _ (other_cost _ _ h))
          (λ _. Costs-pure touched 0 true))

  -- The step after old_pods_running, where the current ReplicaSet has to wait.
  abbrev when_clear : Deployment → Bool → Bool → Action api.World Bool
  when_clear d none_wanted running = elim (none_wanted && not running) [
    | true ↦ scale_replica_set up api current (desired_replicas d.spec.replicas)
    | false ↦ pure false
  ]

  still_wanted :
      (d : Deployment) (r : Result Bool) (w : api.World)
      → touched (continue (when_clear d false) r w).1 ≤ touched w
  still_wanted d (ok running) w = omega arith
  still_wanted d (err e) w = omega arith

  still_running :
      (d : Deployment) (b : Bool) (w : api.World)
      → touched (continue (when_clear d b) (ok true) w).1 ≤ touched w
  still_running d true w = omega arith
  still_running d false w = omega arith

  -- For a measure that only patches of the current ReplicaSet raise: the Recreate strategy does not
  -- raise it while the old ReplicaSets still ask for replicas, or while Pods of theirs are counted in a
  -- status or found running.
  pub recreate_waits :
      (d : Deployment) (rss : List ReplicaSet) (w : api.World)
      → (eqb_ℤ (total_old_replicas current rss) (pos 0) ≡ false)
        ⊎ ((old_pods_running up api d current rss w).0 ≡ ok true)
      → touched (recreate_rollout up api d current rss w).1 ≤ touched w
  unfolding recreate_rollout
  recreate_waits d rss w h = elim (Option-cases (first_old_with_replicas current rss)) [
    | inr (old, e) ↦
        let c = scale_other_cost old (pos 0) (first_old_is_old current rss old e) in
        rw (recreate_rollout, e) (omega (arith, c.at w))
    | inl e ↦
        let (r, w') = old_pods_running up api d current rss w in
        let same = (old_pods_running_cost up api touched list_cost d current rss).at w in
        elim h [
          | inl wanted ↦ rw (recreate_rollout, e, wanted) (omega (arith, same, still_wanted d r w'))
          | inr running ↦
              rw (recreate_rollout, e, running)
                (omega (
                  arith,
                  same,
                  still_running d (eqb_ℤ (total_old_replicas current rss) (pos 0)) w',
                ))
        ]
  ]
