-- ===== src/Workload/Update/Outdated.antt =====
-- updatePods updates as many outdated Pods as its budget leaves.
use churnless.Base.{
  ℕ, suc, ◌-◌, ◌≡◌, refl, ◌∙◌, inl, inr, false, Bool-cases, not, ◌&&◌, List, [], ◌∷◌, All, length,
  arith, leb, count_if, sort_stable,
}
use churnless.Int32.{pos}
use churnless.Sorted.{length-sort_stable, sort_stable-All}
use churnless.Api.{PodTemplateSpec, Pod}
use churnless.Action.{ok, continue}
use churnless.Upstream.{Upstream}
use churnless.Client.{Client}
use churnless.Workload.Template.{MutablePodPolicy}
use churnless.Workload.Resources.Laws.{EqualByEntries}
use churnless.Workload.Progress.{all_pods, resize_infeasible, spec_matches}
use churnless.Workload.Update.{is_in_flight, created_before, update_loop, update_pods}
use churnless.Workload.Update.Budget.{enough}
use churnless.Workload.Update.Flight.{count_if-sort_stable}
use churnless.Workload.Update.Converges.{IsPlain}
use churnless.Workload.Update.Accepted.{Accepts, HasContainers, IsUpdated, update_pod-IsUpdated}

module _ (up : Upstream) (policy : MutablePodPolicy) (template : PodTemplateSpec) where
  -- A Pod that has the template's containers, and whose resize the node has not called infeasible.
  pub record IsUpdatable (pod : Pod) : Type 0 where
    pub has : HasContainers template pod
    pub feasible : resize_infeasible policy pod ≡ false

  abbrev pub outdated : List Pod → ℕ
  outdated = count_if (λ pod. not (spec_matches up policy pod template))

  abbrev pub in_flight : List Pod → ℕ
  in_flight = count_if (λ pod. all_pods pod && is_in_flight up policy template pod)

  module _ (plain : IsPlain up template) (semantics : EqualByEntries up) (api : Client up.Selector)
      (accepts : Accepts up api) where
    updated-IsUpdatable :
        (pod after : Pod)
        → IsUpdatable pod
        → IsUpdated up policy template plain pod after
        → IsUpdatable after
    unfolding resize_infeasible
    updated-IsUpdatable pod after u d = record { has = d.has; feasible = rw d.status u.feasible }

    -- The loop updates as many outdated Pods as the budget leaves.
    pub record Updates (n : ℕ) (pods after : List Pod) : Type 0 where
      pub updatable : All IsUpdatable after
      pub left : outdated after ≡ outdated pods - n
      pub same_length : length after ≡ length pods

    update_loop-Updates :
        (parallelism in_flight : ℕ) (pods : List Pod) (w : api.World)
        → All IsUpdatable pods
        → (after : List Pod) × (w' : api.World) × (update_loop up api policy template all_pods
              parallelism in_flight pods w
            ≡ (ok after, w'))
          × Updates (parallelism - in_flight) pods after
    unfolding update_loop
    update_loop-Updates parallelism in_flight [] w a =
        ([], w, refl, record { updatable = tt; left = omega arith; same_length = refl })
    update_loop-Updates parallelism in_flight (pod ∷ pods) w (u, a) =
        elim (Bool-cases (leb parallelism in_flight)) [
          | inl full ↦ (
            pod ∷ pods,
            w,
            rw (update_loop, full) refl,
            record { updatable = (u, a); left = ground (arith, full); same_length = refl },
          )
          | inr room ↦ elim (Bool-cases (spec_matches up policy pod template)) [
            | inl same ↦
                let (after, w', e, r) = update_loop-Updates parallelism in_flight pods w a in
                (
                  pod ∷ after,
                  w',
                  rw (update_loop, room, u.feasible, same, e) refl,
                  record {
                    updatable = (u, r.updatable);
                    left = ground (arith, r.left, same);
                    same_length = omega (arith, r.same_length);
                  },
                )
            | inr other ↦
                let (p', w1, e1, d) =
                  update_pod-IsUpdated up policy template plain semantics api accepts pod w u.has in
                let (after, w', e, r) = update_loop-Updates parallelism (suc in_flight) pods w1 a in
                (
                  p' ∷ after,
                  w',
                  rw (update_loop, room, u.feasible, other, e1, continue, e) refl,
                  record {
                    updatable = (updated-IsUpdatable pod p' u d, r.updatable);
                    left = ground (arith, r.left, other, room, d.matches);
                    same_length = omega (arith, r.same_length);
                  },
                )
          ]
        ]

    pub update_pods-Updates :
        (b : ℕ) (pods : List Pod) (w : api.World)
        → All IsUpdatable pods
        → (after : List Pod) × (w' : api.World) × (update_pods up api policy template all_pods
              (pos (suc b))
              pods
              w
            ≡ (ok after, w'))
          × Updates (suc b - in_flight pods) pods after
    unfolding update_pods
    update_pods-Updates b pods w a =
        let sorted = sort_stable created_before pods in
        let (after, w', e, r) =
          update_loop-Updates (suc b) (in_flight pods) sorted w
            (sort_stable-All created_before IsUpdatable pods a) in
        (
          after,
          w',
          rw (update_pods, enough b) e,
          record {
            updatable = r.updatable;
            left = omega (
              arith,
              r.left,
              count_if-sort_stable created_before (λ pod. not (spec_matches up policy pod template))
                  pods,
            );
            same_length = r.same_length ∙ length-sort_stable created_before pods;
          },
        )
