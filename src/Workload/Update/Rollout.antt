-- ===== src/Workload/Update/Rollout.antt =====
-- updatePods run again and again, with the kubelets that restart the containers in between.
use churnless.Base.{
  ℕ, zero, suc, ◌+◌, ◌-◌, ◌*◌, ◌≤◌, ◌<◌, ◌≡◌, refl, true, false, List, [], ◌∷◌, All, map, length,
  arith, count_if,
}
use churnless.Int32.{pos, limit}
use churnless.Api.{PodTemplateSpec, PodStatus, Pod}
use churnless.Action.{ok, Action, pure, ◌>>=◌, continue}
use churnless.Upstream.{Upstream}
use churnless.Client.{Client}
use churnless.Workload.Template.{MutablePodPolicy}
use churnless.Workload.Resources.Laws.{EqualByEntries}
use churnless.Workload.Images.{pod_spec_has_images}
use churnless.Workload.Metadata.{pod_metadata_matches}
use churnless.Workload.Resources.{pod_has_resizable_resources}
use churnless.Workload.Progress.{
  all_pods, requeue_while_updating, calculate_progress, resize_infeasible, spec_matches,
  ready_and_observed,
}
use churnless.Workload.Counted.{count_if-le, calculate_progress-counts}
use churnless.Workload.Update.Outdated.{IsUpdatable, outdated, in_flight, update_pods-Updates}
use churnless.Workload.Update.{is_in_flight, update_pods}
use churnless.Workload.Update.Converges.{IsPlain}
use churnless.Workload.Update.Accepted.{Accepts, HasContainers}

module _ (up : Upstream) (policy : MutablePodPolicy) (template : PodTemplateSpec) where
  abbrev pub ready_pods : List Pod → ℕ
  ready_pods = count_if (λ pod. ready_and_observed up policy pod template)

  -- What the nodes make of a Pod's status, once they have caught up: a Pod that matches the template
  -- is ready with its images, and no resize is infeasible.
  pub record Nodes : Type 0 where
    pub status_of : Pod → PodStatus
    pub observed :
        (pod : Pod)
        → spec_matches up policy pod template ≡ true
        → ready_and_observed up policy (record pod { status = status_of pod }) template ≡ true
    pub feasible :
        (pod : Pod) → resize_infeasible policy (record pod { status = status_of pod }) ≡ false

  module _ (plain : IsPlain up template) (semantics : EqualByEntries up) (api : Client up.Selector)
      (accepts : Accepts up api) where
    module _ (nodes : Nodes) where
      abbrev caught_up : Pod → Pod
      caught_up pod = record pod { status = nodes.status_of pod }

      -- One run of updatePods, after which the nodes catch up.
      abbrev pub round : ℕ → List Pod → Action api.World (List Pod)
      round parallelism pods = do
        after ← update_pods up api policy template all_pods (pos parallelism) pods
        pure (map caught_up after)

      abbrev pub rounds : ℕ → ℕ → List Pod → Action api.World (List Pod)
      rounds parallelism zero pods = pure pods
      rounds parallelism (suc k) pods = do next ← round parallelism pods; rounds parallelism k next

      -- The status has no part in matching.
      spec_matches-caught_up :
          (pod : Pod)
          → spec_matches up policy (caught_up pod) template ≡ spec_matches up policy pod template
      unfolding spec_matches pod_metadata_matches pod_spec_has_images pod_has_resizable_resources
      spec_matches-caught_up pod = refl

      HasContainers-caught_up :
          (pod : Pod) → HasContainers template pod → HasContainers template (caught_up pod)
      HasContainers-caught_up pod h = record { inits = h.inits; containers = h.containers }

      idle_of : (pod : Pod) → is_in_flight up policy template (caught_up pod) ≡ false
      unfolding is_in_flight
      idle_of pod = ground (arith, nodes.observed pod, spec_matches-caught_up pod)

      -- Where the nodes have caught up, nothing is in flight.
      record CaughtUp (n m : ℕ) (pods : List Pod) : Type 0 where
        updatable : All (IsUpdatable up policy template) pods
        idle : in_flight up policy template pods ≡ 0
        ready : length pods ≤ n + ready_pods pods
        left : n ≡ outdated up policy template pods
        same_length : length pods ≡ m

      catches_up :
          (pods : List Pod)
          → All (IsUpdatable up policy template) pods
          → CaughtUp (outdated up policy template pods) (length pods) (map caught_up pods)
      catches_up [] a = record {
        updatable = tt;
        idle = refl;
        ready = omega arith;
        left = refl;
        same_length = refl;
      }
      catches_up (pod ∷ pods) (u, a) =
          let r = catches_up pods a in
          record {
            updatable = (
              record { has = HasContainers-caught_up pod u.has; feasible = nodes.feasible pod },
              r.updatable,
            );
            idle = ground (arith, r.idle, idle_of pod);
            ready = ground (arith, r.ready, nodes.observed pod);
            left = ground (arith, r.left, spec_matches-caught_up pod);
            same_length = omega (arith, r.same_length);
          }

      round-CaughtUp :
          (b : ℕ) (pods : List Pod) (w : api.World)
          → All (IsUpdatable up policy template) pods
          → (after : List Pod) × (w' : api.World) × (round (suc b) pods w ≡ (ok after, w'))
            × CaughtUp
                (outdated up policy template pods - (suc b - in_flight up policy template pods))
                (length pods)
                after
      round-CaughtUp b pods w a =
          let (after, w', e, r) =
            update_pods-Updates up policy template plain semantics api accepts b pods w a in
          let c = catches_up after r.updatable in
          (
            map caught_up after,
            w',
            rw (e, continue) refl,
            record {
              updatable = c.updatable;
              idle = c.idle;
              ready = omega (arith, c.ready, r.left);
              left = omega (arith, c.left, r.left);
              same_length = omega (arith, c.same_length, r.same_length);
            },
          )

      rounds_idle :
          (b k : ℕ) (pods : List Pod) (w : api.World)
          → All (IsUpdatable up policy template) pods
          → in_flight up policy template pods ≡ 0
          → length pods ≤ outdated up policy template pods + ready_pods pods
          → outdated up policy template pods ≤ k * suc b
          → (after : List Pod) × (w' : api.World) × (rounds (suc b) k pods w ≡ (ok after, w'))
            × (length after ≡ length pods)
            × (length after ≤ ready_pods after)
      rounds_idle b zero pods w a idle ready enough_rounds =
          (pods, w, refl, refl, omega (arith, ready, enough_rounds))
      rounds_idle b (suc k) pods w a idle ready enough_rounds =
          let (next, w1, e1, c) = round-CaughtUp b pods w a in
          let (after, w', e, same, all) =
            rounds_idle b k next w1 c.updatable c.idle (omega (arith, c.ready, c.left))
              (omega (arith, c.left)) in
          (after, w', rw (e1, continue) e, omega (arith, same, c.same_length), all)

      all_counted : (pods : List Pod) → count_if all_pods pods ≡ length pods
      all_counted [] = refl
      all_counted (pod ∷ pods) = omega (arith, all_counted pods)

      no_requeue :
          (pods : List Pod)
          → length pods < limit
          → length pods ≤ ready_pods pods
          → requeue_while_updating (calculate_progress up template all_pods policy pods) ≡ 0
      unfolding requeue_while_updating
      no_requeue pods small ready =
          let (e, r, u) = calculate_progress-counts up template all_pods policy pods small in
          rw e (ground (arith, all_counted pods, ready, r, u))

      ready_pods-le : (pods : List Pod) → ready_pods pods ≤ length pods
      ready_pods-le pods = omega (
        arith,
        all_counted pods,
        count_if-le (λ pod. ready_and_observed up policy pod template) all_pods (λ pod e. refl)
            pods,
      )

      -- For a plain template, where Semantic.DeepEqual does not tell resources with the same entries
      -- apart, an API server that takes every patch and resize, nodes that catch up between the runs,
      -- and fewer than 2 ^ 31 Pods that have the template's containers and no infeasible resize: where
      -- the outdated Pods are at most `k` times the parallelism, `k + 1` runs succeed. They leave as
      -- many Pods as before, every one of them ready with the template, and calculateProgress then asks
      -- for no other run.
      pub rounds_ready :
          (b k : ℕ) (pods : List Pod) (w : api.World)
          → All (IsUpdatable up policy template) pods
          → length pods < limit
          → outdated up policy template pods ≤ k * suc b
          → (after : List Pod) × (w' : api.World) × (rounds (suc b) (suc k) pods w ≡ (ok after, w'))
            × (length after ≡ length pods)
            × (ready_pods after ≡ length pods)
            × (requeue_while_updating (calculate_progress up template all_pods policy after) ≡ 0)
      rounds_ready b k pods w a small enough_rounds =
          let (next, w1, e1, c) = round-CaughtUp b pods w a in
          let (after, w', e, same, ready) =
            rounds_idle b k next w1 c.updatable c.idle (omega (arith, c.ready, c.left))
              (omega (arith, c.left)) in
          let kept : length after ≡ length pods = omega (arith, same, c.same_length) in
          (
            after,
            w',
            rw (e1, continue) e,
            kept,
            omega (arith, kept, ready, ready_pods-le after),
            no_requeue after (omega (arith, kept)) ready,
          )
