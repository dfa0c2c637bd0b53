-- ===== src/Workload/Update/Budget.antt =====
-- updatePods patches no more Pods than its budget leaves.
use churnless.Base.{
  ℕ, zero, suc, ◌+◌, ◌-◌, ◌≤◌, ◌≡◌, Bool, false, ◌&&◌, List, [], ◌∷◌, arith, leb, count_if,
  sort_stable,
}
use churnless.Int32.{pos, ltb_ℤ}
use churnless.Api.{PodTemplateSpec, Pod}
use churnless.Action.{wrap, pure}
use churnless.Action.Costs.{
  Costs, Costs-pure, Costs-fail, Costs-lift, Costs-mono, Costs-attempt, Costs-wrapping,
  Costs-ignoring, Costs-after, Costs-then, Costs-suc, Costs-Bool, Costs-test, Costs-Result,
}
use churnless.Upstream.{Upstream}
use churnless.Client.{Client}
use churnless.Workload.Template.{MutablePodPolicy}
use churnless.Workload.Progress.{resize_infeasible, spec_matches}
use churnless.Workload.Update.{
  is_in_flight, created_before, resize_or_replace, update_pod, fallback_from_resize_error,
  update_loop, update_pods,
}

pub enough : (n : ℕ) → ltb_ℤ (pos (suc n)) (pos 1) ≡ false
enough n = ground arith

module _ (up : Upstream) (api : Client up.Selector) (patches : api.World → ℕ)
    (patch_cost : (a b : Pod) → Costs patches 1 (api.patch_pod a b))
    (resize_cost : (p : Pod) → Costs patches 0 (api.resize_pod p))
    (delete_cost : (p : Pod) → Costs patches 0 (api.delete_pod p)) (policy : MutablePodPolicy)
    (template : PodTemplateSpec) where
  resize_or_replace_cost : (p : Pod) → Costs patches 0 (resize_or_replace up api policy template p)
  unfolding resize_or_replace
  resize_or_replace_cost p = Costs-after patches 0 _ _ (Costs-lift patches 0 _) λ wanted.
      Costs-after patches 0 _ _ (Costs-attempt patches 0 _ (resize_cost wanted)) λ answer.
        Costs-Result patches 0 answer _ _ (λ resized. Costs-pure patches 0 resized)
          λ e.
            Costs-Bool patches 0 (fallback_from_resize_error e) _ _
              (Costs-after patches 0 _ _
                (Costs-wrapping patches 0 "replace Pod after resize rejection" _
                  (Costs-ignoring patches 0 _ (delete_cost wanted)))
                (λ _. Costs-pure patches 0 wanted))
              (Costs-fail patches 0 (wrap "resize Pod" e))

  update_pod_cost : (p : Pod) → Costs patches 1 (update_pod up api policy template p)
  unfolding update_pod
  update_pod_cost p = Costs-after patches 1 _ _ (Costs-lift patches 0 _) λ changed.
      Costs-suc patches 0 _ _ (Costs-wrapping patches 1 _ _ (patch_cost _ _)) λ patched.
        Costs-Bool patches 0 _ _ _ (resize_or_replace_cost patched) (Costs-pure patches 0 _)

  update_loop_cost :
      (eligible : Pod → Bool) (parallelism in_flight : ℕ) (pods : List Pod)
      → Costs patches
          (parallelism - in_flight)
          (update_loop up api policy template eligible parallelism in_flight pods)
  unfolding update_loop
  update_loop_cost eligible parallelism in_flight [] = Costs-pure patches _ _
  update_loop_cost eligible parallelism in_flight (pod ∷ pods) =
      Costs-test patches (parallelism - in_flight) (leb parallelism in_flight) _ _
        (λ full. Costs-pure patches _ _)
        λ room.
          let left = parallelism - in_flight in
          let fewer = parallelism - suc in_flight in
          let stays = update_loop_cost eligible parallelism in_flight pods in
          let moves = update_loop_cost eligible parallelism (suc in_flight) pods in
          let skip =
            Costs-then patches left _ (λ rest. pure (pod ∷ rest)) stays
              (λ _. Costs-pure patches 0 _) in
          let keep_rest = λ (p : Pod) (q : List Pod). Costs-pure patches {A = List Pod} 0 (p ∷ q) in
          let after_one = λ (p : Pod).
            Costs-then patches fewer
              (update_loop up api policy template eligible parallelism (suc in_flight) pods)
              (λ rest. pure (p ∷ rest)) moves (keep_rest p) in
          Costs-Bool patches left (eligible pod) _ _
            (Costs-Bool patches left (resize_infeasible policy pod) _ _
              (Costs-mono patches fewer left _ (omega arith) (
                Costs-after patches fewer _ _
                  (Costs-wrapping patches 0 "replace Pod after infeasible resize" _
                    (Costs-ignoring patches 0 _ (delete_cost pod)))
                  (λ _. after_one pod)))
              (Costs-Bool patches left (spec_matches up policy pod template) _ _ skip (
                Costs-mono patches (suc fewer) left _ (ground arith)
                  (Costs-suc patches fewer _ _ (update_pod_cost pod) after_one))))
            skip

  -- For a measure that a patch of a Pod raises by at most one, and resizing or deleting one does not
  -- raise: updatePods raises it by no more than the budget leaves after the Pods in flight.
  pub update_pods_budget :
      (eligible : Pod → Bool) (parallelism : ℕ) (pods : List Pod) (w : api.World)
      → patches (update_pods up api policy template eligible (pos parallelism) pods w).1
        ≤ patches w
          + (parallelism
              - count_if (λ pod. eligible pod && is_in_flight up policy template pod) pods)
  unfolding update_pods
  update_pods_budget eligible zero pods w = omega arith
  update_pods_budget eligible (suc n) pods w =
      let in_flight = count_if (λ pod. eligible pod && is_in_flight up policy template pod) pods in
      rw (enough n, update_pods)
        ((update_loop_cost eligible (suc n) in_flight (sort_stable created_before pods)).at w)
