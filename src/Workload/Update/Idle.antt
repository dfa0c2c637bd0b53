-- ===== src/Workload/Update/Idle.antt =====
-- updatePods where no Pod is to be updated.
use churnless.Base.{
  ℕ, zero, suc, ◌≡◌, refl, inl, inr, Bool, true, false, Bool-cases, List, [], ◌∷◌, All, arith, leb,
  sort_stable, if◌then◌else◌,
}
use churnless.Int32.{ℤ, pos, negsuc, ltb_ℤ}
use churnless.Sorted.{sort_stable-All}
use churnless.Api.{PodTemplateSpec, Pod}
use churnless.Action.{ok}
use churnless.Upstream.{Upstream}
use churnless.Client.{Client}
use churnless.Workload.Template.{MutablePodPolicy}
use churnless.Workload.Progress.{spec_matches, resize_infeasible}
use churnless.Workload.Update.Budget.{enough}
use churnless.Workload.Update.{created_before, update_loop, update_pods}

none_left : (n : ℕ) → ltb_ℤ (negsuc n) (pos 1) ≡ true
none_left n = ground arith

module _ (up : Upstream) (api : Client up.Selector) (policy : MutablePodPolicy)
    (template : PodTemplateSpec) where
  -- The Pod needs no patch and no replacement.
  pub record IsUpToDate (pod : Pod) : Type 0 where
    pub matches : spec_matches up policy pod template ≡ true
    pub feasible : resize_infeasible policy pod ≡ false

  update_loop_idle :
      (eligible : Pod → Bool) (parallelism in_flight : ℕ) (pods : List Pod) (w : api.World)
      → All IsUpToDate pods
      → update_loop up api policy template eligible parallelism in_flight pods w ≡ (ok pods, w)
  unfolding update_loop
  update_loop_idle eligible parallelism in_flight [] w a = refl
  update_loop_idle eligible parallelism in_flight (pod ∷ pods) w (u, a) =
      let rest = update_loop_idle eligible parallelism in_flight pods w a in
      elim (Bool-cases (leb parallelism in_flight)) [
        | inl full ↦ rw (update_loop, full) refl
        | inr room ↦ elim (Bool-cases (eligible pod)) [
          | inl e ↦ rw (update_loop, room, e, u.feasible, u.matches, rest) refl
          | inr e ↦ rw (update_loop, room, e, rest) refl
        ]
      ]

  -- The order in which updatePods leaves the Pods.
  abbrev pub ordered : ℤ → List Pod → List Pod
  ordered parallelism pods =
      if ltb_ℤ parallelism (pos 1) then pods else sort_stable created_before pods

  pub update_pods_idle :
      (eligible : Pod → Bool) (parallelism : ℤ) (pods : List Pod) (w : api.World)
      → All IsUpToDate pods
      → update_pods up api policy template eligible parallelism pods w
        ≡ (ok (ordered parallelism pods), w)
  unfolding update_pods
  update_pods_idle eligible (pos zero) pods w a = refl
  update_pods_idle eligible (pos (suc n)) pods w a =
      rw (update_pods, enough n)
        (update_loop_idle eligible (suc n) _ (sort_stable created_before pods) w
          (sort_stable-All created_before IsUpToDate pods a))
  update_pods_idle eligible (negsuc n) pods w a = rw (update_pods, none_left n) refl
