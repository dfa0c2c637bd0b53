-- ===== src/Workload/Update/Flight.antt =====
-- How many Pods updatePods leaves in flight.
use churnless.Base.{
  ℕ, zero, suc, ◌+◌, ◌-◌, ◌≤◌, ◌≡◌, ◌∙◌, Bool, ◌&&◌, List, [], ◌∷◌, arith, max, leb, count_if,
  sort_stable, insert_sorted,
}
use churnless.Int32.{pos}
use churnless.Api.{PodTemplateSpec, Pod}
use churnless.Action.{ok, Action, pure, ◌>>=◌}
use churnless.Action.Returns.{
  Returns, Returns-pure, Returns-after, Returns-with, Returns-test, Returns-ok,
}
use churnless.Upstream.{Upstream}
use churnless.Client.{Client}
use churnless.Workload.Template.{MutablePodPolicy}
use churnless.Workload.Progress.{resize_infeasible, spec_matches}
use churnless.Workload.Update.{is_in_flight, created_before, update_loop, update_pods}
use churnless.Workload.Update.Budget.{enough}

count_if-insert_sorted :
    {A : Type 0} (less : A → A → Bool) (q : A → Bool) (x : A) (ys : List A)
    → count_if q (insert_sorted less x ys) ≡ count_if q (x ∷ ys)
unfolding insert_sorted
count_if-insert_sorted less q x [] = omega arith
count_if-insert_sorted less q x (y ∷ ys) = ground (arith, count_if-insert_sorted less q x ys)

pub count_if-sort_stable :
    {A : Type 0} (less : A → A → Bool) (q : A → Bool) (xs : List A)
    → count_if q (sort_stable less xs) ≡ count_if q xs
unfolding sort_stable
count_if-sort_stable less q [] = omega arith
count_if-sort_stable less q (x ∷ xs) =
    count_if-insert_sorted less q x (sort_stable less xs)
    ∙ ground (arith, count_if-sort_stable less q xs)

module _ (up : Upstream) (api : Client up.Selector) (policy : MutablePodPolicy)
    (template : PodTemplateSpec) (eligible : Pod → Bool) (q : Pod → Bool) where
  -- At most `n` more Pods than in `pods` pass the test.
  abbrev AtMost : ℕ → List Pod → List Pod → Type 0
  AtMost n pods after = count_if q after ≤ count_if q pods + n

  put_back :
      (n m : ℕ) (p p' : Pod) (pods : List Pod) (rest : Action api.World (List Pod))
      → (count_if q (p' ∷ []) + n ≤ count_if q (p ∷ []) + m)
      → Returns (AtMost n pods) rest
      → Returns (AtMost m (p ∷ pods)) (do after ← rest; pure (p' ∷ after))
  put_back n m p p' pods rest le r =
      Returns-with (AtMost n pods) (AtMost m (p ∷ pods)) rest (λ after. pure (p' ∷ after)) r
        (λ after h. Returns-pure _ _ (ground (arith, le, h)))

  -- Whatever is asked of a Pod, the loop changes it for no more Pods than the budget leaves.
  pub update_loop-AtMost :
      (parallelism in_flight : ℕ) (pods : List Pod)
      → Returns
          (AtMost (parallelism - in_flight) pods)
          (update_loop up api policy template eligible parallelism in_flight pods)
  unfolding update_loop
  update_loop-AtMost parallelism in_flight [] = Returns-pure _ _ (omega arith)
  update_loop-AtMost parallelism in_flight (pod ∷ pods) =
      let P = AtMost (parallelism - in_flight) (pod ∷ pods) in
      let stays = update_loop-AtMost parallelism in_flight pods in
      let moves = update_loop-AtMost parallelism (suc in_flight) pods in
      Returns-test P (leb parallelism in_flight) _ _ (λ full. Returns-pure _ _ (omega arith))
        λ room.
          let skip = put_back _ _ pod pod pods _ (omega arith) stays in
          Returns-test P (eligible pod) _ _
            (λ e.
              Returns-test P (resize_infeasible policy pod) _ _
                (λ _. Returns-after P _ _ (λ _. put_back _ _ pod pod pods _ (ground arith) moves))
                (λ _.
                  Returns-test P (spec_matches up policy pod template) _ _ (λ _. skip)
                    (λ _.
                      Returns-after P _ _ (λ p'. put_back _ _ pod p' pods _ (ground arith) moves))))
            (λ _. skip)

module _ (up : Upstream) (api : Client up.Selector) (policy : MutablePodPolicy)
    (template : PodTemplateSpec) (eligible : Pod → Bool) where
  abbrev pub in_flight : List Pod → ℕ
  in_flight = count_if (λ pod. eligible pod && is_in_flight up policy template pod)

  -- Whatever the API server answers and leaves of a Pod: where updatePods succeeds, the Pods that it
  -- leaves in flight are no more than the parallelism allows, or no more than there were.
  pub update_pods_flight :
      (parallelism : ℕ) (pods after : List Pod) (w w' : api.World)
      → update_pods up api policy template eligible (pos parallelism) pods w ≡ (ok after, w')
      → in_flight after ≤ max (in_flight pods) parallelism
  unfolding update_pods
  update_pods_flight zero pods after w w' e =
      let same : pods ≡ after = cc e in rw (← same) (omega arith)
  update_pods_flight (suc n) pods after w w' e =
      let q : Pod → Bool = λ pod. eligible pod && is_in_flight up policy template pod in
      let sorted = sort_stable created_before pods in
      let h =
        Returns-ok _ _ w w' after
          (update_loop-AtMost up api policy template eligible q (suc n) (in_flight pods) sorted)
          (rw (update_pods, enough n) at e) in
      omega (arith, h, count_if-sort_stable created_before q pods)
