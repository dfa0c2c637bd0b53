-- ===== src/Workload/Update/History.antt =====
-- Any sequence of runs of updatePods, with any changes of the Pods in between.
use churnless.Base.{ℕ, ◌+◌, ◌-◌, ◌≤◌, ◌≡◌, Bool, List, arith, max}
use churnless.Int32.{pos}
use churnless.Api.{PodTemplateSpec, Pod}
use churnless.Action.{ok}
use churnless.Upstream.{Upstream}
use churnless.Client.{Client}
use churnless.Workload.Template.{MutablePodPolicy}
use churnless.Workload.Update.{update_pods}
use churnless.Workload.Update.Flight.{in_flight, update_pods_flight}

module _ (up : Upstream) (api : Client up.Selector) (policy : MutablePodPolicy)
    (template : PodTemplateSpec) (eligible : Pod → Bool) where
  abbrev pub flight : List Pod → ℕ
  flight pods = in_flight up api policy template eligible pods

  -- A run has any parallelism up to `most`. In between, the Pods may change in any way: they may become
  -- ready or unready, come and go. `others` is how many have been brought into flight by these changes.
  pub data Reached (most : ℕ) (start : List Pod) : ℕ → List Pod → Type 0 where
    started : Reached most start 0 start
    updated :
        {others : ℕ} {pods after : List Pod} (parallelism : ℕ) (w w' : api.World)
        → Reached most start others pods
        → parallelism ≤ most
        → update_pods up api policy template eligible (pos parallelism) pods w ≡ (ok after, w')
        → Reached most start others after
    changed :
        {others : ℕ} {pods : List Pod} (after : List Pod)
        → Reached most start others pods
        → Reached most start (others + (flight after - flight pods)) after

  -- In every state that successful runs, of a parallelism of at most `most`, and changes of any kind lead
  -- to: but for those that the changes have brought into flight, at most `most` Pods are in flight, or
  -- no more than at the start.
  pub Reached-flight :
      {most : ℕ} {start : List Pod} {others : ℕ} {pods : List Pod}
      → Reached most start others pods
      → flight pods ≤ max (flight start) most + others
  Reached-flight started = omega arith
  Reached-flight (updated parallelism w w' r le e) = omega (
    arith,
    Reached-flight r,
    le,
    update_pods_flight up api policy template eligible parallelism _ _ w w' e,
  )
  Reached-flight (changed after r) = omega (arith, Reached-flight r)
