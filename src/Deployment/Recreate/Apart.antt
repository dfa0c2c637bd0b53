-- ===== src/Deployment/Recreate/Apart.antt =====
-- Under Recreate the Pods of the current ReplicaSet and those of the old ones are never wanted, nor
-- run, at the same time.
use churnless.Base.{◌<◌, ◌≡◌, ◌⊎◌, true, List}
use churnless.Api.{Pod, ReplicaSet, ReplicaSetStatus, Deployment}
use churnless.Upstream.{Upstream}
use churnless.Client.{Client}
use churnless.Deployment.Counts.{spec_count}
use churnless.Deployment.Rounds.{changed, with_status}
use churnless.Deployment.Actions.{recreate_rollout}
use churnless.Deployment.Recreate.Scene.{Scene, old_running, current_running, old_wanted}

module _ (up : Upstream) where
  module _ (api : Client up.Selector) (view : api.World → Scene) (workload : Deployment) where
    -- A run finds the ReplicaSets as they are. In between, the ReplicaSets may report, and Pods may come
    -- and go, but none comes to run that its ReplicaSet does not want.
    pub data Recreation (start : Scene) : Scene → Type 0 where
      begun : Recreation start start
      run :
          (w : api.World)
          → Recreation start (view w)
          → Recreation start (
              view
                (recreate_rollout up api workload (view w).fleet.current (view w).fleet.sets w).1)
      reported :
          {s : Scene} (report : ReplicaSet → ReplicaSetStatus)
          → Recreation start s
          → Recreation start (record s { fleet = changed (with_status report) s.fleet })
      moved :
          {s : Scene} (pods : List Pod)
          → Recreation start s
          → (old_running up (record s { pods = pods }) ≡ true
              → (old_running up s ≡ true) ⊎ (0 < old_wanted up s))
          → (current_running up (record s { pods = pods }) ≡ true
              → (current_running up s ≡ true) ⊎ (0 < spec_count s.fleet.current))
          → Recreation start (record s { pods = pods })
