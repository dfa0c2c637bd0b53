-- ===== src/Deployment/Recreate/Finishes.antt =====
-- Recreate comes to its end, over an API server that grants every request.
use churnless.Base.{ℕ, zero, suc, ◌-◌, ◌≤◌, ◌≡◌, false, some, List}
use churnless.Int32.{ℤ, pos, ltb_ℤ}
use churnless.Api.{ReplicaSet, ReplicaSetStatus, Deployment}
use churnless.Action.{ok}
use churnless.Upstream.{Upstream}
use churnless.Client.{Client}
use churnless.Deployment.Totals.{total_old_observed_pods}
use churnless.Deployment.Counts.{spec_count, sum_old}
use churnless.Deployment.Rounds.{changed, with_status}
use churnless.Deployment.Actions.{recreate_rollout}
use churnless.Deployment.Recreate.Scene.{Scene, recount, old_running}
use churnless.Deployment.Recreate.Waiting.{waiting, Counted}

-- Patches of the count are granted and show, and Pods are listed as they are.
pub record Grants {S : Type 0} (api : Client S) (view : api.World → Scene) : Type 0 where
  pub patched :
      (rs : ReplicaSet) (n : ℤ) (w : api.World)
      → (w' : api.World) × (api.patch_replica_set rs
            (record rs { spec = record rs.spec { replicas = some n } })
            w
          ≡ (ok tt, w'))
        × (view w' ≡ record (view w) { fleet = changed (recount rs n) (view w).fleet })
  pub listed :
      (namespace : List ℕ) (selector : S) (w : api.World)
      → (w' : api.World) × (api.reader_list_matching_pods namespace selector w
          ≡ (ok (view w).pods, w'))
        × (view w' ≡ view w)

abbrev waits : Scene → ℕ
waits s = waiting s.fleet.current s.fleet.sets

module _ (up : Upstream) where
  -- Once the old ReplicaSets want no Pods, they report none, and none of theirs runs.
  pub record Settled (s : Scene) : Type 0 where
    pub reported :
        waiting s.fleet.current s.fleet.sets ≡ 0
        → ltb_ℤ (pos 0) (total_old_observed_pods s.fleet.current s.fleet.sets) ≡ false
    pub gone : waiting s.fleet.current s.fleet.sets ≡ 0 → old_running up s ≡ false

  -- The ReplicaSets report and their Pods come and go, until both show what is wanted of the old ones.
  pub record Settles (before after : Scene) : Type 0 where
    pub report : ReplicaSet → ReplicaSetStatus
    pub fleet : after.fleet ≡ changed (with_status report) before.fleet
    pub settled : Settled after

  pub record Finished (desired : ℕ) (s : Scene) : Type 0 where
    pub current : spec_count s.fleet.current ≡ desired
    pub old : sum_old s.fleet.current s.fleet.sets ≡ 0

  module _ (api : Client up.Selector) (view : api.World → Scene) (workload : Deployment) where
    abbrev pub recreated : api.World → api.World
    recreated w = (recreate_rollout up api workload (view w).fleet.current (view w).fleet.sets w).1

    -- Runs of Recreate, before each of which the ReplicaSets and the Pods settle.
    pub data Rounds : ℕ → api.World → api.World → Type 0 where
      no_round : {w : api.World} → Rounds zero w w
      one_round :
          {k : ℕ} {w w' w'' : api.World}
          → Settles (view w) (view w')
          → Rounds k (recreated w') w''
          → Rounds (suc k) w w''

    module _ (grants : Grants api view) (selector : up.Selector)
        (parses : up.label_selector_as_selector workload.spec.selector ≡ ok selector) where
      -- What a run leaves, `left` old ReplicaSets having waited before it.
      record Ran (desired left : ℕ) (s : Scene) : Type 0 where
        counted : Counted s.fleet.sets
        nearer : waits s ≤ left - 1
        finished : left ≡ 0 → Finished desired s
