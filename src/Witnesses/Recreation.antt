-- ===== src/Witnesses/Recreation.antt =====
-- The theorems on Recreate at a concrete rollout.
use churnless.Base.{[], ◌∷◌, map, if◌then◌else◌}
use churnless.StringMap.{StringMap}
use churnless.Api.{ReplicaSet}
use churnless.Action.{ok}
use churnless.Client.{Client}
use churnless.Examples.{idle_client, example_upstream, example_deployment, old_set, new_set}
use churnless.Deployment.Totals.{is_same}
use churnless.Deployment.Actions.{recreate_rollout}
use churnless.Deployment.Recreate.Scene.{Scene, Apart}
use churnless.Witnesses.Pods.{two_pods}
use churnless.Base.{none}
use churnless.Int32.{pos}
use churnless.Api.{ReplicaSetStatus}
use churnless.Deployment.Rounds.{changed, with_status}

-- A merge patch of the count.
abbrev patched : ReplicaSet → ReplicaSet → ReplicaSet → ReplicaSet
patched before after rs =
    if is_same rs before
    then record rs { spec = record rs.spec { replicas = after.spec.replicas } }
    else rs

-- A server that has the ReplicaSets and the Pods of one Deployment.
abbrev scene_api : Client StringMap
scene_api = record (idle_client Scene) {
  patch_replica_set = λ a b w. (
    ok tt,
    record w {
      fleet = record {
        current = patched a b w.fleet.current;
        sets = map (patched a b) w.fleet.sets;
      };
    },
  );
  reader_list_matching_pods = λ n s w. (ok w.pods, w);
}

abbrev view : Scene → Scene
view s = s

-- The old ReplicaSet wants three Pods and has two that run.
abbrev start : Scene
start = record {
  fleet = record { current = new_set; sets = old_set ∷ new_set ∷ [] };
  pods = two_pods;
}

abbrev after_run : Scene → Scene
after_run s =
    (recreate_rollout example_upstream scene_api example_deployment s.fleet.current s.fleet.sets
      s).1

-- The old ReplicaSet is scaled down, its Pods go, and the new one is scaled up.
abbrev emptied : Scene
emptied = record (after_run start) { pods = [] }

-- A ReplicaSet that has no Pods any more.
abbrev no_pods : ReplicaSet → ReplicaSetStatus
no_pods rs = record rs.status { replicas = pos 0; terminating_replicas = none }

abbrev emptied_out : Scene → Scene
emptied_out s = record { fleet = changed (with_status no_pods) s.fleet; pods = [] }

abbrev replaced : Scene
replaced = after_run (emptied_out (after_run (emptied_out start)))
