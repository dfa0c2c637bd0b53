-- ===== src/Examples/Idle.antt =====
-- An API server that has nothing, from which others are made.
use churnless.Base.{[]}
use churnless.StringMap.{StringMap}
use churnless.Action.{err, Action, not_found}
use churnless.Client.{Client}

abbrev absent : {W A : Type 0} → Action W A
absent w = (err (record { reason = not_found; context = [] }), w)

-- Every request is answered by not found, and changes nothing.
abbrev pub idle_client : Type 0 → Client StringMap
idle_client World = record {
  World = World;
  now = λ w. (7, w);
  get_deployment = λ k. absent;
  patch_deployment = λ a b. absent;
  patch_deployment_status = λ a b. absent;
  reader_get_native_deployment = λ k. absent;
  delete_native_deployment = λ m. absent;
  get_replica_set = λ k. absent;
  reader_get_replica_set = λ k. absent;
  reader_list_replica_sets = λ n. absent;
  create_replica_set = λ rs. absent;
  patch_replica_set = λ a b. absent;
  patch_replica_set_status = λ a b. absent;
  reader_get_native_replica_set = λ k. absent;
  delete_native_replica_set = λ m. absent;
  reader_list_pods = λ n. absent;
  reader_list_matching_pods = λ n s. absent;
  live_list_matching_pods = λ n s. absent;
  live_get_pod = λ k. absent;
  cached_list_controlled_pods = λ n uid. absent;
  create_pod = λ p. absent;
  patch_pod = λ a b. absent;
  patch_pod_locked = λ a b. absent;
  resize_pod = λ p. absent;
  delete_pod = λ p. absent;
}
