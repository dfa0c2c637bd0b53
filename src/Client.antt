-- ===== src/Client.antt =====
-- The Kubernetes API server, as the reconcilers see it: one call for each request that they make.
-- `World` is everything outside the process, and each call may fail with an error.
use churnless.Base.{ℕ, List, String}
use churnless.Api.{Time, ObjectMeta, Pod, ReplicaSet, Deployment}
use churnless.Action.{Action}

-- types.NamespacedName
pub record ObjectKey : Type 0 where
  pub namespace : List ℕ
  pub name : List ℕ

-- A patch is sent as the object before and after. `reader_` calls go to `r.reader()`, `live_` calls
-- to the API server, `cached_` calls to the informer cache. The answer to a patch is written to the
-- object in memory: it is returned where the code goes on with that object. `now` is metav1.Now, which
-- cannot fail.
pub record Client (Selector : Type 0) : Type 1 where
  pub World : Type 0
  pub now : World → Time × World
  pub get_deployment : ObjectKey → Action World Deployment
  pub patch_deployment : Deployment → Deployment → Action World (Unit {0})
  pub patch_deployment_status : Deployment → Deployment → Action World Deployment
  pub reader_get_native_deployment : ObjectKey → Action World ObjectMeta
  pub delete_native_deployment : ObjectMeta → Action World (Unit {0})
  pub get_replica_set : ObjectKey → Action World ReplicaSet
  pub reader_get_replica_set : ObjectKey → Action World ReplicaSet
  pub reader_list_replica_sets : List ℕ → Action World (List ReplicaSet)
  pub create_replica_set : ReplicaSet → Action World (Unit {0})
  pub patch_replica_set : ReplicaSet → ReplicaSet → Action World (Unit {0})
  pub patch_replica_set_status : ReplicaSet → ReplicaSet → Action World ReplicaSet
  pub reader_get_native_replica_set : ObjectKey → Action World ObjectMeta
  pub delete_native_replica_set : ObjectMeta → Action World (Unit {0})
  pub reader_list_pods : List ℕ → Action World (List Pod)
  pub reader_list_matching_pods : List ℕ → Selector → Action World (List Pod)
  pub live_list_matching_pods : List ℕ → Selector → Action World (List Pod)
  pub live_get_pod : ObjectKey → Action World Pod
  pub cached_list_controlled_pods : List ℕ → String → Action World (List Pod)
  pub create_pod : Pod → Action World (Unit {0})
  pub patch_pod : Pod → Pod → Action World Pod
  pub patch_pod_locked : Pod → Pod → Action World (Unit {0})
  pub resize_pod : Pod → Action World Pod
  pub delete_pod : Pod → Action World (Unit {0})
