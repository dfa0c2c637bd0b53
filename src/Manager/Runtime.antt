-- ===== src/Manager/Runtime.antt =====
-- What cmd/main.go and the registrations call of controller-runtime, and the reconcilers they build.
use churnless.Base.{Bool, Option, String, List}
use churnless.Api.{ObjectMeta}
use churnless.Action.{Action}
use churnless.Manager.Options.{ManagerOptions}

-- The fields of DeploymentReconciler, over the type of a client.Reader.
pub record DeploymentReconciler (Reader : Type 0) : Type 0 where
  pub client : Reader
  pub api_reader : Option Reader

pub record ReplicaSetReconciler (Reader : Type 0) : Type 0 where
  pub client : Reader
  pub api_reader : Option Reader
  pub pod_owner_indexed : Bool

-- `Reader` is client.Reader; client.Client is one. `new_manager` has ctrl.GetConfigOrDie with it, which
-- ends the process where there is no configuration. `complete_` is the builder with its For, Owns and
-- Named up to Complete.
pub record Runtime : Type 1 where
  pub World : Type 0
  pub Manager : Type 0
  pub Reader : Type 0
  pub new_manager : ManagerOptions → Action World Manager
  pub get_client : Manager → Reader
  pub get_api_reader : Manager → Reader
  -- IndexField for Pods, with the name and the function of the index
  pub index_pods : Manager → String → (ObjectMeta → List String) → Action World (Unit {0})
  pub complete_deployment_controller :
      Manager → DeploymentReconciler Reader → Action World (Unit {0})
  pub complete_replica_set_controller :
      Manager → ReplicaSetReconciler Reader → Action World (Unit {0})
  pub complete_deployment_webhook : Manager → Action World (Unit {0})
  pub complete_replica_set_webhook : Manager → Action World (Unit {0})
  pub add_healthz_check : Manager → String → Action World (Unit {0})
  pub add_readyz_check : Manager → String → Action World (Unit {0})
  pub start : Manager → Action World (Unit {0})
