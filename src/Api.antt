-- ===== src/Api.antt =====
-- api/v1alpha1 (deployment_types.go, replicaset_types.go) with the Kubernetes objects that the
-- controllers read: each record has the fields that the code touches, and `rest` for the others.
-- A nil map and an empty one are one value: the code never tells them apart but to allocate.
use churnless.Base.{ℕ, Option, Bool, List, String}
use churnless.Int32.{ℤ}
use churnless.StringMap.{StringMap}

-- Points in time, in seconds.
abbrev pub Time : Type 0
Time = ℕ

pub record OwnerReference : Type 0 where
  pub api_version : String
  pub kind : String
  pub name : List ℕ
  pub uid : String
  pub controller : Option Bool

-- Names are byte strings, which the code cuts and joins.
pub record ObjectMeta : Type 0 where
  pub name : List ℕ
  pub generate_name : List ℕ
  pub namespace : List ℕ
  pub uid : String
  pub generation : ℤ
  pub creation_timestamp : Time
  pub deletion_timestamp : Option Time
  pub labels : StringMap
  pub annotations : StringMap
  pub finalizers : List String
  pub owner_references : List OwnerReference

-- Quantities are written in their canonical form.
pub record ResourceRequirements : Type 0 where
  pub requests : StringMap
  pub limits : StringMap
  pub claims : List String

pub record Container : Type 0 where
  pub name : String
  pub image : String
  pub resources : ResourceRequirements
  pub rest : String

pub record PodSpec : Type 0 where
  pub init_containers : List Container
  pub containers : List Container
  pub node_name : String
  pub rest : String

pub record PodTemplateSpec : Type 0 where
  pub labels : StringMap
  pub annotations : StringMap
  pub finalizers : List String
  pub spec : PodSpec

pub record ContainerStatus : Type 0 where
  pub name : String
  pub image : String

pub data PodPhase : Type 0 where
  pod_pending pod_running pod_succeeded pod_failed pod_unknown : PodPhase

-- `resize` is the empty text where no resize is under way.
pub record PodStatus : Type 0 where
  pub phase : PodPhase
  pub resize : String
  pub init_container_statuses : List ContainerStatus
  pub container_statuses : List ContainerStatus
  pub rest : String

pub record Pod : Type 0 where
  pub metadata : ObjectMeta
  pub spec : PodSpec
  pub status : PodStatus

pub record LabelSelector : Type 0 where
  pub match_labels : StringMap
  pub match_expressions : List String

pub record InPlaceUpdateStatus : Type 0 where
  pub revision : String
  pub updated_replicas : ℤ
  pub ready_updated_replicas : ℤ

pub record ReplicaSetSpec : Type 0 where
  pub replicas : Option ℤ
  pub min_ready_seconds : ℤ
  pub selector : Option LabelSelector
  pub template : PodTemplateSpec

pub record ReplicaSetStatus : Type 0 where
  pub observed_generation : ℤ
  pub replicas : ℤ
  pub fully_labeled_replicas : ℤ
  pub ready_replicas : ℤ
  pub available_replicas : ℤ
  pub terminating_replicas : Option ℤ
  pub selector : String
  pub in_place : Option InPlaceUpdateStatus

pub record ReplicaSet : Type 0 where
  pub metadata : ObjectMeta
  pub spec : ReplicaSetSpec
  pub status : ReplicaSetStatus

pub data IntOrString : Type 0 where
  from_int : ℤ → IntOrString
  from_string : String → IntOrString

pub data StrategyType : Type 0 where
  recreate rolling_update unset : StrategyType

pub record RollingUpdate : Type 0 where
  pub max_surge : Option IntOrString
  pub max_unavailable : Option IntOrString

pub record DeploymentStrategy : Type 0 where
  pub type : StrategyType
  pub rolling : Option RollingUpdate

pub record DeploymentSpec : Type 0 where
  pub replicas : Option ℤ
  pub selector : Option LabelSelector
  pub template : PodTemplateSpec
  pub strategy : DeploymentStrategy
  pub min_ready_seconds : ℤ
  pub paused : Bool

pub data ConditionType : Type 0 where
  available progressing replica_failure : ConditionType

pub data ConditionStatus : Type 0 where
  condition_true condition_false condition_unknown : ConditionStatus

pub record DeploymentCondition : Type 0 where
  pub type : ConditionType
  pub status : ConditionStatus
  pub reason : String
  pub message : String
  pub last_update_time : Time
  pub last_transition_time : Time

pub record DeploymentStatus : Type 0 where
  pub observed_generation : ℤ
  pub replicas : ℤ
  pub updated_replicas : ℤ
  pub ready_replicas : ℤ
  pub available_replicas : ℤ
  pub unavailable_replicas : ℤ
  pub terminating_replicas : Option ℤ
  pub conditions : List DeploymentCondition
  pub collision_count : Option ℤ
  pub selector : String
  pub in_place : Option InPlaceUpdateStatus

pub record Deployment : Type 0 where
  pub metadata : ObjectMeta
  pub spec : DeploymentSpec
  pub status : DeploymentStatus
