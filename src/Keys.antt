-- ===== src/Keys.antt =====
-- What the two revisions are hashes of: the structs that internal/controller/workload.go and
-- deployment_controller.go marshal to JSON.
use churnless.Base.{Bool, Option, List, String}
use churnless.StringMap.{StringMap}
use churnless.Api.{ResourceRequirements, PodTemplateSpec}

pub record RevisionContainer : Type 0 where
  pub name : String
  pub image : String
  pub resources : Option ResourceRequirements
  pub init : Bool

pub record InPlaceKey : Type 0 where
  pub labels : StringMap
  pub annotations : StringMap
  pub containers : List RevisionContainer

pub record StructuralKey : Type 0 where
  pub template : PodTemplateSpec
  pub resource_policy : String
  pub redeploy : String
  pub workload_restart : String
  pub template_restart : String
