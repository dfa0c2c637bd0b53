-- ===== src/Admission/Webhook.antt =====
-- internal/webhook/v1alpha1: the defaulter and the validator of each kind.
use churnless.Base.{ℕ, Option, none, some, List, [], ◌∷◌, String}
use churnless.Api.{Deployment, DeploymentSpec, ReplicaSet, ReplicaSetSpec}
use churnless.Action.{Error}
use churnless.Admission.Kubernetes.{Kubernetes, AppsKind}
use churnless.Admission.Validate.{
  validate_deployment, deployment_warnings, validate_replica_set, replica_set_warnings,
}

-- (admission.Warnings, error)
abbrev pub Verdict : Type 0
Verdict = List String × Option Error

module _ (k8s : Kubernetes) where
  -- `if len(errs) == 0 { return nil }`
  abbrev pub invalid_unless_empty : String → List ℕ → List k8s.FieldError → Option Error
  invalid_unless_empty kind name [] = none
  invalid_unless_empty kind name (e ∷ errs) = some (k8s.new_invalid kind name (e ∷ errs))

module _ (k8s : Kubernetes) (kind : AppsKind k8s DeploymentSpec) where
  -- DefaultDeployment; set_defaults is upstream's defaulter for an object that has the spec
  unfoldable pub default_deployment_spec : DeploymentSpec → DeploymentSpec
  default_deployment_spec spec = kind.set_defaults spec

  unfoldable pub default_deployment : Deployment → Deployment
  unfolding default_deployment_spec
  default_deployment obj = record obj { spec = default_deployment_spec obj.spec }

  abbrev old_deployment_spec : Option Deployment → Option DeploymentSpec
  old_deployment_spec none = none
  old_deployment_spec (some old) = some old.spec

  unfoldable pub deployment_validation_error : Deployment → Option Deployment → Option Error
  unfolding validate_deployment
  deployment_validation_error obj old_obj =
      invalid_unless_empty k8s "Deployment" obj.metadata.name
        (validate_deployment k8s kind obj.spec (old_deployment_spec old_obj))

  unfoldable pub validate_deployment_create : Deployment → Verdict
  unfolding deployment_validation_error deployment_warnings
  validate_deployment_create obj = (
    deployment_warnings k8s kind obj.metadata.name obj.spec none,
    deployment_validation_error obj none,
  )

  unfoldable pub validate_deployment_update : Deployment → Deployment → Verdict
  unfolding deployment_validation_error deployment_warnings
  validate_deployment_update old_obj new_obj = (
    deployment_warnings k8s kind new_obj.metadata.name new_obj.spec (some old_obj.spec),
    deployment_validation_error new_obj (some old_obj),
  )

  unfoldable pub validate_deployment_delete : Deployment → Verdict
  validate_deployment_delete obj = ([], none)

module _ (k8s : Kubernetes) (kind : AppsKind k8s ReplicaSetSpec) where
  unfoldable pub default_replica_set_spec : ReplicaSetSpec → ReplicaSetSpec
  default_replica_set_spec spec = kind.set_defaults spec

  unfoldable pub default_replica_set : ReplicaSet → ReplicaSet
  unfolding default_replica_set_spec
  default_replica_set obj = record obj { spec = default_replica_set_spec obj.spec }

  abbrev old_replica_set_spec : Option ReplicaSet → Option ReplicaSetSpec
  old_replica_set_spec none = none
  old_replica_set_spec (some old) = some old.spec

  unfoldable pub replica_set_validation_error : ReplicaSet → Option ReplicaSet → Option Error
  unfolding validate_replica_set
  replica_set_validation_error obj old_obj =
      invalid_unless_empty k8s "ReplicaSet" obj.metadata.name
        (validate_replica_set k8s kind obj.spec (old_replica_set_spec old_obj))

  unfoldable pub validate_replica_set_create : ReplicaSet → Verdict
  unfolding replica_set_validation_error replica_set_warnings
  validate_replica_set_create obj = (
    replica_set_warnings k8s kind obj.metadata.name obj.spec none,
    replica_set_validation_error obj none,
  )

  unfoldable pub validate_replica_set_update : ReplicaSet → ReplicaSet → Verdict
  unfolding replica_set_validation_error replica_set_warnings
  validate_replica_set_update old_obj new_obj = (
    replica_set_warnings k8s kind new_obj.metadata.name new_obj.spec (some old_obj.spec),
    replica_set_validation_error new_obj (some old_obj),
  )

  unfoldable pub validate_replica_set_delete : ReplicaSet → Verdict
  validate_replica_set_delete obj = ([], none)
