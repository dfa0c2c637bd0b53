-- ===== src/Admission/Validate.antt =====
-- internal/kubecompat/apps.go. The functions for Deployments and for ReplicaSets have one text, which
-- stands here once, over the kind.
use Prim.Native.String.{◌++◌ as str_append}
use churnless.Base.{ℕ, Option, none, some, List, [], ◌∷◌, ◌++◌, String}
use churnless.Api.{DeploymentSpec, ReplicaSetSpec}
use churnless.Action.{ok, err}
use churnless.Admission.Kubernetes.{Kubernetes, AppsKind}

-- A pointer with a field.ErrorList; the callers look at the list first.
pub data Converted (I E : Type 0) : Type 0 where
  converted : I → Converted I E
  failed : E → Converted I E

abbrev pub dns_label_advice : String
dns_label_advice =
    "metadata.name: this is used in Pod names and hostnames, which can result in surprising behavior; a DNS label is recommended: "

module _ (k8s : Kubernetes) where
  -- `if messages := validation.IsDNS1123Label(name); len(messages) != 0`
  abbrev pub name_warnings : List String → List String
  name_warnings [] = []
  name_warnings (m ∷ messages) =
      str_append dns_label_advice (k8s.print_messages (m ∷ messages)) ∷ []

  unfoldable pub workload_warnings : List ℕ → k8s.Template → Option k8s.Template → List String
  workload_warnings name template old_template =
      name_warnings (k8s.is_dns_1123_label name)
      ++ k8s.warnings_for_pod_template ("spec" ∷ "template" ∷ []) template old_template

module _ (k8s : Kubernetes) {Spec : Type 0} (kind : AppsKind k8s Spec) where
  -- deploymentSpecToInternal, replicaSetSpecToInternal
  unfoldable pub to_internal : Spec → Converted kind.Internal (List k8s.FieldError)
  to_internal spec = elim (kind.convert spec) [
    | ok internal ↦ converted internal
    | err e ↦ failed (k8s.internal_error ("spec" ∷ []) e ∷ [])
  ]

  -- The part after both conversions.
  unfoldable pub validate_internal : kind.Internal → Option kind.Internal → List k8s.FieldError
  validate_internal current none =
      kind.validate_spec current none ("spec" ∷ [])
        (k8s.validation_options (kind.template current) none)
  validate_internal current (some previous) =
      kind.validate_spec current (some previous) ("spec" ∷ [])
        (k8s.validation_options (kind.template current) (some (kind.template previous)))
      ++ k8s.validate_immutable_field (kind.selector current) (kind.selector previous)
          ("spec" ∷ "selector" ∷ [])

  -- ValidateDeployment, ValidateReplicaSet
  unfoldable pub validate : Spec → Option Spec → List k8s.FieldError
  unfolding to_internal validate_internal
  validate spec old_spec = elim (to_internal spec) [
    | failed errs ↦ errs
    | converted current ↦ elim old_spec [
      | none ↦ validate_internal current none
      | some old ↦ elim (to_internal old) [
        | failed errs ↦ errs
        | converted previous ↦ validate_internal current (some previous)
      ]
    ]
  ]

  -- DeploymentWarnings, ReplicaSetWarnings
  unfoldable pub warnings : List ℕ → Spec → Option Spec → List String
  unfolding to_internal workload_warnings
  warnings name spec old_spec = elim (to_internal spec) [
    | failed errs ↦ []
    | converted current ↦ elim old_spec [
      | none ↦ workload_warnings k8s name (kind.template current) none
      | some old ↦ elim (to_internal old) [
        | failed errs ↦ []
        | converted previous ↦
            workload_warnings k8s name (kind.template current) (some (kind.template previous))
      ]
    ]
  ]

module _ (k8s : Kubernetes) (kind : AppsKind k8s DeploymentSpec) where
  unfoldable pub validate_deployment : DeploymentSpec → Option DeploymentSpec → List k8s.FieldError
  unfolding validate
  validate_deployment = validate k8s kind

  unfoldable pub deployment_warnings : List ℕ → DeploymentSpec → Option DeploymentSpec → List String
  unfolding warnings
  deployment_warnings = warnings k8s kind

module _ (k8s : Kubernetes) (kind : AppsKind k8s ReplicaSetSpec) where
  unfoldable pub validate_replica_set : ReplicaSetSpec → Option ReplicaSetSpec → List k8s.FieldError
  unfolding validate
  validate_replica_set = validate k8s kind

  unfoldable pub replica_set_warnings :
      List ℕ → ReplicaSetSpec → Option ReplicaSetSpec → List String
  unfolding warnings
  replica_set_warnings = warnings k8s kind
