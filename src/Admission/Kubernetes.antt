-- ===== src/Admission/Kubernetes.antt =====
-- What internal/kubecompat/apps.go calls: the upstream packages, for either kind of workload.
use churnless.Base.{ℕ, Option, List, String}
use churnless.Api.{LabelSelector}
use churnless.Action.{Error, Result}

-- The types and functions of k8s.io that both kinds share.
pub record Kubernetes : Type 1 where
  -- internalcore.PodTemplateSpec, PodValidationOptions, field.Error
  pub Template : Type 0
  pub Options : Type 0
  pub FieldError : Type 0
  -- field.InternalError(field.NewPath(...), err)
  pub internal_error : List String → Error → FieldError
  -- podutil.GetValidationOptionsFromPodTemplate
  pub validation_options : Template → Option Template → Options
  -- apivalidation.ValidateImmutableField at the internal selectors
  pub validate_immutable_field :
      Option LabelSelector → Option LabelSelector → List String → List FieldError
  -- validation.IsDNS1123Label: the messages, none for a valid label
  pub is_dns_1123_label : List ℕ → List String
  -- podutil.GetWarningsForPodTemplate
  pub warnings_for_pod_template : List String → Template → Option Template → List String
  -- `%v` of a list of texts
  pub print_messages : List String → String
  -- apierrors.NewInvalid(group kind, name, errs)
  pub new_invalid : String → List ℕ → List FieldError → Error

-- What apps/v1 has for one kind: its conversion, its validation and its defaults.
pub record AppsKind (k8s : Kubernetes) (Spec : Type 0) : Type 1 where
  pub Internal : Type 0
  pub convert : Spec → Result Internal
  pub template : Internal → k8s.Template
  pub selector : Internal → Option LabelSelector
  pub validate_spec : Internal → Option Internal → List String → k8s.Options → List k8s.FieldError
  pub set_defaults : Spec → Spec
