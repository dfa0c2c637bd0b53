-- ===== src/Upstream.antt =====
-- What the controllers take from Kubernetes, from the container reference library and from Go's
-- standard library: one record, an argument of every definition that uses it.
use churnless.Base.{ℕ, Bool, Option, List, String}
use churnless.Int32.{ℤ}
use churnless.StringMap.{StringMap}
use churnless.Api.{
  Time, ObjectMeta, OwnerReference, LabelSelector, IntOrString, Pod, ReplicaSetSpec,
  ReplicaSetStatus, DeploymentStatus, ResourceRequirements,
}
use churnless.Action.{Result}
use churnless.Keys.{InPlaceKey, StructuralKey}

pub record Upstream : Type 1 where
  -- labels.Selector, metav1.LabelSelectorAsSelector, String, Matches, labels.SelectorFromSet
  pub Selector : Type 0
  pub label_selector_as_selector : Option LabelSelector → Result Selector
  pub selector_to_string : Selector → String
  pub selector_matches : Selector → StringMap → Bool
  pub selector_from_set : StringMap → Selector
  -- metav1.GetControllerOf, metav1.IsControlledBy (object, owner)
  pub get_controller_of : ObjectMeta → Option OwnerReference
  pub is_controlled_by : ObjectMeta → ObjectMeta → Bool
  -- controllerutil.SetControllerReference (owner, object)
  pub set_controller_reference : ObjectMeta → ObjectMeta → Result ObjectMeta
  -- deploymentutil.ResolveFenceposts (maxSurge, maxUnavailable, desired)
  pub resolve_fenceposts : IntOrString → IntOrString → ℤ → Result (ℤ × ℤ)
  -- podutil.IsPodReady, podutil.IsPodAvailable, ActivePodsWithRanks.Less
  pub is_pod_ready : Pod → Bool
  pub is_pod_available : Pod → ℤ → Time → Bool
  pub active_pods_less : Pod → Pod → ℕ → ℕ → Time → Bool
  -- apiequality.Semantic.DeepEqual at the types that the code compares
  pub spec_equal : ReplicaSetSpec → ReplicaSetSpec → Bool
  pub replica_set_status_equal : ReplicaSetStatus → ReplicaSetStatus → Bool
  pub deployment_status_equal : DeploymentStatus → DeploymentStatus → Bool
  pub resources_equal : ResourceRequirements → ResourceRequirements → Bool
  -- The hexadecimal text of the first bytes of the SHA-256 of a struct's JSON
  pub structural_digest : StructuralKey → String
  pub in_place_digest : InPlaceKey → String
  -- slices.Sorted; json.Marshal and json.Unmarshal of a list of texts
  pub sorted : List String → List String
  pub marshal_keys : List String → String
  pub unmarshal_keys : String → Option (List String)
  -- reference.ParseNormalizedNamed followed by reference.FamiliarString
  pub familiar_name : String → Option String
  -- strconv.Itoa, strconv.Atoi
  pub itoa : ℤ → String
  pub atoi : String → Option ℤ
