-- ===== src/Workload/Template.antt =====
-- The policy for in-place fields, and the template without them: mutablePodPolicy, cleanTemplate,
-- clearImages, clearResizableResources, resizableResources, and the two revisions.
use churnless.Base.{
  Bool, true, false, ◌||◌, none, some, String, [], ◌++◌, map, str_eq, if◌then◌else◌,
}
use churnless.StringMap.{StringMap, get, put, delete, keep_keys}
use churnless.Api.{ResourceRequirements, Container, PodTemplateSpec, Deployment}
use churnless.Keys.{RevisionContainer, InPlaceKey, StructuralKey}
use churnless.Upstream.{Upstream}

abbrev pub revision_annotation : String
revision_annotation = "churnless.io/in-place-revision"

abbrev pub managed_label_keys_annotation : String
managed_label_keys_annotation = "churnless.io/managed-template-label-keys"

abbrev pub managed_annotation_keys_annotation : String
managed_annotation_keys_annotation = "churnless.io/managed-template-annotation-keys"

abbrev pub in_place_resources_annotation : String
in_place_resources_annotation = "churnless.io/in-place-resources"

abbrev pub in_place_resources_best_effort : String
in_place_resources_best_effort = "best-effort"

abbrev pub redeploy_annotation : String
redeploy_annotation = "churnless.io/redeploy-at"

abbrev pub kubectl_restarted_at_annotation : String
kubectl_restarted_at_annotation = "kubectl.kubernetes.io/restartedAt"

abbrev pub structural_revision_label : String
structural_revision_label = "churnless.io/structural-revision"

-- corev1.ResourceCPU and corev1.ResourceMemory
abbrev pub resource_cpu : String
resource_cpu = "cpu"

abbrev pub resource_memory : String
resource_memory = "memory"

pub record MutablePodPolicy : Type 0 where
  pub resize_resources : Bool

unfoldable pub mutable_pod_policy_for : StringMap → MutablePodPolicy
mutable_pod_policy_for annotations = record {
  resize_resources =
      str_eq (get annotations in_place_resources_annotation) in_place_resources_best_effort;
}

unfoldable pub resource_policy : MutablePodPolicy → String
resource_policy p = if p.resize_resources then in_place_resources_best_effort else ""

unfoldable pub apply_resource_policy : MutablePodPolicy → StringMap → StringMap
apply_resource_policy p annotations =
    if p.resize_resources
    then put in_place_resources_annotation in_place_resources_best_effort annotations
    else delete in_place_resources_annotation annotations

abbrev pub clear_image : Container → Container
clear_image c = record c { image = "" }

unfoldable pub clear_images : PodTemplateSpec → PodTemplateSpec
clear_images t = record t {
  spec = record t.spec {
    init_containers = map clear_image t.spec.init_containers;
    containers = map clear_image t.spec.containers;
  };
}

unfoldable pub clear_resizable : ResourceRequirements → ResourceRequirements
clear_resizable r = record r {
  requests = delete resource_memory (delete resource_cpu r.requests);
  limits = delete resource_memory (delete resource_cpu r.limits);
}

abbrev pub clear_container_resources : Container → Container
clear_container_resources c = record c { resources = clear_resizable c.resources }

unfoldable pub clear_resizable_resources : PodTemplateSpec → PodTemplateSpec
unfolding clear_resizable
clear_resizable_resources t = record t {
  spec = record t.spec { containers = map clear_container_resources t.spec.containers };
}

unfoldable pub clear_from_structural : MutablePodPolicy → PodTemplateSpec → PodTemplateSpec
unfolding clear_images clear_resizable_resources
clear_from_structural p t =
    let bare = clear_images (record t { labels = []; annotations = [] }) in
    if p.resize_resources then clear_resizable_resources bare else bare

unfoldable pub clean_template : PodTemplateSpec → PodTemplateSpec
clean_template t = record t {
  labels = delete structural_revision_label t.labels;
  annotations =
      delete managed_annotation_keys_annotation
        (delete managed_label_keys_annotation (delete revision_annotation t.annotations));
}

abbrev pub is_resizable : String → Bool
is_resizable name = str_eq name resource_cpu || str_eq name resource_memory

-- Only cpu and memory; claims are not copied.
unfoldable pub resizable_resources : ResourceRequirements → ResourceRequirements
resizable_resources r = record {
  requests = keep_keys is_resizable r.requests;
  limits = keep_keys is_resizable r.limits;
  claims = [];
}

abbrev pub init_revision_container : Container → RevisionContainer
init_revision_container c = record { name = c.name; image = c.image; resources = none; init = true }

abbrev pub revision_container : MutablePodPolicy → Container → RevisionContainer
revision_container p c = record {
  name = c.name;
  image = c.image;
  resources = if p.resize_resources then some (resizable_resources c.resources) else none;
  init = false;
}

unfoldable pub in_place_key : MutablePodPolicy → PodTemplateSpec → InPlaceKey
unfolding clean_template resizable_resources
in_place_key p t = record {
  labels = (clean_template t).labels;
  annotations = (clean_template t).annotations;
  containers =
      map init_revision_container t.spec.init_containers
      ++ map (revision_container p) t.spec.containers;
}

unfoldable pub structural_key : Deployment → StructuralKey
unfolding mutable_pod_policy_for resource_policy clear_from_structural clean_template
structural_key workload =
    let clean = clean_template workload.spec.template in
    let policy = mutable_pod_policy_for workload.metadata.annotations in
    record {
      template = clear_from_structural policy clean;
      resource_policy = resource_policy policy;
      redeploy = get workload.metadata.annotations redeploy_annotation;
      workload_restart = get workload.metadata.annotations kubectl_restarted_at_annotation;
      template_restart = get clean.annotations kubectl_restarted_at_annotation;
    }

module _ (up : Upstream) where
  -- `policy.revision(template)`: the in-place revision.
  unfoldable pub revision : MutablePodPolicy → PodTemplateSpec → String
  revision p t = up.in_place_digest (in_place_key p t)

  unfoldable pub structural_revision : Deployment → String
  structural_revision workload = up.structural_digest (structural_key workload)
