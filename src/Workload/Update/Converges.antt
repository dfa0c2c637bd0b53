-- ===== src/Workload/Update/Converges.antt =====
-- A Pod that updatePods has patched matches the template.
use churnless.Base.{◌≡◌, refl, ◌∙◌, true, false, All}
use churnless.Api.{PodTemplateSpec, Pod}
use churnless.Action.{ok}
use churnless.Upstream.{Upstream}
use churnless.StringMap.Laws.{IsMap}
use churnless.Workload.Template.{MutablePodPolicy, revision}
use churnless.Workload.Images.{has_container, set_pod_images, pod_spec_has_images}
use churnless.Workload.Images.Laws.{DistinctNames, set_container_images-have}
use churnless.Workload.Metadata.{
  set_pod_metadata, pod_metadata_matches, managed_template_label_keys,
  managed_template_annotation_keys,
}
use churnless.Workload.Metadata.Laws.{KeyCodec, OwnFree, marked-matches}
use churnless.Workload.Progress.{spec_matches}
use churnless.Workload.Update.{with_metadata}

-- A template whose containers have distinct names and whose keys are distinct and its own.
pub record IsPlain (up : Upstream) (template : PodTemplateSpec) : Type 0 where
  pub inits : DistinctNames template.spec.init_containers
  pub containers : DistinctNames template.spec.containers
  pub labels : IsMap template.labels
  pub annotations : IsMap template.annotations
  pub own_free : OwnFree template.annotations
  pub label_codec : KeyCodec up (managed_template_label_keys template.labels)
  pub annotation_codec : KeyCodec up (managed_template_annotation_keys template.annotations)

-- The metadata of a Pod has no part in its images.
pub pod_spec_has_images-with_metadata :
    (up : Upstream) (policy : MutablePodPolicy) (template : PodTemplateSpec) (pod : Pod)
    → pod_spec_has_images (with_metadata up policy template pod) template
      ≡ pod_spec_has_images pod template
unfolding with_metadata set_pod_metadata pod_spec_has_images
pod_spec_has_images-with_metadata up policy template pod = refl

matches_of :
    (up : Upstream) (policy : MutablePodPolicy) (template : PodTemplateSpec) (pod : Pod)
    → policy.resize_resources ≡ false
    → pod_metadata_matches up (with_metadata up policy template pod) template ≡ true
    → pod_spec_has_images (with_metadata up policy template pod) template ≡ true
    → spec_matches up policy (with_metadata up policy template pod) template ≡ true
unfolding spec_matches
matches_of up policy template pod off meta images = rw (spec_matches, meta, images, off) refl

-- Where the policy leaves resources alone, the template is plain, and the Pod has its containers: the
-- images can be set, and the Pod with the images and the metadata matches the template.
pub set_pod_images-spec_matches :
    (up : Upstream) (policy : MutablePodPolicy) (template : PodTemplateSpec) (pod : Pod)
    → policy.resize_resources ≡ false
    → IsPlain up template
    → All (λ d. has_container pod.spec.init_containers d.name ≡ true) template.spec.init_containers
    → All (λ d. has_container pod.spec.containers d.name ≡ true) template.spec.containers
    → (changed : Pod) × (set_pod_images pod template ≡ ok changed)
      × (spec_matches up policy (with_metadata up policy template changed) template ≡ true)
unfolding set_pod_images pod_spec_has_images with_metadata
set_pod_images-spec_matches up policy template pod off plain inits containers =
    let (i, set_i, have_i, same_i) =
      set_container_images-have pod.spec.init_containers template.spec.init_containers plain.inits
        inits in
    let (c, set_c, have_c, same_c) =
      set_container_images-have pod.spec.containers template.spec.containers plain.containers
        containers in
    let changed : Pod = record pod {
      spec = record pod.spec { init_containers = i; containers = c };
    } in
    let meta =
      marked-matches up changed template (revision up policy template) plain.labels
        plain.annotations plain.own_free plain.label_codec plain.annotation_codec in
    let images =
      pod_spec_has_images-with_metadata up policy template changed
      ∙ rw (pod_spec_has_images, have_i, have_c) refl in
    (changed, rw (set_i, set_c) refl, matches_of up policy template changed off meta images)
