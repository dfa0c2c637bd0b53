-- ===== src/Workload/Metadata.antt =====
-- The labels and annotations of a Pod that come from the template: managedTemplateLabelKeys,
-- managedTemplateAnnotationKeys, encodeManagedKeys, decodeManagedKeys, setPodMetadata and
-- podMetadataMatches.
pub mod Laws
use churnless.Base.{
  Bool, true, false, ◌&&◌, ◌||◌, not, Option, none, some, String, List, [], ◌∷◌, keep, every,
  str_eq, if◌then◌else◌,
}
use churnless.StringMap.{StringMap, get, put, delete, copy, keys, has_key}
use churnless.Api.{PodTemplateSpec, Pod}
use churnless.Upstream.{Upstream}
use churnless.Workload.Template.{
  structural_revision_label, revision_annotation, managed_label_keys_annotation,
  managed_annotation_keys_annotation,
}

unfoldable pub managed_template_label_keys : StringMap → List String
managed_template_label_keys m = keep (λ k. not (str_eq k structural_revision_label)) (keys m)

-- The annotations that the controller writes itself.
abbrev pub is_own_annotation : String → Bool
is_own_annotation k =
    str_eq k revision_annotation
    || str_eq k managed_label_keys_annotation
    || str_eq k managed_annotation_keys_annotation

unfoldable pub managed_template_annotation_keys : StringMap → List String
managed_template_annotation_keys m = keep (λ k. not (is_own_annotation k)) (keys m)

abbrev or_nil : Option (List String) → List String
or_nil none = []
or_nil (some ks) = ks

-- Deletes the keys that were managed and are no longer.
unfoldable pub drop_unmanaged : List String → List String → StringMap → StringMap
drop_unmanaged managed [] m = m
drop_unmanaged managed (k ∷ ks) m =
    drop_unmanaged managed ks (if has_key k managed then m else delete k m)

-- `for key, value := range template { if pod[key] != value { return false } }`
unfoldable pub has_values : StringMap → StringMap → Bool
has_values pod [] = true
has_values pod ((k, v) ∷ m) = str_eq (get pod k) v && has_values pod m

module _ (up : Upstream) where
  unfoldable pub encode_managed_keys : List String → String
  encode_managed_keys ks = up.marshal_keys (up.sorted ks)

  unfoldable pub decode_managed_keys : String → List String
  decode_managed_keys value = or_nil (up.unmarshal_keys value)

  unfoldable pub set_labels : StringMap → StringMap → StringMap → StringMap
  unfolding decode_managed_keys managed_template_label_keys drop_unmanaged
  set_labels labels annotations template =
      copy
        (drop_unmanaged (managed_template_label_keys template)
          (decode_managed_keys (get annotations managed_label_keys_annotation)) labels)
        template

  -- The list of managed annotation keys is read before the template's annotations are copied.
  unfoldable pub set_annotations : StringMap → StringMap → StringMap → StringMap
  unfolding decode_managed_keys encode_managed_keys managed_template_label_keys
      managed_template_annotation_keys drop_unmanaged
  set_annotations annotations template_labels template =
      let kept =
        drop_unmanaged (managed_template_annotation_keys template)
          (decode_managed_keys (get annotations managed_annotation_keys_annotation)) annotations in
      put managed_annotation_keys_annotation
        (encode_managed_keys (managed_template_annotation_keys template))
        (put managed_label_keys_annotation
          (encode_managed_keys (managed_template_label_keys template_labels)) (copy kept template))

  unfoldable pub set_pod_metadata : Pod → PodTemplateSpec → Pod
  unfolding set_labels set_annotations
  set_pod_metadata pod template = record pod {
    metadata = record pod.metadata {
      labels = set_labels pod.metadata.labels pod.metadata.annotations template.labels;
      annotations = set_annotations pod.metadata.annotations template.labels template.annotations;
    };
  }

  unfoldable pub pod_metadata_matches : Pod → PodTemplateSpec → Bool
  unfolding has_values decode_managed_keys encode_managed_keys managed_template_label_keys
      managed_template_annotation_keys
  pod_metadata_matches pod template =
      let annotations = pod.metadata.annotations in
      let label_keys = managed_template_label_keys template.labels in
      let annotation_keys = managed_template_annotation_keys template.annotations in
      has_values pod.metadata.labels template.labels
      && has_values annotations template.annotations
      && every (λ k. has_key k label_keys)
          (decode_managed_keys (get annotations managed_label_keys_annotation))
      && every (λ k. has_key k annotation_keys)
          (decode_managed_keys (get annotations managed_annotation_keys_annotation))
      && str_eq (get annotations managed_label_keys_annotation) (encode_managed_keys label_keys)
      && str_eq (get annotations managed_annotation_keys_annotation)
          (encode_managed_keys annotation_keys)
