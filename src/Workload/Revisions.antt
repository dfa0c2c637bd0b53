-- ===== src/Workload/Revisions.antt =====
-- Which changes of a template keep its structural revision.
use churnless.Base.{◌≡◌, refl, ap, ◌∙◌, List, map}
use churnless.StringMap.{StringMap, get, or_empty, delete, lookup-delete}
use churnless.Api.{Container, PodTemplateSpec, Deployment}
use churnless.Upstream.{Upstream}
use churnless.Workload.Template.{
  kubectl_restarted_at_annotation, revision_annotation, managed_label_keys_annotation,
  managed_annotation_keys_annotation, MutablePodPolicy, mutable_pod_policy_for, clear_image,
  clear_images, clear_from_structural, clean_template, structural_key, structural_revision,
}

-- The annotations that are cleaned away are other ones.
pub restarted_at-clean_template :
    (t : PodTemplateSpec)
    → get (clean_template t).annotations kubectl_restarted_at_annotation
      ≡ get t.annotations kubectl_restarted_at_annotation
unfolding clean_template
restarted_at-clean_template t = ap or_empty (
    lookup-delete managed_annotation_keys_annotation kubectl_restarted_at_annotation
      (delete managed_label_keys_annotation (delete revision_annotation t.annotations))
    ∙ lookup-delete managed_label_keys_annotation kubectl_restarted_at_annotation
        (delete revision_annotation t.annotations)
    ∙ lookup-delete revision_annotation kubectl_restarted_at_annotation t.annotations)

-- The template with other labels, annotations and containers.
abbrev changed_template :
    PodTemplateSpec → StringMap → StringMap → List Container → List Container → PodTemplateSpec
changed_template t labels annotations inits containers = record t {
  labels = labels;
  annotations = annotations;
  spec = record t.spec { init_containers = inits; containers = containers };
}

abbrev with_template : Deployment → PodTemplateSpec → Deployment
with_template d t = record d { spec = record d.spec { template = t } }

module _ (t : PodTemplateSpec) (labels annotations : StringMap) (inits containers : List Container)
    (same_inits : map clear_image inits ≡ map clear_image t.spec.init_containers)
    (same_containers : map clear_image containers ≡ map clear_image t.spec.containers) where
  cleared_alike :
      (p : MutablePodPolicy)
      → clear_from_structural p
          (clean_template (changed_template t labels annotations inits containers))
        ≡ clear_from_structural p (clean_template t)
  unfolding clear_from_structural clear_images clean_template
  cleared_alike p = rw (clear_from_structural, same_inits, same_containers) refl

  restarted_alike :
      get annotations kubectl_restarted_at_annotation
        ≡ get t.annotations kubectl_restarted_at_annotation
      → get
          (clean_template (changed_template t labels annotations inits containers)).annotations
          kubectl_restarted_at_annotation
        ≡ get (clean_template t).annotations kubectl_restarted_at_annotation
  restarted_alike same =
      restarted_at-clean_template (changed_template t labels annotations inits containers)
      ∙ rw (restarted_at-clean_template t) same

-- A change of labels, of annotations but kubectl's restartedAt, and of images keeps the structural
-- revision.
structural_revision-changed_template :
    (up : Upstream) (d : Deployment) (labels annotations : StringMap)
    (inits containers : List Container)
    → get annotations kubectl_restarted_at_annotation
      ≡ get d.spec.template.annotations kubectl_restarted_at_annotation
    → map clear_image inits ≡ map clear_image d.spec.template.spec.init_containers
    → map clear_image containers ≡ map clear_image d.spec.template.spec.containers
    → structural_revision up
        (with_template d (changed_template d.spec.template labels annotations inits containers))
      ≡ structural_revision up d
unfolding structural_revision structural_key
structural_revision-changed_template up d labels annotations inits containers restart same_i
      same_c =
    let cleared =
      cleared_alike d.spec.template labels annotations inits containers same_i same_c
        (mutable_pod_policy_for d.metadata.annotations) in
    let restarted =
      restarted_alike d.spec.template labels annotations inits containers same_i same_c restart in
    rw (structural_revision, structural_key, cleared, restarted) refl
